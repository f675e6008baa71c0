-- ===== src/Nri/Runner/Queue.antt =====
-- The handling of a batch leaves the queue alone (pkg/nri/nri.go: updateNetworkDeviceData).
use k8snetworkplumbingwg_dra.Common.{
  Option, Bool, not, List, [], ◌∷◌, Map, ◌==◌, eq_string, ◌&&◌, Result, ok, err, panic, ◌≡◌, refl,
  ◌∙◌, if_intro,
}
use k8snetworkplumbingwg_dra.Kube.{ResourceClaim}
use k8snetworkplumbingwg_dra.PodManager.Store.{CheckpointManager}
use k8snetworkplumbingwg_dra.Nri.Updates.{NetworkData, Key, group_network_data_by_claim, group_into}
use k8snetworkplumbingwg_dra.Nri.Plugin.{
  Plugin, Clients, Devices, put_status, on_claim, on_world, update_claims,
  update_network_device_data,
}
use k8snetworkplumbingwg_dra.Nri.Runner.{handle}

module _ {W D : Type 0} (checkpoints : CheckpointManager D) (clients : Clients W)
    (enable_device_metadata : Bool) where
  put_status-queue :
      (claim : ResourceClaim) (ds : Devices checkpoints clients enable_device_metadata)
      (s : Plugin W D)
      → (put_status checkpoints clients enable_device_metadata claim ds s).queue ≡ s.queue
  put_status-queue claim ds s =
      if_intro (λ (t : Plugin W D). t.queue ≡ s.queue) (not ds.0) (λ _. refl) (λ _. refl)

  on_claim-queue :
      (key : Key) (items : List NetworkData) (r : Result ResourceClaim) (s : Plugin W D)
      → (on_claim checkpoints clients enable_device_metadata key items r s).queue ≡ s.queue
  on_claim-queue key items (ok claim) s =
      if_intro (λ (t : Plugin W D). t.queue ≡ s.queue)
        (not (key.third == "") && not (claim.uid == key.third)) (λ _. refl)
        (λ _. put_status-queue claim _ _)
  on_claim-queue key items (err e) s = refl
  on_claim-queue key items panic s = refl

  update_claims-queue :
      (grouped : Map Key (List NetworkData)) (s : Plugin W D)
      → (update_claims checkpoints clients enable_device_metadata grouped s).queue ≡ s.queue
  unfolding update_claims
  update_claims-queue [] s = refl
  update_claims-queue ((key, items) ∷ grouped) s =
      let (r, s') =
        on_world checkpoints clients enable_device_metadata (clients.get_claim key.first key.second)
          s in
      update_claims-queue grouped
        (on_claim checkpoints clients enable_device_metadata key items r s')
      ∙ on_claim-queue key items r s'

  pub handle-queue :
      (items : List (Option NetworkData)) (s : Plugin W D)
      → (handle checkpoints clients enable_device_metadata items s).queue ≡ s.queue
  unfolding update_network_device_data
  handle-queue items s = update_claims-queue (group_network_data_by_claim items) s

  pub handle-nothing : (s : Plugin W D) → handle checkpoints clients enable_device_metadata [] s ≡ s
  unfolding update_network_device_data update_claims group_network_data_by_claim group_into
  handle-nothing s = refl
