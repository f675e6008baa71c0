-- ===== src/Nri/Runner/Handled.antt =====
-- What a batch of updates leaves in the store (pkg/nri/nri.go: updateNetworkDeviceData).
use k8snetworkplumbingwg_dra.Common.{
  String, Option, none, some, Bool, not, ℕ, List, [], ◌∷◌, Map, if◌then◌else◌, ◌==◌, ◌&&◌, eq_nat,
  eq_string, Bool-cases, inl, inr, ok, ◌≡◌, refl, sym, ap, ◌∙◌, All,
}
use k8snetworkplumbingwg_dra.Kube.{ResourceClaim}
use k8snetworkplumbingwg_dra.Types.Prepared.{
  PreparedDevice, PreparedDevices, PreparedDevicesByClaimId, PreparedClaimsByPodUid,
}
use k8snetworkplumbingwg_dra.PodManager.Store.{CheckpointManager}
use k8snetworkplumbingwg_dra.Nri.Updates.{NetworkData, Key, eq_key, group_network_data_by_claim}
use k8snetworkplumbingwg_dra.Nri.Plugin.{
  Plugin, Clients, update_network_device_data, update_claims, on_claim,
}
use k8snetworkplumbingwg_dra.Nri.Stored.{
  map_devices, map_claims, map_pods, refreshed, on_claim-stores, on_claim-stale, pods-same,
}
use k8snetworkplumbingwg_dra.Nri.Runner.Batches.{
  is_current, by_groups, updated, IsOwned, by_groups-updated,
}

-- Two changes of every stored device, one after the other.
module _ (f g : PreparedDevice → PreparedDevice) where
  map_devices-twice :
      (ps : PreparedDevices) → map_devices g (map_devices f ps) ≡ map_devices (λ p. g (f p)) ps
  unfolding map_devices
  map_devices-twice [] = refl
  map_devices-twice (none ∷ ps) = ap (λ xs. none ∷ xs) (map_devices-twice ps)
  map_devices-twice (some p ∷ ps) = ap (λ xs. some (g (f p)) ∷ xs) (map_devices-twice ps)

  map_claims-twice :
      (claims : PreparedDevicesByClaimId)
      → map_claims g (map_claims f claims) ≡ map_claims (λ p. g (f p)) claims
  unfolding map_claims
  map_claims-twice [] = refl
  map_claims-twice ((claim, ps) ∷ claims) =
      λ i. (claim, map_devices-twice ps i) ∷ map_claims-twice claims i

  map_pods-twice :
      (pods : PreparedClaimsByPodUid) → map_pods g (map_pods f pods) ≡ map_pods (λ p. g (f p)) pods
  unfolding map_pods
  map_pods-twice [] = refl
  map_pods-twice ((pod, claims) ∷ pods) =
      λ i. (pod, map_claims-twice claims i) ∷ map_pods-twice pods i

module _ (uid_at : String → String → String) (owner : ℕ → Key) {W D : Type 0}
    (checkpoints : CheckpointManager D) (clients : Clients W) (enable_device_metadata : Bool) where
  -- The API server answers every read with its claim of that name.
  abbrev pub Serves : Type 0
  Serves =
      (namespace name : String) (w : W)
      → (claim : ResourceClaim) × (((clients.get_claim namespace name w).0 ≡ ok claim)
          × (claim.uid ≡ uid_at namespace name))

  on_claim-current :
      (key : Key) (items : List NetworkData) (claim : ResourceClaim) (s : Plugin W D)
      → claim.uid ≡ uid_at key.first key.second
      → (on_claim checkpoints clients enable_device_metadata key items
          (ok claim)
          s).pods.prepared_claims_by_pod_uid
        ≡ map_pods
            (λ p. if is_current uid_at owner key then refreshed items p else p)
            s.pods.prepared_claims_by_pod_uid
  on_claim-current key items claim s e =
      let stale = not (key.third == "") && not (claim.uid == key.third) in
      let current : is_current uid_at owner key ≡ not stale =
        ap (λ u. not (not (key.third == "") && not (u == key.third))) (sym e) in
      elim (Bool-cases stale) [
        | inl replaced ↦
            ap (λ (t : Plugin W D). t.pods.prepared_claims_by_pod_uid)
              (on_claim-stale checkpoints clients enable_device_metadata key items claim s replaced)
            ∙ sym (
                pods-same (λ p. if is_current uid_at owner key then refreshed items p else p)
                  (λ p. ap (λ b. if b then refreshed items p else p) (current ∙ ap not replaced))
                  s.pods.prepared_claims_by_pod_uid)
        | inr fresh ↦
            on_claim-stores checkpoints clients enable_device_metadata key items claim s fresh
            ∙ ap (λ g. map_pods g s.pods.prepared_claims_by_pod_uid)
                (λ i p. (if sym (current ∙ ap not fresh) i then refreshed items p else p))
      ]

  update_claims-groups :
      (groups : Map Key (List NetworkData)) (s : Plugin W D)
      → Serves
      → (update_claims checkpoints clients enable_device_metadata groups
          s).pods.prepared_claims_by_pod_uid
        ≡ map_pods (by_groups uid_at owner groups) s.pods.prepared_claims_by_pod_uid
  unfolding update_claims by_groups
  update_claims-groups [] s serves =
      sym (pods-same (by_groups uid_at owner []) (λ p. refl) s.pods.prepared_claims_by_pod_uid)
  update_claims-groups ((key, items) ∷ groups) s serves =
      let got = clients.get_claim key.first key.second s.world in
      let t : Plugin W D = record s { world = got.1 } in
      let (claim, (answered, uid)) = serves key.first key.second s.world in
      update_claims-groups groups
        (on_claim checkpoints clients enable_device_metadata key items got.0 t) serves
      ∙ (ap (map_pods (by_groups uid_at owner groups)) (
            ap
              (λ r.
                (on_claim checkpoints clients enable_device_metadata key items r
                  t).pods.prepared_claims_by_pod_uid)
              answered
            ∙ on_claim-current key items claim t uid)
          ∙ map_pods-twice (λ p. if is_current uid_at owner key then refreshed items p else p)
              (by_groups uid_at owner groups) s.pods.prepared_claims_by_pod_uid)

  -- A batch gives each stored device the last data that the batch has for it, if the API server
  -- still has the claim it was prepared for, and changes nothing else in the store.
  pub update_network_device_data-updates :
      (items : List (Option NetworkData)) (s : Plugin W D)
      → Serves
      → All (IsOwned uid_at owner) items
      → (update_network_device_data checkpoints clients enable_device_metadata items
          s).pods.prepared_claims_by_pod_uid
        ≡ map_pods (updated uid_at owner items) s.pods.prepared_claims_by_pod_uid
  unfolding update_network_device_data
  update_network_device_data-updates items s serves owns =
      update_claims-groups (group_network_data_by_claim items) s serves
      ∙ ap (λ g. map_pods g s.pods.prepared_claims_by_pod_uid)
          (λ i p. by_groups-updated uid_at owner items p owns i)
