-- ===== src/Driver/Again.antt =====
-- What a second call for the same claim, or for another claim of the same pod, finds
-- (pkg/driver/dra_hook.go).
use k8snetworkplumbingwg_dra.Common.{
  String, Option, none, some, false, List, [], ◌∷◌, lookup, delete, ◌==◌, ==_refl, eq_string,
  Result, ok, err, panic, Error, wrap, All, ◌≡◌, refl, ◌∙◌, sym, ap, arith,
}
use k8snetworkplumbingwg_dra.Kube.{ResourceClaim, NamespacedObject, Allocation}
use k8snetworkplumbingwg_dra.Types.Prepared.{
  PreparedDevices, PreparedDevicesByClaimId, PreparedClaimsByPodUid, KubeletPluginDevice,
}
use k8snetworkplumbingwg_dra.PodManager.Store.{
  CheckpointManager, PodManager, get, find_claim, get_by_claim, pod_to_delete, put, delete_claim,
  sync_to_checkpoint,
}
use k8snetworkplumbingwg_dra.DeviceState.Prepare.Claim.{Progress}
use k8snetworkplumbingwg_dra.PodManager.Keys.{get-put}
use k8snetworkplumbingwg_dra.Driver.Hook.{
  Driver, DeviceState, plugin_devices, prepare_resource_claim, prepare_for_pods, prepare_or_reuse,
  prepare_fresh, record_devices, prepare_allocated, answer, after_put, run_prepare,
  unprepare_resource_claim, unprepare_stored,
}

-- No other pod has the claim.
abbrev pub IsOnlyIn : String → String → PreparedClaimsByPodUid → Type 0
IsOnlyIn pod claim pods =
    All (λ (q : String × PreparedDevicesByClaimId). (q.0 == pod) ≡ false → lookup claim q.1 ≡ none)
      pods

find_claim-delete :
    (pod claim : String) (pods : PreparedClaimsByPodUid)
    → IsOnlyIn pod claim pods
    → find_claim claim (delete pod pods) ≡ none
unfolding find_claim delete
find_claim-delete pod claim [] h = refl
find_claim-delete pod claim ((q, claims) ∷ pods) h =
    ground (arith, h.0, find_claim-delete pod claim pods h.1)

module _ {W D : Type 0} (checkpoints : CheckpointManager D) (state : DeviceState W) where
  abbrev pub StoresFor : String → ResourceClaim → List KubeletPluginDevice → Driver W D → Type 0
  StoresFor pod claim devices s =
      (ps : PreparedDevices) × ((get pod claim.uid s.pods ≡ some ps)
        × (plugin_devices ps ≡ some devices))

  pub after_put-pods :
      (claim : ResourceClaim) (ps : PreparedDevices) (devices : List KubeletPluginDevice)
      (r : Result (Unit {0})) (s : Driver W D)
      → (after_put checkpoints state claim ps devices r s).1.pods ≡ s.pods
  after_put-pods claim ps devices (ok _) s = refl
  after_put-pods claim ps devices (err e) s = refl
  after_put-pods claim ps devices panic s = refl

  after_put-ok :
      (claim : ResourceClaim) (ps : PreparedDevices) (given devices : List KubeletPluginDevice)
      (r : Result (Unit {0})) (s : Driver W D)
      → (after_put checkpoints state claim ps given r s).0 ≡ ok devices
      → given ≡ devices
  after_put-ok claim ps given devices (ok _) s h = ground arith
  after_put-ok claim ps given devices (err e) s h = ground arith
  after_put-ok claim ps given devices panic s h = ground arith

  get-record_devices :
      (pod : String) (claim : ResourceClaim) (ps : PreparedDevices)
      (devices : List KubeletPluginDevice) (s : Driver W D)
      → get pod claim.uid (record_devices checkpoints state pod claim ps (some devices) s).1.pods
        ≡ some ps
  get-record_devices pod claim ps devices s =
      let stored = put checkpoints pod claim.uid ps s.pods in
      ap (get pod claim.uid)
        (after_put-pods claim ps devices stored.0 (record s { pods = stored.1 }))
      ∙ ground (
        arith,
        get-put checkpoints pod claim.uid ps s.pods pod claim.uid,
        ==_refl pod,
        ==_refl claim.uid,
      )

  record_devices-stores :
      (pod : String) (claim : ResourceClaim) (ps : PreparedDevices)
      (o : Option (List KubeletPluginDevice)) (s : Driver W D) (devices : List KubeletPluginDevice)
      → plugin_devices ps ≡ o
      → (record_devices checkpoints state pod claim ps o s).0 ≡ ok devices
      → StoresFor pod claim devices (record_devices checkpoints state pod claim ps o s).1
  record_devices-stores pod claim ps none s devices e h = ground arith
  record_devices-stores pod claim ps (some given) s devices e h =
      let stored = put checkpoints pod claim.uid ps s.pods in
      (
        ps,
        (
          get-record_devices pod claim ps given s,
          e
              ∙ ap some
                  (after_put-ok claim ps given devices stored.0 (record s { pods = stored.1 }) h),
        ),
      )

  prepare_fresh-stores :
      (pod : String) (r : Result PreparedDevices) (claim : ResourceClaim) (s : Driver W D)
      (devices : List KubeletPluginDevice)
      → (prepare_fresh checkpoints state pod r (claim, s)).0 ≡ ok devices
      → StoresFor pod claim devices (prepare_fresh checkpoints state pod r (claim, s)).1
  prepare_fresh-stores pod (ok ps) claim s devices h =
      record_devices-stores pod claim ps (plugin_devices ps) s devices refl h
  prepare_fresh-stores pod (err e) claim s devices h = ground arith
  prepare_fresh-stores pod panic claim s devices h = ground arith

  answer-ok :
      (o : Option (List KubeletPluginDevice)) (devices : List KubeletPluginDevice)
      → answer checkpoints state o ≡ ok devices
      → o ≡ some devices
  answer-ok none devices h = ground arith
  answer-ok (some given) devices h = ground arith

  pub prepare_or_reuse-stores :
      (pod : String) (claim : ResourceClaim) (o : Option PreparedDevices) (s : Driver W D)
      (devices : List KubeletPluginDevice)
      → get pod claim.uid s.pods ≡ o
      → (prepare_or_reuse checkpoints state pod claim o s).0 ≡ ok devices
      → StoresFor pod claim devices (prepare_or_reuse checkpoints state pod claim o s).1
  prepare_or_reuse-stores pod claim (some ps) s devices e h =
      (ps, (e, answer-ok (plugin_devices ps) devices h))
  prepare_or_reuse-stores pod claim none s devices e h =
      let run = run_prepare checkpoints state claim s in
      prepare_fresh-stores pod run.0 run.1.0 run.1.1 devices h

  reuses :
      (pod : String) (claim : ResourceClaim) (s : Driver W D) (devices : List KubeletPluginDevice)
      → StoresFor pod claim devices s
      → prepare_or_reuse checkpoints state pod claim (get pod claim.uid s.pods) s ≡ (ok devices, s)
  reuses pod claim s devices (ps, (g, e)) =
      ap (λ o. prepare_or_reuse checkpoints state pod claim o s) g
      ∙ ap (λ o. (answer checkpoints state o, s)) e

  allocated-again :
      (pod : String) (claim : ResourceClaim) (o : Option Allocation) (s : Driver W D)
      (devices : List KubeletPluginDevice)
      → (prepare_allocated checkpoints state pod claim o s).0 ≡ ok devices
      → prepare_allocated checkpoints state pod claim o
          (prepare_allocated checkpoints state pod claim o s).1
        ≡ (ok devices, (prepare_allocated checkpoints state pod claim o s).1)
  allocated-again pod claim none s devices h = ground arith
  allocated-again pod claim (some allocation) s devices h =
      let first = prepare_or_reuse checkpoints state pod claim (get pod claim.uid s.pods) s in
      reuses pod claim first.1 devices
        (prepare_or_reuse-stores pod claim (get pod claim.uid s.pods) s devices refl h)

  prepare_for_pods-again :
      (pods : List String) (claim : ResourceClaim) (s : Driver W D)
      (devices : List KubeletPluginDevice)
      → (prepare_for_pods checkpoints state pods claim s).0 ≡ ok devices
      → prepare_for_pods checkpoints state pods claim
          (prepare_for_pods checkpoints state pods claim s).1
        ≡ (ok devices, (prepare_for_pods checkpoints state pods claim s).1)
  prepare_for_pods-again [] claim s devices h = ground arith
  prepare_for_pods-again (a ∷ b ∷ pods) claim s devices h = ground arith
  prepare_for_pods-again (pod ∷ []) claim s devices h =
      allocated-again pod claim claim.allocation s devices h

  -- A claim that was prepared is not prepared again: the second call answers with the same devices
  -- and changes nothing.
  pub prepare_resource_claim-again :
      (claim : ResourceClaim) (s : Driver W D) (devices : List KubeletPluginDevice)
      → (prepare_resource_claim checkpoints state claim s).0 ≡ ok devices
      → prepare_resource_claim checkpoints state claim
          (prepare_resource_claim checkpoints state claim s).1
        ≡ (ok devices, (prepare_resource_claim checkpoints state claim s).1)
  unfolding prepare_resource_claim
  prepare_resource_claim-again claim s devices h =
      prepare_for_pods-again claim.reserved_for claim s devices h

  second-reuses :
      (pod : String) (claim : ResourceClaim) (allocation : Allocation) (s : Driver W D)
      (devices : List KubeletPluginDevice)
      → claim.reserved_for ≡ pod ∷ []
      → claim.allocation ≡ some allocation
      → StoresFor pod claim devices s
      → prepare_resource_claim checkpoints state claim s ≡ (ok devices, s)
  unfolding prepare_resource_claim
  second-reuses pod claim allocation s devices r a stored =
      ap (λ pods. prepare_for_pods checkpoints state pods claim s) r
      ∙ (ap (λ o. prepare_allocated checkpoints state pod claim o s) a
          ∙ reuses pod claim s devices stored)

  abbrev pub starting : ResourceClaim → Driver W D → W × Progress
  starting claim s = (
    s.world,
    record {
      if_name_index = s.if_name_index;
      next_address = s.next_address;
      devices = claim.devices;
    },
  )

  -- The state after a preparation that could not be stored and was undone.
  abbrev pub undone : Driver W D → W → PodManager D → Progress → Driver W D
  undone s unprepared pods' progress = record {
    world = unprepared;
    pods = pods';
    if_name_index = progress.if_name_index;
    next_address = progress.next_address;
  }

  -- When the devices were prepared but could not be stored, the call undoes the preparation and
  -- reports the error; but the next call for the claim reports those devices as prepared, and
  -- prepares nothing.
  pub prepare_resource_claim-after_failed_put :
      (pod : String) (claim : ResourceClaim) (allocation : Allocation) (s : Driver W D)
      (ps : PreparedDevices) (devices : List KubeletPluginDevice) (w unprepared : W)
      (progress : Progress) (e : Error) (pods' : PodManager D)
      → claim.reserved_for ≡ pod ∷ []
      → claim.allocation ≡ some allocation
      → get pod claim.uid s.pods ≡ none
      → state.prepare_devices_for_claim claim (starting claim s) ≡ (ok ps, (w, progress))
      → plugin_devices ps ≡ some devices
      → put checkpoints pod claim.uid ps s.pods ≡ (err e, pods')
      → state.unprepare claim.uid ps w ≡ (ok tt, unprepared)
      → (prepare_resource_claim checkpoints state claim s ≡ (
        err (wrap "error setting prepared devices for pod %s into pod manager: %w" e),
        undone s unprepared pods' progress,
      ))
        × (prepare_resource_claim checkpoints state claim (undone s unprepared pods' progress)
            ≡ (ok devices, undone s unprepared pods' progress))
  unfolding prepare_resource_claim
  prepare_resource_claim-after_failed_put pod claim allocation s ps devices w unprepared progress e
        pods' r a g run d p u =
      (
        ground (arith, r, a, g, run, d, p, u),
        second-reuses pod claim allocation (undone s unprepared pods' progress) devices r a (
          ps,
          (
            ap (λ (q : Result (Unit {0}) × PodManager D). get pod claim.uid q.1) (sym p)
                ∙ ground (
                  arith,
                  get-put checkpoints pod claim.uid ps s.pods pod claim.uid,
                  ==_refl pod,
                  ==_refl claim.uid,
                ),
            d,
          ),
        ),
      )

  unprepared-forgets :
      (pod : String) (a b : NamespacedObject) (s : Driver W D) (ps : PreparedDevices)
      → get_by_claim a s.pods ≡ some ps
      → pod_to_delete a.uid s.pods.prepared_claims_by_pod_uid ≡ some pod
      → IsOnlyIn pod b.uid s.pods.prepared_claims_by_pod_uid
      → (unprepare_resource_claim checkpoints state a s).0 ≡ ok tt
      → get_by_claim b (unprepare_resource_claim checkpoints state a s).1.pods ≡ none
  unfolding unprepare_resource_claim get_by_claim delete_claim sync_to_checkpoint
  unprepared-forgets pod a b s ps stored picked only h =
      ground (
        arith,
        stored,
        picked,
        find_claim-delete pod b.uid s.pods.prepared_claims_by_pod_uid only,
        h,
      )

  -- When unpreparing a claim succeeds, every other claim of the same pod is forgotten too: where no
  -- other pod has that claim, unpreparing it does nothing and reports success.
  pub unprepare_resource_claim-forgets :
      (pod : String) (a b : NamespacedObject) (s : Driver W D) (ps : PreparedDevices)
      → get_by_claim a s.pods ≡ some ps
      → pod_to_delete a.uid s.pods.prepared_claims_by_pod_uid ≡ some pod
      → IsOnlyIn pod b.uid s.pods.prepared_claims_by_pod_uid
      → (unprepare_resource_claim checkpoints state a s).0 ≡ ok tt
      → unprepare_resource_claim checkpoints state b
          (unprepare_resource_claim checkpoints state a s).1
        ≡ (ok tt, (unprepare_resource_claim checkpoints state a s).1)
  unfolding unprepare_resource_claim get_by_claim delete_claim sync_to_checkpoint
  unprepare_resource_claim-forgets pod a b s ps stored picked only h =
      let s' = (unprepare_resource_claim checkpoints state a s).1 in
      ap (λ o. unprepare_stored checkpoints state b o s')
        (unprepared-forgets pod a b s ps stored picked only h)
