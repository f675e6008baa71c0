-- ===== src/Driver/Batch.antt =====
-- What PrepareResourceClaims reports, and what is stored (pkg/driver/dra_hook.go).
pub mod Removal
mod Tests
use k8snetworkplumbingwg_dra.Common.{
  String, Option, none, some, Bool, true, false, List, [], ◌∷◌, if◌then◌else◌, ◌==◌, ◌&&◌, ==_refl,
  eq_string, Map, lookup, insert, lookup-insert, Bool-cases, if_intro, inl, inr, Result, ok, err,
  panic, Error, Action, ◌>>=◌, attempt, pure, throw, ◌≡◌, refl, ◌∙◌, sym, ap, subst, arith,
}
use k8snetworkplumbingwg_dra.Kube.{ResourceClaim, Allocation}
use k8snetworkplumbingwg_dra.Types.Prepared.{PreparedDevices, KubeletPluginDevice}
use k8snetworkplumbingwg_dra.PodManager.Store.{
  CheckpointManager, PodManager, get, put, get_devices_by_pod_uid,
}
use k8snetworkplumbingwg_dra.PodManager.Keys.{get-put}
use k8snetworkplumbingwg_dra.Common.Yields.{
  yields-attempt, OnOk, Yields, yields-bind, yields-after, on_ok-map,
}
use k8snetworkplumbingwg_dra.Driver.Hook.{
  Driver, DeviceState, plugin_devices, prepare_resource_claim, prepare_for_pods, prepare_or_reuse,
  prepare_fresh, record_devices, prepare_allocated, after_put, run_prepare, on_world,
}
use k8snetworkplumbingwg_dra.Driver.Requests.{
  prepare_each, prepare_resource_claims, rollback_prepared_claims, fail_after_rollback, after_spec,
  write_pod_spec, finish_devices, finish_pod, first_pod_uid, pci_addresses,
}
use k8snetworkplumbingwg_dra.Driver.Again.{StoresFor, after_put-pods, prepare_or_reuse-stores}

-- Some pod has the claim, with devices that are reported as these.
abbrev Stored : {D : Type 0} → String → List KubeletPluginDevice → PodManager D → Type 0
Stored uid devices pods =
    (pod : String) × ((ps : PreparedDevices) × ((get pod uid pods ≡ some ps)
        × (plugin_devices ps ≡ some devices)))

abbrev IsRecorded :
    {D : Type 0} → Map String (Result (List KubeletPluginDevice)) → PodManager D → Type 0
IsRecorded result pods =
    (uid : String) (devices : List KubeletPluginDevice)
    → lookup uid result ≡ some (ok devices)
    → Stored uid devices pods

module _ {W D : Type 0} (checkpoints : CheckpointManager D) (state : DeviceState W) where
  -- Only the claim's own entry changes.
  abbrev KeepsOthers : ResourceClaim → PodManager D → PodManager D → Type 0
  KeepsOthers claim before after =
      (p c : String) → (claim.uid == c) ≡ false → get p c after ≡ get p c before

  record_devices-KeepsOthers :
      (pod : String) (claim : ResourceClaim) (ps : PreparedDevices)
      (o : Option (List KubeletPluginDevice)) (s : Driver W D)
      → KeepsOthers claim s.pods (record_devices checkpoints state pod claim ps o s).1.pods
  record_devices-KeepsOthers pod claim ps none s p c differs = refl
  record_devices-KeepsOthers pod claim ps (some devices) s p c differs =
      let stored = put checkpoints pod claim.uid ps s.pods in
      ap (get p c)
        (after_put-pods checkpoints state claim ps devices stored.0 (record s { pods = stored.1 }))
      ∙ ground (arith, get-put checkpoints pod claim.uid ps s.pods p c, differs)

  prepare_fresh-KeepsOthers :
      (pod : String) (r : Result PreparedDevices) (claim : ResourceClaim) (s : Driver W D)
      → KeepsOthers claim s.pods (prepare_fresh checkpoints state pod r (claim, s)).1.pods
  prepare_fresh-KeepsOthers pod (ok ps) claim s p c differs =
      record_devices-KeepsOthers pod claim ps (plugin_devices ps) s p c differs
  prepare_fresh-KeepsOthers pod (err e) claim s p c differs = refl
  prepare_fresh-KeepsOthers pod panic claim s p c differs = refl

  prepare_or_reuse-KeepsOthers :
      (pod : String) (claim : ResourceClaim) (o : Option PreparedDevices) (s : Driver W D)
      → KeepsOthers claim s.pods (prepare_or_reuse checkpoints state pod claim o s).1.pods
  prepare_or_reuse-KeepsOthers pod claim (some ps) s p c differs = refl
  prepare_or_reuse-KeepsOthers pod claim none s p c differs =
      let run = run_prepare checkpoints state claim s in
      prepare_fresh-KeepsOthers pod run.0 run.1.0 run.1.1 p c differs

  -- What a preparation of one claim leaves.
  abbrev Leaves :
      ResourceClaim → Driver W D → Result (List KubeletPluginDevice) × Driver W D → Type 0
  Leaves claim s (r, s') =
      KeepsOthers claim s.pods s'.pods
      × ((devices : List KubeletPluginDevice) → r ≡ ok devices → Stored claim.uid devices s'.pods)

  allocated-Leaves :
      (pod : String) (claim : ResourceClaim) (o : Option Allocation) (s : Driver W D)
      → Leaves claim s (prepare_allocated checkpoints state pod claim o s)
  allocated-Leaves pod claim none s =
      ((λ p c differs. refl), λ devices h. absurd (ground (arith, h)))
  allocated-Leaves pod claim (some allocation) s = (
    prepare_or_reuse-KeepsOthers pod claim (get pod claim.uid s.pods) s,
    λ devices h. (
      pod,
      prepare_or_reuse-stores checkpoints state pod claim (get pod claim.uid s.pods) s devices refl
          h,
    ),
  )

  prepare-Leaves :
      (pods : List String) (claim : ResourceClaim) (s : Driver W D)
      → Leaves claim s (prepare_for_pods checkpoints state pods claim s)
  prepare-Leaves [] claim s = ((λ p c differs. refl), λ devices h. absurd (ground (arith, h)))
  prepare-Leaves (a ∷ b ∷ pods) claim s =
      ((λ p c differs. refl), λ devices h. absurd (ground (arith, h)))
  prepare-Leaves (pod ∷ []) claim s = allocated-Leaves pod claim claim.allocation s

  insert-IsRecorded :
      (claim : ResourceClaim) (s s' : Driver W D) (r : Result (List KubeletPluginDevice))
      (result : Map String (Result (List KubeletPluginDevice)))
      → Leaves claim s (r, s')
      → IsRecorded result s.pods
      → IsRecorded (insert claim.uid r result) s'.pods
  insert-IsRecorded claim s s' r result (others, stored) recorded uid devices h =
      elim (Bool-cases (claim.uid == uid)) [
        | inl own ↦
            subst (λ u. Stored u devices s'.pods)
              (ground (arith, own, eq_string.beq_iff claim.uid uid))
              (stored devices (ground (arith, own, h, lookup-insert claim.uid uid r result)))
        | inr other ↦
            let (pod, (ps, (g, e))) =
              recorded uid devices
                (ground (arith, other, h, lookup-insert claim.uid uid r result)) in
            (pod, (ps, (others pod uid other ∙ g, e)))
      ]

  abbrev Recorded : Map String (Result (List KubeletPluginDevice)) → Driver W D → Type 0
  Recorded result s = IsRecorded result s.pods

  prepare_each-Recorded :
      (claims : List ResourceClaim) (result : Map String (Result (List KubeletPluginDevice)))
      (s : Driver W D)
      → IsRecorded result s.pods
      → Yields (prepare_each checkpoints state claims result) s Recorded
  unfolding prepare_each prepare_resource_claim
  prepare_each-Recorded [] result s h = h
  prepare_each-Recorded (claim ∷ claims) result s h =
      let run = prepare_resource_claim checkpoints state claim in
      yields-bind (λ r. prepare_each checkpoints state claims (insert claim.uid r result)) Recorded
        (attempt run) s
        (yields-attempt
          (λ r t.
            Yields (prepare_each checkpoints state claims (insert claim.uid r result)) t Recorded)
          run s
          (λ r e. prepare_each-Recorded claims (insert claim.uid r result) (run s).1 (
            insert-IsRecorded claim s (run s).1 r result
              (subst (λ x. Leaves claim s (x, (run s).1)) e
                (prepare-Leaves claim.reserved_for claim s))
              h)))

  -- The second part of PrepareResourceClaims returns nothing but an error when it has rolled back.
  abbrev SamePods : Driver W D → Unit {0} → Driver W D → Type 0
  SamePods s _ t = t.pods ≡ s.pods

  fail_after_rollback-yields :
      (claims : List ResourceClaim) (text : String) (base : Error) (s : Driver W D)
      (Q : Unit {0} → Driver W D → Type 0)
      → Yields (fail_after_rollback checkpoints state claims text base) s Q
  fail_after_rollback-yields claims text base s Q =
      yields-after (λ r. throw _) Q (attempt (rollback_prepared_claims checkpoints state claims)) s
        (λ r t. tt)

  after_spec-SamePods :
      (claims : List ResourceClaim) (r : Result (Unit {0})) (s t : Driver W D)
      → t.pods ≡ s.pods
      → Yields (after_spec checkpoints state claims r) t (SamePods s)
  after_spec-SamePods claims (ok _) s t h = h
  after_spec-SamePods claims panic s t h = tt
  after_spec-SamePods claims (err e) s t h = fail_after_rollback-yields claims _ _ t (SamePods s)

  write_pod_spec-SamePods :
      (claims : List ResourceClaim) (pod : String) (r : Result (List String)) (s : Driver W D)
      → Yields (write_pod_spec checkpoints state claims pod r) s (SamePods s)
  write_pod_spec-SamePods claims pod panic s = tt
  write_pod_spec-SamePods claims pod (err e) s =
      fail_after_rollback-yields claims _ _ s (SamePods s)
  write_pod_spec-SamePods claims pod (ok addresses) s =
      let written = on_world checkpoints state (state.create_global_pod_spec_file pod addresses) in
      yields-bind (after_spec checkpoints state claims) (SamePods s) (attempt written) s (
        yields-attempt (λ r t. Yields (after_spec checkpoints state claims r) t (SamePods s))
          written s (λ r e. after_spec-SamePods claims r s (written s).1 refl))

  finish_devices-SamePods :
      (claims : List ResourceClaim) (pod : String) (o : Option PreparedDevices) (s : Driver W D)
      → Yields (finish_devices checkpoints state claims pod o) s (SamePods s)
  finish_devices-SamePods claims pod none s = tt
  finish_devices-SamePods claims pod (some ps) s =
      write_pod_spec-SamePods claims pod (pci_addresses checkpoints state ps) s

  finish_pod-SamePods :
      (claims : List ResourceClaim) (pod : String) (s : Driver W D)
      → Yields (finish_pod checkpoints state claims pod) s (SamePods s)
  finish_pod-SamePods claims pod s =
      if_intro (λ (x : Result (Unit {0}) × Driver W D). OnOk x.0 (λ a. SamePods s a x.1))
        (pod == "") (λ _. tt)
        (λ _. finish_devices-SamePods claims pod (get_devices_by_pod_uid pod s.pods) s)

  -- Nothing is claimed of the results when the call as a whole fails.
  abbrev RecordedUnlessFailed :
      Map String (Result (List KubeletPluginDevice)) × Result (Unit {0}) → Driver W D → Type 0
  RecordedUnlessFailed (result, whole) s = whole ≡ ok tt → Recorded result s

  finished :
      (claims : List ResourceClaim) (pod : String)
      (result : Map String (Result (List KubeletPluginDevice))) (s : Driver W D)
      → Recorded result s
      → Yields
          (attempt (finish_pod checkpoints state claims pod) >>= λ r. pure (result, r))
          s
          RecordedUnlessFailed
  finished claims pod result s h =
      let finish = finish_pod checkpoints state claims pod in
      yields-bind (λ r. pure (result, r)) RecordedUnlessFailed (attempt finish) s
        (yields-attempt (λ r t. RecordedUnlessFailed (result, r) t) finish s
          (λ r e whole.
            subst (IsRecorded result)
              (sym (
                subst (λ x. OnOk x (λ a. SamePods s a (finish s).1)) (e ∙ whole)
                  (finish_pod-SamePods claims pod s)))
              h))

  batch-Recorded :
      (claims : List ResourceClaim) (s : Driver W D)
      → Yields (prepare_resource_claims checkpoints state claims) s RecordedUnlessFailed
  unfolding prepare_resource_claims lookup
  batch-Recorded [] s = λ whole uid devices h. absurd (ground (arith, h))
  batch-Recorded (claim ∷ claims) s =
      let all = claim ∷ claims in
      let t = record s { if_name_index = 0 } in
      yields-bind _ RecordedUnlessFailed (prepare_each checkpoints state all []) t (
        on_ok-map (λ result. Recorded result (prepare_each checkpoints state all [] t).1) _
          (prepare_each checkpoints state all [] t).0
          (λ result h.
            finished all (first_pod_uid all) result (prepare_each checkpoints state all [] t).1 h)
          (prepare_each-Recorded all [] t (λ uid devices h. absurd (ground (arith, h)))))

  -- When PrepareResourceClaims reports no error of the whole call, every claim that it reports as
  -- prepared is stored under some pod, with exactly the devices that it reports for the claim.
  pub prepare_resource_claims-recorded :
      (claims : List ResourceClaim) (s : Driver W D)
      (result : Map String (Result (List KubeletPluginDevice))) (uid : String)
      (devices : List KubeletPluginDevice)
      → (prepare_resource_claims checkpoints state claims s).0 ≡ ok (result, ok tt)
      → lookup uid result ≡ some (ok devices)
      → (pod : String) × ((ps : PreparedDevices) × ((get pod uid
                (prepare_resource_claims checkpoints state claims s).1.pods
              ≡ some ps)
            × (plugin_devices ps ≡ some devices)))
  prepare_resource_claims-recorded claims s result uid devices e h =
      subst
        (λ x.
          OnOk x
            (λ a. RecordedUnlessFailed a (prepare_resource_claims checkpoints state claims s).1))
        e (batch-Recorded claims s) refl uid devices h
