-- ===== src/PodManager/Keys.antt =====
-- What the operations of the PodManager leave under each pod and claim
-- (pkg/podmanager/podmanager.go).
use k8snetworkplumbingwg_dra.Common.{
  String, Option, none, some, true, [], ◌∷◌, lookup, insert, lookup-cons, lookup-insert,
  lookup-delete, is_some, if◌then◌else◌, ◌==◌, ◌&&◌, eq_string, ◌≡◌, refl, arith, Option-cases, inl,
  inr, keys,
}
use k8snetworkplumbingwg_dra.Kube.{NamespacedObject}
use k8snetworkplumbingwg_dra.Types.Prepared.{
  PreparedDevices, PreparedDevicesByClaimId, PreparedClaimsByPodUid,
}
use k8snetworkplumbingwg_dra.PodManager.Store.{
  CheckpointManager, PodManager, get, pod_to_delete, sync_to_checkpoint, put, delete_pod,
  delete_claim, delete_found, or_empty,
}
use k8snetworkplumbingwg_dra.DeviceState.Advertise.Reserved.{lookup-nil, contains-keys}
use k8snetworkplumbingwg_dra.DeviceState.Advertise.Values.{Distinct}

abbrev get_in : String → String → PreparedClaimsByPodUid → Option PreparedDevices
get_in pod claim pods = elim (lookup pod pods) [ some claims ↦ lookup claim claims | none ↦ none ]

-- No pod but the first that has the claim has it too.
abbrev pub IsInOnePod : String → PreparedClaimsByPodUid → Type 0
IsInOnePod claim pods =
    (p q : String)
    → is_some (get_in p claim pods) ≡ true
    → is_some (get_in q claim pods) ≡ true
    → p ≡ q

module _ {D : Type 0} (checkpoints : CheckpointManager D) where
  -- After Set, whether or not the checkpoint was written, the pod's claim holds exactly the devices
  -- given, and every other pod and claim what it held before.
  pub get-put :
      (pod claim : String) (devices : PreparedDevices) (s : PodManager D) (p c : String)
      → get p c (put checkpoints pod claim devices s).1
        ≡ (if (pod == p) && (claim == c) then some devices else get p c s)
  unfolding get put sync_to_checkpoint
  get-put pod claim devices s p c = ground (
    arith,
    lookup-insert pod p (insert claim devices (or_empty (lookup pod s.prepared_claims_by_pod_uid)))
        s.prepared_claims_by_pod_uid,
    lookup-insert claim c devices (or_empty (lookup pod s.prepared_claims_by_pod_uid)),
    lookup-nil {V = PreparedDevices} c,
    eq_string.beq_iff pod p,
    eq_string.beq_iff claim c,
  )

  -- DeletePod removes every claim of its pod and nothing else.
  pub get-delete_pod :
      (pod : String) (s : PodManager D) (p c : String)
      → get p c (delete_pod checkpoints pod s).1 ≡ (if pod == p then none else get p c s)
  unfolding get delete_pod sync_to_checkpoint
  get-delete_pod pod s p c = ground (arith, lookup-delete pod p s.prepared_claims_by_pod_uid)

  abbrev without : Option String → String → Option PreparedDevices → Option PreparedDevices
  without none p o = o
  without (some pod) p o = if pod == p then none else o

  get-delete_found :
      (o : Option String) (s : PodManager D) (p c : String)
      → get p c (delete_found checkpoints o s).1 ≡ without o p (get p c s)
  unfolding get sync_to_checkpoint
  get-delete_found none s p c = refl
  get-delete_found (some pod) s p c =
      ground (arith, lookup-delete pod p s.prepared_claims_by_pod_uid)

  -- DeleteClaim removes everything of the pod that it picks, the pod's other claims included, and
  -- nothing else; it does nothing when no pod has the claim.
  pub get-delete_claim :
      (claim : NamespacedObject) (s : PodManager D) (p c : String)
      → get p c (delete_claim checkpoints claim s).1
        ≡ without (pod_to_delete claim.uid s.prepared_claims_by_pod_uid) p (get p c s)
  unfolding delete_claim
  get-delete_claim claim s p c =
      get-delete_found (pod_to_delete claim.uid s.prepared_claims_by_pod_uid) s p c

  -- The pod that the loop picks has the claim.
  pod_to_delete-has :
      (uid : String) (pods : PreparedClaimsByPodUid) (p : String)
      → Distinct (keys pods)
      → pod_to_delete uid pods ≡ some p
      → is_some (get_in p uid pods) ≡ true
  unfolding pod_to_delete
  pod_to_delete-has uid [] p d h = ground (arith)
  pod_to_delete-has uid ((q, claims) ∷ pods) p d h = ground (
    arith,
    lookup-cons p q claims pods,
    eq_string.beq_iff q p,
    contains-keys pods q,
    pod_to_delete-has uid pods p d.1,
    d.0,
  )

  pod_to_delete-none :
      (uid : String) (pods : PreparedClaimsByPodUid) (p : String)
      → pod_to_delete uid pods ≡ none
      → get_in p uid pods ≡ none
  unfolding pod_to_delete
  pod_to_delete-none uid [] p h = ground (arith, lookup-nil {V = PreparedDevicesByClaimId} p)
  pod_to_delete-none uid ((q, claims) ∷ pods) p h =
      ground (arith, lookup-cons p q claims pods, pod_to_delete-none uid pods p)

  -- After DeleteClaim no pod holds the claim, where at most one pod held it before: claims are not
  -- shared between pods.
  pub delete_claim-removes :
      (claim : NamespacedObject) (s : PodManager D)
      → Distinct (keys s.prepared_claims_by_pod_uid)
      → IsInOnePod claim.uid s.prepared_claims_by_pod_uid
      → (p : String) → get p claim.uid (delete_claim checkpoints claim s).1 ≡ none
  unfolding get
  delete_claim-removes claim s d one p =
      elim (Option-cases (pod_to_delete claim.uid s.prepared_claims_by_pod_uid)) [
        | inl h ↦ ground (
          arith,
          get-delete_claim claim s p claim.uid,
          pod_to_delete-none claim.uid s.prepared_claims_by_pod_uid p h,
          h,
        )
        | inr (q, h) ↦ ground (
          arith,
          get-delete_claim claim s p claim.uid,
          pod_to_delete-has claim.uid s.prepared_claims_by_pod_uid q d h,
          one p q,
          eq_string.beq_iff q p,
          h,
        )
      ]
