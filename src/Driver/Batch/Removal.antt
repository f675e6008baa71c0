-- ===== src/Driver/Batch/Removal.antt =====
-- What UnprepareResourceClaims leaves of the claims (pkg/driver/dra_hook.go).
mod Tests
use k8snetworkplumbingwg_dra.Common.{
  String, Option, none, some, Bool, true, false, List, [], ◌∷◌, if◌then◌else◌, ◌==◌, ==_refl,
  eq_string, Map, lookup, insert, delete, keys, is_some, contains, if_intro, lookup-insert,
  lookup-delete, Bool-cases, Option-cases, inl, inr, Result, ok, err, panic, Error, wrap, Action,
  attempt, map_err, ◌>>◌, and_then, ◌≡◌, refl, ◌∙◌, sym, ap, subst, arith,
}
use k8snetworkplumbingwg_dra.Kube.{NamespacedObject}
use k8snetworkplumbingwg_dra.Types.Prepared.{
  PreparedDevices, PreparedDevicesByClaimId, PreparedClaimsByPodUid,
}
use k8snetworkplumbingwg_dra.PodManager.Store.{
  CheckpointManager, PodManager, get, find_claim, get_by_claim, pod_to_delete, delete_claim,
  delete_found, sync_to_checkpoint,
}
use k8snetworkplumbingwg_dra.PodManager.Keys.{IsInOnePod, get-delete_claim, delete_claim-removes}
use k8snetworkplumbingwg_dra.DeviceState.Advertise.Values.{Distinct}
use k8snetworkplumbingwg_dra.Common.Yields.{OnOk, Yields, yields-bind, yields-attempt}
use k8snetworkplumbingwg_dra.Driver.Hook.{
  Driver, DeviceState, unprepare_resource_claim, unprepare_stored, on_world, on_pods,
}
use k8snetworkplumbingwg_dra.Driver.Requests.{unprepare_each, unprepare_resource_claims}

contains-delete :
    (wanted pod : String) (pods : PreparedClaimsByPodUid)
    → contains (keys pods) wanted ≡ false
    → contains (keys (delete pod pods)) wanted ≡ false
unfolding delete
contains-delete wanted pod [] h = h
contains-delete wanted pod ((own, claims) ∷ pods) h =
    ground (arith, h, contains-delete wanted pod pods)

delete-Distinct :
    (pod : String) (pods : PreparedClaimsByPodUid)
    → Distinct (keys pods)
    → Distinct (keys (delete pod pods))
unfolding delete
delete-Distinct pod [] d = tt
delete-Distinct pod ((own, claims) ∷ pods) d =
    if_intro (λ (m : PreparedClaimsByPodUid). Distinct (keys m)) (own == pod)
      (λ _. delete-Distinct pod pods d.1)
      (λ _. (contains-delete own pod pods d.0, delete-Distinct pod pods d.1))

find_claim-none :
    (uid : String) (pods : PreparedClaimsByPodUid) (pod : String)
    → find_claim uid pods ≡ none
    → elim (lookup pod pods) [ some claims ↦ lookup uid claims | none ↦ none ] ≡ none
unfolding find_claim lookup
find_claim-none uid [] pod h = refl
find_claim-none uid ((own, claims) ∷ pods) pod h = ground (arith, h, find_claim-none uid pods pod)

module _ {D : Type 0} (checkpoints : CheckpointManager D) (uid : String) where
  -- The pods are the keys of a map, and at most one has the claim.
  abbrev pub Fits : PodManager D → Type 0
  Fits m =
      Distinct (keys m.prepared_claims_by_pod_uid) × IsInOnePod uid m.prepared_claims_by_pod_uid

  abbrev pub IsGone : PodManager D → Type 0
  IsGone m = (p : String) → get p uid m ≡ none

  delete_found-Fits :
      (o : Option String) (m : PodManager D) → Fits m → Fits (delete_found checkpoints o m).1
  unfolding sync_to_checkpoint
  delete_found-Fits none m h = h
  delete_found-Fits (some pod) m (d, one) = (
    delete-Distinct pod m.prepared_claims_by_pod_uid d,
    λ p q hp hq.
        one p q (ground (arith, hp, lookup-delete pod p m.prepared_claims_by_pod_uid))
          (ground (arith, hq, lookup-delete pod q m.prepared_claims_by_pod_uid)),
  )

  delete_found-IsGone :
      (o : Option String) (m : PodManager D) → IsGone m → IsGone (delete_found checkpoints o m).1
  unfolding sync_to_checkpoint get
  delete_found-IsGone none m h p = h p
  delete_found-IsGone (some pod) m h p =
      ground (arith, h p, lookup-delete pod p m.prepared_claims_by_pod_uid)

module _ {W D : Type 0} (checkpoints : CheckpointManager D) (state : DeviceState W)
    (uid : String) where
  -- What an unpreparation leaves of the claim `uid`.
  abbrev Leaves : NamespacedObject → PodManager D → Result (Unit {0}) × Driver W D → Type 0
  Leaves claim m (r, s) =
      Fits checkpoints uid s.pods
      × ((IsGone checkpoints uid m → IsGone checkpoints uid s.pods)
          × (r ≡ ok tt → (claim.uid == uid) ≡ true → IsGone checkpoints uid s.pods))

  delete_claim-Leaves :
      (claim : NamespacedObject) (s : Driver W D)
      → Fits checkpoints uid s.pods
      → Leaves claim s.pods (
          map_err
            (wrap "error deleting claim %s from pod manager: %w")
            (on_pods checkpoints state (delete_claim checkpoints claim))
            s)
  unfolding delete_claim
  delete_claim-Leaves claim s fits =
      let o = pod_to_delete claim.uid s.pods.prepared_claims_by_pod_uid in
      (
        delete_found-Fits checkpoints uid o s.pods fits,
        (
          delete_found-IsGone checkpoints uid o s.pods,
          λ _ own.
              let same : claim.uid ≡ uid = ground (arith, own, eq_string.beq_iff claim.uid uid) in
              subst (λ u. (p : String) → get p u (delete_claim checkpoints claim s.pods).1 ≡ none)
                same
                (delete_claim-removes checkpoints claim s.pods fits.0
                  (subst (λ u. IsInOnePod u s.pods.prepared_claims_by_pod_uid) (sym same) fits.1)),
        ),
      )

  and_then-Leaves :
      (claim : NamespacedObject) (r : Result (Unit {0})) (s : Driver W D)
      → Fits checkpoints uid s.pods
      → Leaves claim s.pods (
          and_then
            (elim r [
              | err e ↦ err (wrap "error unpreparing devices for claim %v: %w" e)
              | other ↦ other
            ])
            (λ _.
              map_err
                (wrap "error deleting claim %s from pod manager: %w")
                (on_pods checkpoints state (delete_claim checkpoints claim)))
            s)
  and_then-Leaves claim (ok _) s fits = delete_claim-Leaves claim s fits
  and_then-Leaves claim (err e) s fits = (fits, ((λ h. h), λ h _. absurd (ground (arith, h))))
  and_then-Leaves claim panic s fits = (fits, ((λ h. h), λ h _. absurd (ground (arith, h))))

  unprepare_stored-Leaves :
      (claim : NamespacedObject) (o : Option PreparedDevices) (s : Driver W D)
      → get_by_claim claim s.pods ≡ o
      → Fits checkpoints uid s.pods
      → Leaves claim s.pods (unprepare_stored checkpoints state claim o s)
  unfolding get_by_claim get
  unprepare_stored-Leaves claim none s e fits = (
    fits,
    (
      (λ h. h),
      λ _ own p.
          subst (λ u. find_claim u s.pods.prepared_claims_by_pod_uid ≡ none → get p u s.pods ≡ none)
            (ground (arith, own, eq_string.beq_iff claim.uid uid))
            (find_claim-none claim.uid s.pods.prepared_claims_by_pod_uid p)
            (subst (λ u. find_claim u s.pods.prepared_claims_by_pod_uid ≡ none)
              (ground (arith, own, eq_string.beq_iff claim.uid uid)) e),
    ),
  )
  unprepare_stored-Leaves claim (some ps) s e fits =
      let (r, t) = on_world checkpoints state (state.unprepare claim.uid ps) s in
      and_then-Leaves claim r t fits

  -- The claim is gone where the results say so.
  abbrev Reported : Map String (Result (Unit {0})) → Driver W D → Type 0
  Reported result s =
      Fits checkpoints uid s.pods
      × (lookup uid result ≡ some (ok tt) → IsGone checkpoints uid s.pods)

  insert-Reported :
      (claim : NamespacedObject) (s t : Driver W D) (r : Result (Unit {0}))
      (result : Map String (Result (Unit {0})))
      → Leaves claim s.pods (r, t)
      → Reported result s
      → Reported (insert claim.uid r result) t
  insert-Reported claim s t r result (fits, (stays, goes)) (_, gone) = (
    fits,
    λ h. elim (Bool-cases (claim.uid == uid)) [
      | inl own ↦ goes (ground (arith, own, h, lookup-insert claim.uid uid r result)) own
      | inr other ↦ stays (gone (ground (arith, other, h, lookup-insert claim.uid uid r result)))
    ],
  )

  unprepare_each-Reported :
      (claims : List NamespacedObject) (result : Map String (Result (Unit {0}))) (s : Driver W D)
      → Reported result s
      → Yields (unprepare_each checkpoints state claims result) s Reported
  unfolding unprepare_each unprepare_resource_claim
  unprepare_each-Reported [] result s h = h
  unprepare_each-Reported (claim ∷ claims) result s h =
      let run = unprepare_resource_claim checkpoints state claim in
      let next = λ (r : Result (Unit {0})).
        unprepare_each checkpoints state claims (insert claim.uid r result) in
      yields-bind next Reported (attempt run) s (
        yields-attempt (λ r t. Yields (next r) t Reported) run s
          (λ r e. unprepare_each-Reported claims (insert claim.uid r result) (run s).1 (
            insert-Reported claim s (run s).1 r result
              (subst (λ x. Leaves claim s.pods (x, (run s).1)) e
                (unprepare_stored-Leaves claim (get_by_claim claim s.pods) s refl h.0))
              h)))

  -- No pod holds a claim that UnprepareResourceClaims reports as unprepared, where at most one pod held
  -- it before, whatever happened to the other claims of the call.
  pub unprepare_resource_claims-removes :
      (claims : List NamespacedObject) (s : Driver W D) (result : Map String (Result (Unit {0})))
      → Distinct (keys s.pods.prepared_claims_by_pod_uid)
      → IsInOnePod uid s.pods.prepared_claims_by_pod_uid
      → (unprepare_resource_claims checkpoints state claims s).0 ≡ ok result
      → lookup uid result ≡ some (ok tt)
      → (pod : String)
      → get pod uid (unprepare_resource_claims checkpoints state claims s).1.pods ≡ none
  unfolding unprepare_resource_claims lookup
  unprepare_resource_claims-removes claims s result d one e h =
      let before : Reported [] s = ((d, one), λ no_result. absurd (ground (arith, no_result))) in
      (subst
          (λ x. OnOk x (λ a. Reported a (unprepare_resource_claims checkpoints state claims s).1)) e
          (unprepare_each-Reported claims [] s before)).1
        h
