-- ===== src/Types/Retry/Requests.antt =====
-- The requests that UpdateClaimStatusWithRetry sends (pkg/types/statusretry.go).
use k8snetworkplumbingwg_dra.Common.{
  String, Bool, true, ◌≡◌, refl, ◌∙◌, ◌==◌, eq_string, eq→path, ℕ, Result, ok, err, panic, arith,
  inl, inr, none, some, Bool-cases, ap, if_intro,
}
use k8snetworkplumbingwg_dra.Kube.{ResourceClaim}
use k8snetworkplumbingwg_dra.Types.ClaimStatus.Key.{merge_device_statuses}
use k8snetworkplumbingwg_dra.Types.Retry.{
  StatusClient, RetryState, Backoff, IsBackoff, retry_attempt, after_get, after_update, surface,
  is_conflict, is_permanent_status_update_error, update_claim_status_with_retry,
}
use k8snetworkplumbingwg_dra.Types.Retry.Rules.{attempts_inv, attempts_done}

module _ {C : Type 0} (client : StatusClient C) (driver_name : String) (claim : ResourceClaim) where
  -- The claim with its status, or a claim that the API server returned, of the same UID, with the
  -- driver's entries of `claim` merged over its status.
  pub data IsRequest (c : ResourceClaim) : Type 0 where
    original : c ≡ claim → IsRequest c
    merged :
        (name : String) (cluster : C) (fresh : ResourceClaim)
        → (client.get name cluster).0 ≡ ok fresh
        → fresh.uid ≡ claim.uid
        → c
          ≡ record fresh { devices = merge_device_statuses fresh.devices claim.devices driver_name }
        → IsRequest c

  pub IsRequest-uid : (c : ResourceClaim) → IsRequest c → c.uid ≡ claim.uid
  IsRequest-uid c (original e) = ap (λ d. d.uid) e
  IsRequest-uid c (merged name cluster fresh got same e) = ap (λ d. d.uid) e ∙ same

  module _ (P : C → Type 0)
      (on_update : (c : ResourceClaim) (cluster : C)
        → IsRequest c
        → P cluster
        → P (client.update_status c cluster).1)
      (on_get : (name : String) (cluster : C) → P cluster → P (client.get name cluster).1) where
    abbrev Inv : RetryState C → Type 0
    Inv s = P s.cluster × IsRequest s.claim

    after_get-Inv :
        (fetched : Result ResourceClaim) (s : RetryState C)
        → Inv s
        → ((fresh : ResourceClaim)
            → fetched ≡ ok fresh
            → (fresh.uid == s.claim.uid) ≡ true
            → IsRequest (record fresh {
              devices = merge_device_statuses fresh.devices claim.devices driver_name;
            }))
        → Inv (after_get client driver_name claim.devices fetched s).1
    unfolding after_get
    after_get-Inv (err e) s h made =
        if_intro (λ (r : Result Bool × RetryState C). Inv r.1) (is_permanent_status_update_error e)
          (λ _. h) (λ _. h)
    after_get-Inv panic s h made = h
    after_get-Inv (ok fresh) s h made = elim (Bool-cases (fresh.uid == s.claim.uid)) [
      | inl same ↦ rw same (h.0, made fresh refl same)
      | inr other ↦ rw other h
    ]

    after_update-Inv :
        (updated : Result (Unit {0})) (s : RetryState C)
        → Inv s
        → Inv (after_update client driver_name claim.devices updated s).1
    unfolding after_update
    after_update-Inv (ok x) s h = h
    after_update-Inv panic s h = h
    after_update-Inv (err e) s h = elim (Bool-cases (is_conflict e)) [
      | inl again ↦ rw again (
          after_get-Inv (client.get s.claim.name s.cluster).0 _
            (on_get s.claim.name s.cluster h.0, h.1)
            λ fresh got same.
              merged s.claim.name s.cluster fresh got
                (eq→path fresh.uid s.claim.uid same ∙ IsRequest-uid s.claim h.1) refl)
      | inr other ↦ rw other (
          if_intro (λ (r : Result Bool × RetryState C). Inv r.1)
            (is_permanent_status_update_error e) (λ _. h) (λ _. h))
    ]

    retry_attempt-Inv :
        (s : RetryState C) → Inv s → Inv (retry_attempt client driver_name claim.devices s).1
    unfolding retry_attempt
    retry_attempt-Inv s h =
        let (updated, c) = client.update_status s.claim s.cluster in
        after_update-Inv updated (record s { cluster = c })
          (on_update s.claim s.cluster h.1 h.0, h.1)

    module _ (backoff : Backoff C) (steps : ℕ)
        (assumed : IsBackoff client driver_name backoff steps) (cluster : C) where
      abbrev start : RetryState C
      start = record { cluster = cluster; claim = claim; last_err = none }

      -- Whatever holds of the cluster at first, and is kept by every re-read and by every status
      -- update whose claim has the UID of the given one and carries either its status or this
      -- driver's entries merged over a status that the API server returned, holds at the end.
      pub update_claim_status_with_retry-requests :
          P cluster → P (update_claim_status_with_retry client driver_name backoff claim cluster).1
      unfolding update_claim_status_with_retry
      update_claim_status_with_retry-requests h =
          rw (assumed.runs claim.devices start)
            (attempts_inv (retry_attempt client driver_name claim.devices) Inv retry_attempt-Inv
              (assumed.made start) assumed.timeout start (h, original refl)).0

      module _ (Q : C → Type 0)
          (accepted : (c : ResourceClaim) (before : C)
            → IsRequest c
            → P before
            → (client.update_status c before).0 ≡ ok tt
            → Q (client.update_status c before).1) where
        after_get-not_done :
            (fetched : Result ResourceClaim) (s : RetryState C)
            → ¬ ((after_get client driver_name claim.devices fetched s).0 ≡ ok true)
        unfolding after_get
        after_get-not_done fetched s = ground arith

        after_update_done :
            (updated : Result (Unit {0})) (s : RetryState C)
            → (after_update client driver_name claim.devices updated s).0 ≡ ok true
            → (updated ≡ ok tt → Q s.cluster)
            → Q (after_update client driver_name claim.devices updated s).1.cluster
        unfolding after_update
        after_update_done (ok x) s e q = q refl
        after_update_done panic s e q = cc
        after_update_done (err d) s e q = elim (Bool-cases (is_conflict d)) [
          | inl again ↦
              let (fetched, c) = client.get s.claim.name s.cluster in
              absurd (
                after_get-not_done fetched (record s { cluster = c; last_err = some d })
                  (rw again at e))
          | inr other ↦ ground arith
        ]

        retry_attempt_done :
            (s : RetryState C)
            → Inv s
            → (retry_attempt client driver_name claim.devices s).0 ≡ ok true
            → Q (retry_attempt client driver_name claim.devices s).1.cluster
        unfolding retry_attempt
        retry_attempt_done s h e =
            let (updated, c) = client.update_status s.claim s.cluster in
            after_update_done updated (record s { cluster = c }) e
              (λ sent. accepted s.claim s.cluster h.1 h.0 sent)

        surface_ok :
            (r : Result (Unit {0})) (s : RetryState C)
            → surface client driver_name r s ≡ ok tt
            → r ≡ ok tt
        surface_ok (ok tt) s e = e
        surface_ok panic s e = cc
        surface_ok (err d) s e = ground arith

        -- No error is returned only after a status update was accepted: what every accepted
        -- update of a claim as above establishes holds at the end.
        pub update_claim_status_with_retry-accepted :
            P cluster
            → (update_claim_status_with_retry client driver_name backoff claim cluster).0 ≡ ok tt
            → Q (update_claim_status_with_retry client driver_name backoff claim cluster).1
        unfolding update_claim_status_with_retry
        update_claim_status_with_retry-accepted h e =
            let (r, s) = backoff (retry_attempt client driver_name claim.devices) start in
            rw (assumed.runs claim.devices start) (
              attempts_done (retry_attempt client driver_name claim.devices) Inv retry_attempt-Inv
                (λ s. Q s.cluster) retry_attempt_done (assumed.made start) assumed.timeout start
                (h, original refl) (rw (assumed.runs claim.devices start) at (surface_ok r s e)))
