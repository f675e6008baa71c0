-- ===== src/Types/Retry.antt =====
-- pkg/types/statusretry.go: UpdateClaimStatusWithRetry. The API client is a pair of actions on the
-- state of the cluster, and `wait.ExponentialBackoffWithContext` is an argument that turns one
-- attempt into a run of attempts.
pub mod Rules
pub mod Requests
mod Tests
use k8snetworkplumbingwg_dra.Common.{
  String, Option, none, some, Bool, true, false, not, ◌≡◌, ◌||◌, ◌&&◌, ◌==◌, eq_string, ℕ, suc,
  zero, List, if◌then◌else◌, Reason, conflict, invalid, forbidden, not_found, unclassified, Error,
  plain, api, wrap, quote, join, joined, Result, ok, err, panic, Action, ◌≤◌, is_some,
}
use k8snetworkplumbingwg_dra.Kube.{ResourceClaim, AllocatedDeviceStatus}
use k8snetworkplumbingwg_dra.Types.ClaimStatus.Key.{merge_device_statuses}

-- The reason that apierrors reads off an error: that of the API error in its chain.
unfoldable pub reason_for_error : Error → Reason
reason_for_error (api reason) = reason
reason_for_error (wrap text cause) = reason_for_error cause
reason_for_error (joined e) = reason_for_error e
reason_for_error (plain text) = unclassified
reason_for_error (quote text cause) = unclassified
reason_for_error (join e rest) =
    let first = reason_for_error e in
    let second = reason_for_error rest in elim first [ unclassified ↦ second | reason ↦ reason ]

unfoldable pub is_conflict : Error → Bool
unfolding reason_for_error
is_conflict e = elim (reason_for_error e) [ conflict ↦ true | _ ↦ false ]

unfoldable pub is_permanent_status_update_error : Error → Bool
unfolding reason_for_error
is_permanent_status_update_error e = elim (reason_for_error e) [
  | invalid ↦ true
  | forbidden ↦ true
  | not_found ↦ true
  | _ ↦ false
]

-- ResourceClaimStatusClient, and ctx.Err() != nil in a state of the cluster.
pub record StatusClient (C : Type 0) : Type 0 where
  pub update_status : ResourceClaim → Action C (Unit {0})
  pub get : String → Action C ResourceClaim
  pub cancelled : C → Bool

-- What the attempts share: the cluster, and the variables that the closure assigns.
pub record RetryState (C : Type 0) : Type 0 where
  pub cluster : C
  pub claim : ResourceClaim
  pub last_err : Option Error

-- One run of attempts, by a library.
abbrev pub Backoff : Type 0 → Type 0
Backoff C = Action (RetryState C) Bool → Action (RetryState C) (Unit {0})

-- Its documented behaviour: at most `n` attempts, until one is done or fails; after that the
-- library's own error.
module _ {S : Type 0} where
  abbrev pub resume : Result Bool → (S → Result (Unit {0}) × S) → S → Result (Unit {0}) × S
  resume (ok true) more s = (ok tt, s)
  resume (ok false) more s = more s
  resume (err e) more s = (err e, s)
  resume panic more s = (panic, s)

  pub attempts : ℕ → Error → Action S Bool → Action S (Unit {0})
  attempts zero timeout attempt s = (err timeout, s)
  attempts (suc n) timeout attempt s =
      let (r, s') = attempt s in resume r (attempts n timeout attempt) s'

-- A claim that was deleted and created anew under its name.
abbrev pub replaced : Error
replaced = wrap "claim was replaced" (api not_found)

module _ {C : Type 0} (client : StatusClient C) (driver_name : String) where
  module _ (desired : List AllocatedDeviceStatus) where
    -- The conflict branch, after the claim was fetched again.
    after_get : Result ResourceClaim → RetryState C → Result Bool × RetryState C
    after_get (err e) s =
        let s' = record s { last_err = some e } in
        if is_permanent_status_update_error e then (err e, s') else (ok false, s')
    after_get (ok fresh) s =
        if not (fresh.uid == s.claim.uid)
        then (err replaced, record s { last_err = some replaced })
        else (
          ok false,
          record s {
            claim = record fresh {
              devices = merge_device_statuses fresh.devices desired driver_name;
            };
          },
        )
    after_get panic s = (panic, s)

    after_update : Result (Unit {0}) → RetryState C → Result Bool × RetryState C
    after_update (ok _) s = (ok true, s)
    after_update (err e) s =
        let s' = record s { last_err = some e } in
        if is_conflict e
        then (let (fetched, c) = client.get s.claim.name s.cluster in
            after_get fetched (record s' { cluster = c }))
        else if is_permanent_status_update_error e
        then (err e, s')
        else (ok false, s')
    after_update panic s = (panic, s)

    -- The closure that is retried.
    pub retry_attempt : Action (RetryState C) Bool
    unfolding after_update after_get
    retry_attempt s =
        let (updated, c) = client.update_status s.claim s.cluster in
        after_update updated (record s { cluster = c })

  -- The last API error in place of the run's own, unless the context was cancelled.
  abbrev surface : Result (Unit {0}) → RetryState C → Result (Unit {0})
  surface (err e) s = elim s.last_err [
    | none ↦ err e
    | some last ↦ if client.cancelled s.cluster then err e else err last
  ]
  surface r s = r

  unfoldable pub update_claim_status_with_retry : Backoff C → ResourceClaim → Action C (Unit {0})
  update_claim_status_with_retry backoff claim c =
      let (r, s) =
        backoff (retry_attempt claim.devices)
          (record { cluster = c; claim = claim; last_err = none }) in
      (surface r s, s.cluster)

  -- What is assumed of a run of attempts that starts at the claim.
  pub record IsBackoff (backoff : Backoff C) (steps : ℕ) : Type 0 where
    pub made : RetryState C → ℕ
    pub timeout : Error
    pub at_most : (s : RetryState C) → made s ≤ steps
    pub runs :
        (desired : List AllocatedDeviceStatus) (s : RetryState C)
        → backoff (retry_attempt desired) s ≡ attempts (made s) timeout (retry_attempt desired) s
