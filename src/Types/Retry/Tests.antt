-- ===== src/Types/Retry/Tests.antt =====
-- A server that answers some updates with a conflict, and the theorems at runs against it.
use k8snetworkplumbingwg_dra.Common.{
  String, none, some, List, [], ◌∷◌, ◌≡◌, refl, arith, false, true, Bool, ℕ, suc, zero, ok, err,
  api, conflict, plain, Result,
}
use k8snetworkplumbingwg_dra.Kube.{AllocatedDeviceStatus, ResourceClaim}
use k8snetworkplumbingwg_dra.Types.ClaimStatus.Key.{
  key_of, key_eq, upsert_device_status, foreign, upsert_own, merge_device_statuses,
}
use k8snetworkplumbingwg_dra.Types.Retry.{
  StatusClient, Backoff, IsBackoff, attempts, retry_attempt, after_get, after_update, is_conflict,
  update_claim_status_with_retry,
}
use k8snetworkplumbingwg_dra.Types.Retry.Requests.{
  IsRequest-uid, update_claim_status_with_retry-requests, update_claim_status_with_retry-accepted,
}

record Server : Type 0 where
  stored : ResourceClaim
  conflicts : ℕ
  updated : Bool

abbrev update : ResourceClaim → ℕ → Server → Result (Unit {0}) × Server
update c zero s = (ok tt, record s { stored = c; updated = true })
update c (suc n) s = (err (api conflict), record s { conflicts = n })

abbrev client : StatusClient Server
client = record {
  update_status = λ c s. update c s.conflicts s;
  get = λ name s. (ok s.stored, s);
  cancelled = λ s. false;
}

abbrev claim_with : List AllocatedDeviceStatus → ResourceClaim
claim_with devices = record {
  name = "claim";
  namespace = "default";
  uid = "u1";
  reserved_for = "pod" ∷ [];
  allocation = none;
  devices = devices;
}

abbrev entry : String → String → AllocatedDeviceStatus
entry driver text = record {
  driver = driver;
  pool = "node";
  device = "d";
  share_id = none;
  raw_data = some text;
  network_data = none;
}

abbrev server : Server
server = record { stored = claim_with (entry "gpu" "theirs" ∷ []); conflicts = 1; updated = false }

abbrev mine : ResourceClaim
mine = claim_with (entry "sriov" "mine" ∷ [])

abbrev five : Backoff Server
five = attempts 5 (plain "timed out")

five-IsBackoff : IsBackoff client "sriov" five 5
five-IsBackoff = record {
  made = λ s. 5;
  timeout = plain "timed out";
  at_most = λ s. omega arith;
  runs = λ desired s. refl;
}

program : Unit {0}
unfolding update_claim_status_with_retry retry_attempt after_update after_get attempts is_conflict
    merge_device_statuses upsert_own foreign upsert_device_status key_of key_eq
program = tt

-- After one conflict the entry of the other driver is kept.
retry_run : update_claim_status_with_retry client "sriov" five mine server ≡ (
  ok tt,
  record {
    stored = claim_with (entry "gpu" "theirs" ∷ entry "sriov" "mine" ∷ []);
    conflicts = 0;
    updated = true;
  },
)
unfolding program
retry_run = refl

abbrev Ours : Server → Type 0
Ours s = s.stored.uid ≡ "u1"

update-Ours :
    (c : ResourceClaim) (n : ℕ) (s : Server) → c.uid ≡ "u1" → Ours s → Ours (update c n s).1
update-Ours c zero s e h = e
update-Ours c (suc n) s e h = h

update_accepted :
    (c : ResourceClaim) (n : ℕ) (s : Server)
    → (update c n s).0 ≡ ok tt
    → (update c n s).1.updated ≡ true
update_accepted c zero s e = refl
update_accepted c (suc n) s e = cc

update_claim_status_with_retry-requests_example :
    Ours (update_claim_status_with_retry client "sriov" five mine server).1
update_claim_status_with_retry-requests_example =
    update_claim_status_with_retry-requests client "sriov" mine Ours
      (λ c s request h. update-Ours c s.conflicts s (IsRequest-uid client "sriov" mine c request) h)
      (λ name s h. h) five 5 five-IsBackoff server refl

update_claim_status_with_retry-accepted_example :
    (update_claim_status_with_retry client "sriov" five mine server).1.updated ≡ true
unfolding program
update_claim_status_with_retry-accepted_example =
    update_claim_status_with_retry-accepted client "sriov" mine Ours
      (λ c s request h. update-Ours c s.conflicts s (IsRequest-uid client "sriov" mine c request) h)
      (λ name s h. h) five 5 five-IsBackoff server (λ s. s.updated ≡ true)
      (λ c s request h e. update_accepted c s.conflicts s e) refl refl
