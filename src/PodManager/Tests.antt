-- ===== src/PodManager/Tests.antt =====
-- A checkpoint manager that keeps one checkpoint, and the theorems at it.
use k8snetworkplumbingwg_dra.Common.{
  String, Option, none, some, List, [], ◌∷◌, lookup, insert, eq_string, Result, ok, err, plain, ◌≡◌,
  refl,
}
use k8snetworkplumbingwg_dra.Types.Prepared.{PreparedClaimsByPodUid}
use k8snetworkplumbingwg_dra.Types.Samples.{sample_devices, claim_object}
use k8snetworkplumbingwg_dra.PodManager.Store.{
  CheckpointManager, PodManager, put, delete_claim, new_pod_manager, sync_to_checkpoint,
  pod_to_delete, checkpoint_file,
}
use k8snetworkplumbingwg_dra.PodManager.Restart.{
  IsDurable, IsSaved, Op, put_op, delete_claim_op, run, run_all, restart-run_all,
}

abbrev Disk : Type 0
Disk = Option PreparedClaimsByPodUid

abbrev listing : Disk → Result (List String)
listing none = ok []
listing (some _) = ok (checkpoint_file ∷ [])

abbrev reading : Disk → Result PreparedClaimsByPodUid
reading none = err (plain "checkpoint is not found")
reading (some claims) = ok claims

abbrev checkpoints : CheckpointManager Disk
checkpoints = record {
  list_checkpoints = listing;
  get_checkpoint = λ name disk. reading disk;
  create_checkpoint = λ name claims disk. (ok tt, some claims);
}

abbrev two_claims : PreparedClaimsByPodUid
two_claims =
    ("pod1", ("claim1", sample_devices) ∷ ("claim2", []) ∷ []) ∷ ("pod2", ("claim3", []) ∷ []) ∷ []

abbrev manager : PodManager Disk
manager = record { prepared_claims_by_pod_uid = two_claims; disk = some two_claims }

durable : IsDurable checkpoints
durable claims disk h = record {
  names = checkpoint_file ∷ [];
  listed = refl;
  has_file = refl;
  got = refl;
}

saved : IsSaved checkpoints manager
saved = record { names = checkpoint_file ∷ []; listed = refl; has_file = refl; got = refl }

abbrev ops : List Op
ops = put_op "pod3" "claim5" sample_devices ∷ delete_claim_op (claim_object "claim1") ∷ []

ops_succeed : (run_all checkpoints ops manager).0 ≡ ok tt
unfolding run_all run put delete_claim sync_to_checkpoint pod_to_delete lookup insert
ops_succeed = refl

restart-run_all_example :
    new_pod_manager checkpoints (run_all checkpoints ops manager).1.disk
    ≡ (ok (run_all checkpoints ops manager).1, (run_all checkpoints ops manager).1.disk)
restart-run_all_example = restart-run_all checkpoints durable ops manager saved ops_succeed
