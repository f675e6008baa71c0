-- ===== src/Driver/Tests.antt =====
-- A device-state manager that prepares one device, with checkpoints that are written or that fail.
use k8snetworkplumbingwg_dra.Common.{
  none, some, ℕ, suc, List, [], ◌∷◌, ◌≡◌, refl, Result, ok, err, plain, wrap, quote, arith, lookup,
  insert, delete, eq_string,
}
use k8snetworkplumbingwg_dra.Kube.{Allocation, ResourceClaim}
use k8snetworkplumbingwg_dra.Types.Prepared.{
  PreparedClaimsByPodUid, KubeletPluginDevice, to_kubelet_plugin_device,
}
use k8snetworkplumbingwg_dra.Types.Samples.{sample_device, sample_devices, claim_object}
use k8snetworkplumbingwg_dra.PodManager.Store.{
  CheckpointManager, PodManager, get, put, sync_to_checkpoint, get_by_claim, find_claim,
  pod_to_delete, delete_claim,
}
use k8snetworkplumbingwg_dra.DeviceState.Prepare.Claim.{Progress}
use k8snetworkplumbingwg_dra.Driver.Hook.{
  Driver, DeviceState, plugin_devices, prepare_resource_claim, unprepare_resource_claim,
}
use k8snetworkplumbingwg_dra.Driver.Again.{
  undone, prepare_resource_claim-again, prepare_resource_claim-after_failed_put,
  unprepare_resource_claim-forgets,
}

-- The state of the host counts the devices that are prepared on it.
abbrev state : DeviceState ℕ
state = record {
  get_allocatable_device_by_name = λ name. none;
  prepare_devices_for_claim = λ claim p. (ok sample_devices, (suc p.0, p.1));
  unprepare = λ uid ps w. (ok tt, 0);
  create_global_pod_spec_file = λ pod addresses w. (ok tt, w);
  update_claim_status_with_retry = λ claim w. (err (plain "no connection"), w);
}

abbrev checkpoints : Result (Unit {0}) → CheckpointManager ℕ
checkpoints written = record {
  list_checkpoints = λ disk. ok [];
  get_checkpoint = λ name disk. ok [];
  create_checkpoint = λ name claims disk. (written, suc disk);
}

abbrev working : CheckpointManager ℕ
working = checkpoints (ok tt)

abbrev full : CheckpointManager ℕ
full = checkpoints (err (plain "no space left on device"))

abbrev driver : PreparedClaimsByPodUid → Driver ℕ ℕ
driver pods = record {
  world = 0;
  pods = record { prepared_claims_by_pod_uid = pods; disk = 0 };
  if_name_index = 0;
  next_address = 0;
}

abbrev allocation : Allocation
allocation = record { results = []; config = [] }

abbrev claim : ResourceClaim
claim = record {
  name = "claim";
  namespace = "default";
  uid = "claim1";
  reserved_for = "pod1" ∷ [];
  allocation = some allocation;
  devices = [];
}

abbrev devices : List KubeletPluginDevice
devices = to_kubelet_plugin_device sample_device none ∷ []

program : Unit {0}
unfolding prepare_resource_claim unprepare_resource_claim plugin_devices get put sync_to_checkpoint
    get_by_claim find_claim pod_to_delete delete_claim lookup insert delete
program = tt

prepare_run : (prepare_resource_claim working state claim (driver [])).0 ≡ ok devices
unfolding program
prepare_run = refl

prepare_resource_claim-again_example :
    prepare_resource_claim working state claim
      (prepare_resource_claim working state claim (driver [])).1
    ≡ (ok devices, (prepare_resource_claim working state claim (driver [])).1)
prepare_resource_claim-again_example =
    prepare_resource_claim-again working state claim (driver []) devices prepare_run

abbrev unsaved : PodManager ℕ
unsaved = record {
  prepared_claims_by_pod_uid = ("pod1", ("claim1", sample_devices) ∷ []) ∷ [];
  disk = 1;
}

abbrev progress : Progress
progress = record { if_name_index = 0; next_address = 0; devices = [] }

nothing_stored : get "pod1" "claim1" (driver []).pods ≡ none
unfolding program
nothing_stored = refl

all_there : plugin_devices sample_devices ≡ some devices
unfolding program
all_there = refl

put_fails :
    put full "pod1" "claim1" sample_devices (driver []).pods
    ≡ (err (quote "unable to sync to checkpoint: %v" (plain "no space left on device")), unsaved)
unfolding program
put_fails = refl

prepare_resource_claim-after_failed_put_example :
    (prepare_resource_claim full state claim (driver []) ≡ (
      err (
          wrap "error setting prepared devices for pod %s into pod manager: %w"
            (quote "unable to sync to checkpoint: %v" (plain "no space left on device"))),
      undone full state (driver []) 0 unsaved progress,
    ))
    × (prepare_resource_claim full state claim (undone full state (driver []) 0 unsaved progress)
        ≡ (ok devices, undone full state (driver []) 0 unsaved progress))
prepare_resource_claim-after_failed_put_example =
    prepare_resource_claim-after_failed_put full state "pod1" claim allocation (driver [])
      sample_devices devices 1 0 progress
      (quote "unable to sync to checkpoint: %v" (plain "no space left on device")) unsaved refl refl
      nothing_stored refl all_there put_fails refl

abbrev two_claims : PreparedClaimsByPodUid
two_claims = ("pod1", ("claim1", sample_devices) ∷ ("claim2", sample_devices) ∷ []) ∷ []

stored : get_by_claim (claim_object "claim1") (driver two_claims).pods ≡ some sample_devices
unfolding program
stored = refl

picked : pod_to_delete "claim1" two_claims ≡ some "pod1"
unfolding program
picked = refl

unprepare_run :
    (unprepare_resource_claim working state (claim_object "claim1") (driver two_claims)).0 ≡ ok tt
unfolding program
unprepare_run = refl

unprepare_resource_claim-forgets_example :
    unprepare_resource_claim working state
      (claim_object "claim2")
      (unprepare_resource_claim working state (claim_object "claim1") (driver two_claims)).1
    ≡ (
      ok tt,
      (unprepare_resource_claim working state (claim_object "claim1") (driver two_claims)).1,
    )
unprepare_resource_claim-forgets_example =
    unprepare_resource_claim-forgets working state "pod1" (claim_object "claim1")
      (claim_object "claim2") (driver two_claims) sample_devices stored picked
      (λ h. ground (arith, h), tt) unprepare_run
