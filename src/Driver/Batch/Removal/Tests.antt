-- ===== src/Driver/Batch/Removal/Tests.antt =====
-- The unpreparation of two claims of one pod, of which one is not known.
use k8snetworkplumbingwg_dra.Common.{
  String, none, some, ℕ, suc, List, [], ◌∷◌, ◌≡◌, refl, Result, ok, err, plain, Map, lookup, insert,
  delete, eq_string, arith, is_some, true, sym, ◌∙◌,
}
use k8snetworkplumbingwg_dra.Kube.{NamespacedObject}
use k8snetworkplumbingwg_dra.Types.Prepared.{PreparedClaimsByPodUid}
use k8snetworkplumbingwg_dra.Types.Samples.{sample_devices, claim_object}
use k8snetworkplumbingwg_dra.PodManager.Store.{
  CheckpointManager, get, sync_to_checkpoint, get_by_claim, find_claim, pod_to_delete, delete_claim,
}
use k8snetworkplumbingwg_dra.PodManager.Keys.{IsInOnePod}
use k8snetworkplumbingwg_dra.Driver.Hook.{Driver, DeviceState, unprepare_resource_claim}
use k8snetworkplumbingwg_dra.Driver.Requests.{unprepare_each, unprepare_resource_claims}
use k8snetworkplumbingwg_dra.Driver.Batch.Removal.{unprepare_resource_claims-removes}

abbrev state : DeviceState ℕ
state = record {
  get_allocatable_device_by_name = λ name. none;
  prepare_devices_for_claim = λ claim p. (err (plain "not used"), p);
  unprepare = λ uid ps w. (ok tt, 0);
  create_global_pod_spec_file = λ pod addresses w. (ok tt, w);
  update_claim_status_with_retry = λ claim w. (ok tt, w);
}

abbrev checkpoints : CheckpointManager ℕ
checkpoints = record {
  list_checkpoints = λ disk. ok [];
  get_checkpoint = λ name disk. ok [];
  create_checkpoint = λ name claims disk. (ok tt, suc disk);
}

abbrev stored : PreparedClaimsByPodUid
stored = ("pod1", ("claim1", sample_devices) ∷ []) ∷ ("pod2", []) ∷ []

abbrev driver : Driver ℕ ℕ
driver = record {
  world = 1;
  pods = record { prepared_claims_by_pod_uid = stored; disk = 0 };
  if_name_index = 0;
  next_address = 0;
}

abbrev claims : List NamespacedObject
claims = claim_object "claim1" ∷ claim_object "claim2" ∷ []

abbrev result : Map String (Result (Unit {0}))
result = ("claim1", ok tt) ∷ ("claim2", ok tt) ∷ []

run : (unprepare_resource_claims checkpoints state claims driver).0 ≡ ok result
unfolding unprepare_resource_claims unprepare_each unprepare_resource_claim get_by_claim find_claim
    pod_to_delete delete_claim sync_to_checkpoint lookup insert delete
run = refl

only_pod1 : (p : String) → is_some (get p "claim1" driver.pods) ≡ true → "pod1" ≡ p
unfolding get lookup
only_pod1 p h = ground (arith, h, eq_string.beq_iff "pod1" p)

one_pod : IsInOnePod "claim1" stored
unfolding get
one_pod p q hp hq = sym (only_pod1 p hp) ∙ only_pod1 q hq

reported : lookup "claim1" result ≡ some (ok tt)
unfolding lookup
reported = refl

unprepare_resource_claims-removes_example :
    get "pod1" "claim1" (unprepare_resource_claims checkpoints state claims driver).1.pods ≡ none
unprepare_resource_claims-removes_example =
    unprepare_resource_claims-removes checkpoints state "claim1" claims driver result
      (refl, (refl, tt)) one_pod run reported "pod1"
