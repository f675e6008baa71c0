-- ===== src/Driver/Batch/Tests.antt =====
-- A call for two claims of one pod, the second of which is not allocated.
use k8snetworkplumbingwg_dra.Common.{
  String, none, some, ℕ, suc, List, [], ◌∷◌, ◌≡◌, refl, Result, ok, err, plain, Map, lookup, insert,
  eq_string,
}
use k8snetworkplumbingwg_dra.Kube.{Device, DeviceAttribute, ResourceClaim}
use k8snetworkplumbingwg_dra.Consts.{attribute_pci_address}
use k8snetworkplumbingwg_dra.Types.Prepared.{
  PreparedDevices, KubeletPluginDevice, to_kubelet_plugin_device,
}
use k8snetworkplumbingwg_dra.Types.Samples.{sample_device, sample_devices}
use k8snetworkplumbingwg_dra.PodManager.Store.{
  CheckpointManager, get, put, sync_to_checkpoint, get_devices_by_pod_uid, append_all,
}
use k8snetworkplumbingwg_dra.Driver.Hook.{
  Driver, DeviceState, plugin_devices, prepare_resource_claim,
}
use k8snetworkplumbingwg_dra.Driver.Requests.{
  prepare_each, prepare_resource_claims, pci_addresses, first_pod_uid,
}
use k8snetworkplumbingwg_dra.Driver.Batch.{prepare_resource_claims-recorded}

abbrev text : String → DeviceAttribute
text s = record { int_value = none; bool_value = none; string_value = some s; version_value = none }

abbrev allocatable : Device
allocatable = record {
  name = "0000-01-00-1";
  attributes = (attribute_pci_address, text "0000:01:00.1") ∷ [];
}

-- The state of the host counts the devices that are prepared on it.
abbrev state : DeviceState ℕ
state = record {
  get_allocatable_device_by_name = λ name. some allocatable;
  prepare_devices_for_claim = λ claim p. (ok sample_devices, (suc p.0, p.1));
  unprepare = λ uid ps w. (ok tt, 0);
  create_global_pod_spec_file = λ pod addresses w. (ok tt, w);
  update_claim_status_with_retry = λ claim w. (ok tt, w);
}

abbrev checkpoints : CheckpointManager ℕ
checkpoints = record {
  list_checkpoints = λ disk. ok [];
  get_checkpoint = λ name disk. ok [];
  create_checkpoint = λ name claims disk. (ok tt, suc disk);
}

abbrev driver : Driver ℕ ℕ
driver = record {
  world = 0;
  pods = record { prepared_claims_by_pod_uid = []; disk = 0 };
  if_name_index = 0;
  next_address = 0;
}

abbrev claim : ResourceClaim
claim = record {
  name = "claim";
  namespace = "default";
  uid = "claim1";
  reserved_for = "pod1" ∷ [];
  allocation = some (record { results = []; config = [] });
  devices = [];
}

abbrev claims : List ResourceClaim
claims = claim ∷ record claim { uid = "claim2"; allocation = none } ∷ []

abbrev devices : List KubeletPluginDevice
devices = to_kubelet_plugin_device sample_device none ∷ []

abbrev result : Map String (Result (List KubeletPluginDevice))
result = ("claim1", ok devices) ∷ ("claim2", err (plain "claim not yet allocated")) ∷ []

batch_run : (prepare_resource_claims checkpoints state claims driver).0 ≡ ok (result, ok tt)
unfolding prepare_resource_claims prepare_each prepare_resource_claim plugin_devices get put
    sync_to_checkpoint get_devices_by_pod_uid append_all pci_addresses first_pod_uid lookup insert
batch_run = refl

reported : lookup "claim1" result ≡ some (ok devices)
unfolding lookup
reported = refl

prepare_resource_claims-recorded_example :
    (pod : String) × ((ps : PreparedDevices) × ((get pod "claim1"
            (prepare_resource_claims checkpoints state claims driver).1.pods
          ≡ some ps)
        × (plugin_devices ps ≡ some devices)))
prepare_resource_claims-recorded_example =
    prepare_resource_claims-recorded checkpoints state claims driver result "claim1" devices
      batch_run reported
