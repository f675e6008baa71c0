-- ===== src/Driver/Requests/Tests.antt =====
-- Two calls for two claims of one pod: each call counts the interfaces from 0.
use k8snetworkplumbingwg_dra.Common.{
  String, Option, none, some, true, false, List, [], ◌∷◌, lookup, insert, ◌==◌, eq_string, eq_nat,
  if◌then◌else◌, ok, ◌≡◌, refl,
}
use k8snetworkplumbingwg_dra.Kube.{Device, ResourceClaim}
use k8snetworkplumbingwg_dra.Consts.{attribute_pci_address}
use k8snetworkplumbingwg_dra.Api.Opaque.{
  Decoder, driver_name, get_map_of_opaque_device_config_for_device, collect, vf_config, source_of,
  override_requests, apply_configs, apply_config,
}
use k8snetworkplumbingwg_dra.Api.VfConfig.{default_vf_config, override, normalize}
use k8snetworkplumbingwg_dra.Types.Prepared.{PreparedDevices}
use k8snetworkplumbingwg_dra.PodManager.Store.{
  CheckpointManager, get, put, sync_to_checkpoint, get_devices_by_pod_uid, append_all,
}
use k8snetworkplumbingwg_dra.DeviceState.State.{
  Manager, get_allocatable_device_by_name, is_standalone_mode, is_multus_mode,
}
use k8snetworkplumbingwg_dra.Types.NetConf.{add_device_id_to_net_conf}
use k8snetworkplumbingwg_dra.Cdi.{create_claim_spec_file, spec_devices, create_global_pod_spec_file}
use k8snetworkplumbingwg_dra.DeviceState.Edits.{handle_rdma_device}
use k8snetworkplumbingwg_dra.DeviceState.DeviceInfo.{sync_device_info_files_if_needed}
use k8snetworkplumbingwg_dra.DeviceState.Services.{HostInterface, Services}
use k8snetworkplumbingwg_dra.DeviceState.Prepare.{apply_config_on_device}
use k8snetworkplumbingwg_dra.DeviceState.Prepare.Claim.{
  config_for, prepare_devices_for_claim, prepare_results,
}
use k8snetworkplumbingwg_dra.Driver.Hook.{Driver, prepare_resource_claim, plugin_devices}
use k8snetworkplumbingwg_dra.Driver.Requests.{
  prepare_resource_claims, prepare_each, pci_addresses, first_pod_uid,
}
use k8snetworkplumbingwg_dra.Driver.Stack.{device_state}

abbrev host : HostInterface (Unit {0})
host = record {
  bind_device_driver = λ pci config w. (ok "iavf", w);
  restore_device_driver = λ pci driver w. (ok tt, w);
  ensure_vhost_modules_loaded = λ w. (ok tt, w);
  get_vfio_device_file = λ pci w. (ok ("", ""), w);
  get_vfio_cdev_path = λ pci w. (ok "", w);
  get_rdma_devices_for_pci = λ pci w. [];
  get_rdma_char_devices = λ device w. (ok [], w);
}

abbrev services : Services (Unit {0})
services = record {
  host = host;
  cache = record {
    minimum_required_version = λ spec. ok "0.3.0";
    transient_spec_name = λ uid. uid;
    qualified_name = λ name. name;
    write_spec = λ spec name w. (ok tt, w);
    remove_spec = λ name w. (ok tt, w);
    join = λ names. "";
  };
  store = record {
    clean_device_info_for_dp = λ name id w. (ok tt, w);
    save_device_info_for_dp = λ name id info w. (ok tt, w);
  };
  get_net_attach_def = λ namespace name w. (ok "{}", w);
  json = record { unmarshal = λ conf. ok (some []); marshal = λ raw. ok "{}" };
  marshal = λ config. ok "{}";
  underscored = λ text. text;
  has_prefix = λ text start. false;
  base = λ path. path;
  join = λ names. "";
  itoa = λ n. if n == 0 then "0" else "1";
}

abbrev device : String → Device
device name = record {
  name = name;
  attributes =
      (
        attribute_pci_address,
        record {
          int_value = none;
          bool_value = none;
          string_value = some "0000:01:00.1";
          version_value = none;
        },
      )
      ∷ [];
}

abbrev manager : Manager
manager = record {
  default_interface_prefix = "vfnet";
  allocatable = ("vf0", device "vf0") ∷ ("vf1", device "vf1") ∷ [];
  policy_attr_keys = [];
  configuration_mode = "STANDALONE";
  iommu_available = true;
}

abbrev decoder : Decoder
decoder parameters = ok (vf_config (record default_vf_config { net_attach_def_name = "net" }))

abbrev claim : String → String → ResourceClaim
claim uid name = record {
  name = uid;
  namespace = "default";
  uid = uid;
  reserved_for = "pod1" ∷ [];
  allocation = some (record {
    results =
        record {
          request = "vf";
          driver = driver_name;
          pool = "node1";
          device = name;
          share_id = none;
        }
        ∷ [];
    config =
        record {
          source = "FromClaim";
          requests = "vf" ∷ [];
          opaque = some (record { driver = driver_name; parameters = "{}" });
        }
        ∷ [];
  });
  devices = [];
}

abbrev checkpoints : CheckpointManager (Unit {0})
checkpoints = record {
  list_checkpoints = λ disk. ok [];
  get_checkpoint = λ name disk. ok [];
  create_checkpoint = λ name claims disk. (ok tt, disk);
}

abbrev start : Driver (Unit {0}) (Unit {0})
start = record {
  world = tt;
  pods = record { prepared_claims_by_pod_uid = []; disk = tt };
  if_name_index = 0;
  next_address = 0;
}

abbrev call : List ResourceClaim → Driver (Unit {0}) (Unit {0}) → Driver (Unit {0}) (Unit {0})
call claims s =
    (prepare_resource_claims checkpoints (device_state services decoder manager (λ c w. (ok tt, w)))
      claims s).1

abbrev names : Option PreparedDevices → List String
names none = []
names (some []) = []
names (some (none ∷ ps)) = names (some ps)
names (some (some p ∷ ps)) = p.if_name ∷ names (some ps)

abbrev stored_names : Driver (Unit {0}) (Unit {0}) → List String
stored_names s = names (get_devices_by_pod_uid "pod1" s.pods)

program : Unit {0}
unfolding prepare_resource_claims prepare_each prepare_resource_claim plugin_devices get put
    sync_to_checkpoint get_devices_by_pod_uid append_all pci_addresses first_pod_uid lookup insert
    prepare_devices_for_claim prepare_results apply_config_on_device
    get_map_of_opaque_device_config_for_device collect override source_of apply_configs apply_config
    get_allocatable_device_by_name is_standalone_mode is_multus_mode add_device_id_to_net_conf
    config_for normalize override_requests handle_rdma_device sync_device_info_files_if_needed
    create_claim_spec_file spec_devices create_global_pod_spec_file
program = tt

-- In one call the names differ.
one_call :
    stored_names (call (claim "claim1" "vf0" ∷ claim "claim2" "vf1" ∷ []) start)
    ≡ "vfnet0" ∷ "vfnet1" ∷ []
unfolding program
one_call = refl

-- In two calls they are the same.
two_calls :
    stored_names (call (claim "claim2" "vf1" ∷ []) (call (claim "claim1" "vf0" ∷ []) start))
    ≡ "vfnet0" ∷ "vfnet0" ∷ []
unfolding program
two_calls = refl
