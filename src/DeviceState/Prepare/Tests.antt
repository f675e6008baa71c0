-- ===== src/DeviceState/Prepare/Tests.antt =====
-- A host on which every call succeeds, and a claim with two devices of this driver and one of
-- another.
use k8snetworkplumbingwg_dra.Common.{
  String, none, some, true, false, ℕ, List, [], ◌∷◌, ◌++◌, ◌≡◌, ok, eq_string,
}
use k8snetworkplumbingwg_dra.Kube.{Device, ResourceClaim, DeviceRequestAllocationResult}
use k8snetworkplumbingwg_dra.Consts.{attribute_pci_address}
use k8snetworkplumbingwg_dra.Api.Opaque.{driver_name}
use k8snetworkplumbingwg_dra.Types.Samples.{vfio_config}
use k8snetworkplumbingwg_dra.Common.Yields.{OnOk}
use k8snetworkplumbingwg_dra.DeviceState.State.{Manager}
use k8snetworkplumbingwg_dra.DeviceState.Services.{HostInterface, Services}
use k8snetworkplumbingwg_dra.DeviceState.Prepare.Claim.{Progress, prepare_results}
use k8snetworkplumbingwg_dra.DeviceState.Prepare.Devices.{
  assignments, expected, prepare_results-expected,
}

-- The state of the host is the number of drivers that were bound.
abbrev counting_host : HostInterface ℕ
counting_host = record {
  bind_device_driver = λ pci config w. (ok "iavf", 1);
  restore_device_driver = λ pci driver w. (ok tt, 0);
  ensure_vhost_modules_loaded = λ w. (ok tt, w);
  get_vfio_device_file = λ pci w. (ok ("/dev/vfio/7", "/dev/vfio/7"), w);
  get_vfio_cdev_path = λ pci w. (ok "", w);
  get_rdma_devices_for_pci = λ pci w. [];
  get_rdma_char_devices = λ device w. (ok [], w);
}

abbrev services_on : {W : Type 0} → HostInterface W → Services W
services_on host = record {
  host = host;
  cache = record {
    minimum_required_version = λ spec. ok "0.3.0";
    transient_spec_name = λ uid. uid;
    qualified_name = λ name. name;
    write_spec = λ spec name w. (ok tt, w);
    remove_spec = λ name w. (ok tt, w);
    join = λ names. "";
  };
  store = record {
    clean_device_info_for_dp = λ name id w. (ok tt, w);
    save_device_info_for_dp = λ name id info w. (ok tt, w);
  };
  get_net_attach_def = λ namespace name w. (ok "{}", w);
  json = record { unmarshal = λ conf. ok (some []); marshal = λ raw. ok "{}" };
  marshal = λ config. ok "{}";
  underscored = λ text. text;
  has_prefix = λ text start. false;
  base = λ path. path;
  join = λ names. "";
  itoa = λ n. "0";
}

abbrev services : Services ℕ
services = services_on counting_host

abbrev device : Device
device = record {
  name = "vf0";
  attributes =
      (
        attribute_pci_address,
        record {
          int_value = none;
          bool_value = none;
          string_value = some "0000:01:00.1";
          version_value = none;
        },
      )
      ∷ [];
}

abbrev manager : Manager
manager = record {
  default_interface_prefix = "net";
  allocatable = ("vf0", device) ∷ ("vf1", device) ∷ [];
  policy_attr_keys = [];
  configuration_mode = "STANDALONE";
  iommu_available = true;
}

abbrev result : String → String → DeviceRequestAllocationResult
result driver name = record {
  request = "vf";
  driver = driver;
  pool = "node1";
  device = name;
  share_id = none;
}

abbrev results : List DeviceRequestAllocationResult
results = result driver_name "vf0" ∷ result "gpu.example.com" "g0" ∷ result driver_name "vf1" ∷ []

abbrev claim : ResourceClaim
claim = record {
  name = "claim";
  namespace = "default";
  uid = "claim1";
  reserved_for = "pod1" ∷ [];
  allocation = some (record { results = results; config = [] });
  devices = [];
}

abbrev start : Progress
start = record { if_name_index = 0; next_address = 0; devices = [] }

prepare_results-expected_example :
    OnOk
      (prepare_results services manager claim (("vf", vfio_config) ∷ []) results [] (0, start)).0
      (λ ps.
        assignments ps
        ≡ assignments [] ++ expected services manager claim (("vf", vfio_config) ∷ []) results 0)
prepare_results-expected_example =
    prepare_results-expected services manager claim (("vf", vfio_config) ∷ []) results [] (0, start)
