-- ===== src/Driver/Stack/Restored/Tests.antt =====
-- Two devices of a host whose files can be written are unprepared.
use k8snetworkplumbingwg_dra.Common.{
  none, some, false, [], ◌∷◌, ok, err, plain, ◌≡◌, refl, eq_string,
}
use k8snetworkplumbingwg_dra.Common.Yields.{Yields}
use k8snetworkplumbingwg_dra.Types.Prepared.{PreparedDevice, PreparedDevices}
use k8snetworkplumbingwg_dra.Types.Samples.{sample_device, vfio_config}
use k8snetworkplumbingwg_dra.Host.Sysfs.{Sysfs, Providers}
use k8snetworkplumbingwg_dra.Host.Sample.{World, os, bound_to, sysfs, framed}
use k8snetworkplumbingwg_dra.DeviceState.Services.{Services}
use k8snetworkplumbingwg_dra.DeviceState.Prepare.Claim.{unprepare_devices}
use k8snetworkplumbingwg_dra.Host.Modules.{ensure_dpdk_module_loaded, is_dpdk_driver}
use k8snetworkplumbingwg_dra.Host.Driver.{
  restore_device_driver, bind_driver_by_bus_and_device, get_driver_by_bus_and_device,
  set_driver_override, bind_driver, unbind_driver_by_bus_and_device, unbind_driver,
}
use k8snetworkplumbingwg_dra.Driver.Stack.{claim_host}
use k8snetworkplumbingwg_dra.Driver.Stack.Restored.{on_claim_host, unprepare_devices-restores}

abbrev sys : Sysfs World
sys = record {
  lstat = λ file w. err (plain "no such file");
  stat = λ file w. err (plain "no such file");
  readlink = λ file w. err (plain "no such file");
  eval_symlinks = λ file w. err (plain "no such file");
  read_file = λ file w. ok none;
  read_dir = λ file w. ok none;
}

abbrev providers : Providers World
providers = record {
  pci = λ w. ok [];
  get_uplink_representor = λ address w. err (plain "no devlink");
  is_representor_not_found = λ e. false;
  get_dev_link_device_eswitch_mode = λ address w. err (plain "not supported");
  pcie_root = λ address w. ok none;
  get_rdma_devices_for_pcidev = λ address w. [];
  get_rdma_char_devices = λ name w. [];
}

abbrev services : Services World
services = record {
  host = claim_host os sys providers;
  cache = record {
    minimum_required_version = λ spec. ok "0.3.0";
    transient_spec_name = λ uid. uid;
    qualified_name = λ name. name;
    write_spec = λ spec name w. (ok tt, w);
    remove_spec = λ name w. (ok tt, w);
    join = λ names. "";
  };
  store = record {
    clean_device_info_for_dp = λ name id w. (ok tt, w);
    save_device_info_for_dp = λ name id info w. (ok tt, w);
  };
  get_net_attach_def = λ namespace name w. (ok "{}", w);
  json = record { unmarshal = λ conf. ok (some []); marshal = λ raw. ok "{}" };
  marshal = λ config. ok "{}";
  underscored = λ text. text;
  has_prefix = λ text start. false;
  base = λ path. path;
  join = λ names. "";
  itoa = λ n. "0";
}

abbrev world : World
world = record { driver_of = λ d. "vfio-pci"; modules = "vfio" ∷ "vfio_pci" ∷ [] }

abbrev other_device : PreparedDevice
other_device = record sample_device { pci_address = "0000:01:00.2" }

abbrev devices : PreparedDevices
devices = none ∷ some sample_device ∷ some other_device ∷ []

-- The loop succeeds.
runs : (unprepare_devices (on_claim_host os sys providers services) devices world).0 ≡ ok tt
unfolding unprepare_devices restore_device_driver bind_driver_by_bus_and_device
    ensure_dpdk_module_loaded is_dpdk_driver get_driver_by_bus_and_device set_driver_override
    bind_driver unbind_driver_by_bus_and_device unbind_driver
runs = refl

unprepare_devices-restores_example :
    Yields
      (unprepare_devices (on_claim_host os sys providers services) devices)
      world
      (λ _ w'. bound_to w' "0000:01:00.1" ≡ "iavf")
unprepare_devices-restores_example =
    unprepare_devices-restores os sys providers services bound_to sysfs framed sample_device
      vfio_config refl refl refl (none ∷ []) (some other_device ∷ []) world (refl, tt)
