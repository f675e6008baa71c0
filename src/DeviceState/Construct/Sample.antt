-- ===== src/DeviceState/Construct/Sample.antt =====
-- A host with one physical function that has two VFs, and the manager that NewManager makes of it.
use k8snetworkplumbingwg_dra.Common.{
  String, none, some, true, false, [], ◌∷◌, Map, insert, eq_string, ok, err, plain, ◌≡◌, refl,
}
use k8snetworkplumbingwg_dra.Kube.{pos, negsuc, Device}
use k8snetworkplumbingwg_dra.Text.{parse_int, digits, replace_all}
use k8snetworkplumbingwg_dra.Types.Config.{Flags}
use k8snetworkplumbingwg_dra.Host.Sysfs.{PciDevice}
use k8snetworkplumbingwg_dra.Host.Pci.{VfInfo}
use k8snetworkplumbingwg_dra.DeviceState.State.{Manager}
use k8snetworkplumbingwg_dra.DeviceState.Discovery.{
  DiscoveryHost, device_name, vf_device, pf_info, pf_at, pf_list, add_vfs, add_pfs,
  discover_sriov_devices,
}
use k8snetworkplumbingwg_dra.DeviceState.Construct.{
  normalize_configuration_mode, state_of, new_manager, manager_of,
}
use k8snetworkplumbingwg_dra.DeviceState.Construct.Reached.{Reached, created}

abbrev pub pf_device : PciDevice
pf_device = record {
  address = "0000:01:00.0";
  class_id = "02";
  vendor_id = "8086";
  product_id = "1592";
}

abbrev pub disk : PciDevice
disk = record pf_device { address = "0000:02:00.0"; class_id = "01" }

abbrev pub first_vf : VfInfo
first_vf = record { pci_address = "0000:01:00.1"; vf_id = pos 0; device_id = "1889" }

abbrev pub second_vf : VfInfo
second_vf = record first_vf { pci_address = "0000:01:00.2"; vf_id = pos 1 }

abbrev pub sample_host : DiscoveryHost
sample_host = record {
  pci = ok (pf_device ∷ disk ∷ []);
  is_sriov_vf = λ address. false;
  try_get_pf_interface_name = λ address. "ens1f0";
  get_nic_sriov_mode = λ address. "legacy";
  get_numa_node = λ address. ok "1";
  get_pcie_root = λ address. err (plain "no root");
  get_link_type = λ address. ok "ethernet";
  get_vf_list = λ address. ok (first_vf ∷ second_vf ∷ []);
  verify_rdma_capability = λ address. false;
  is_iommufd_available = true;
}

abbrev pub sample_flags : Flags
sample_flags = record {
  node_name = "node1";
  namespace = "dra";
  cdi_root = "/etc/cdi";
  kubelet_registrar_directory_path = "/var/lib/kubelet/plugins_registry";
  kubelet_plugins_directory_path = "/var/lib/kubelet/plugins";
  healthcheck_port = negsuc 0;
  metrics_bind_address = ":8080";
  default_interface_prefix = "net";
  configuration_mode = "";
  enable_device_metadata = true;
}

abbrev pub sample_found : Map String Device
sample_found =
    ("0000-01-00-1", vf_device sample_host (pf_at sample_host pf_device) first_vf)
    ∷ ("0000-01-00-2", vf_device sample_host (pf_at sample_host pf_device) second_vf)
    ∷ []

abbrev pub sample_manager : Manager
sample_manager = manager_of sample_host sample_flags "STANDALONE" sample_found

unfoldable pub computes : Unit {0}
unfolding new_manager state_of normalize_configuration_mode discover_sriov_devices add_pfs add_vfs
    pf_list pf_info device_name replace_all parse_int digits insert
computes = tt

made :
    new_manager sample_host {C = Unit {0}} {S = Unit {0}} tt
      (some (record { flags = some sample_flags }))
      (some tt)
      none
    ≡ ok (sample_manager, (tt, tt))
unfolding computes
made = refl

-- The manager after NewManager.
pub sample-Reached : (W : Type 0) → Reached (Unit {0}) W sample_host tt sample_manager
sample-Reached W =
    created (some (record { flags = some sample_flags })) (some tt) none sample_manager (tt, tt)
      made
