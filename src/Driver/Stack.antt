-- ===== src/Driver/Stack.antt =====
-- The implementations behind the driver's interfaces, put together: the host (pkg/host)
-- under the device-state manager (pkg/devicestate), and the manager under the hooks.
pub mod Usable
pub mod Restored
mod Tests
use k8snetworkplumbingwg_dra.Common.{Action}
use k8snetworkplumbingwg_dra.Kube.{ResourceClaim}
use k8snetworkplumbingwg_dra.Api.Opaque.{Decoder}
use k8snetworkplumbingwg_dra.Cdi.{create_global_pod_spec_file}
use k8snetworkplumbingwg_dra.Host.Os.{Os, reading}
use k8snetworkplumbingwg_dra.Host.Sysfs.{Sysfs, Providers}
use k8snetworkplumbingwg_dra.Host.Pci.{
  is_sriov_vf, try_get_pf_interface_name, get_nic_sriov_mode, get_numa_node, get_pcie_root,
  get_link_type, get_vf_list,
}
use k8snetworkplumbingwg_dra.Host.Vfio.{
  get_vfio_device_file, get_vfio_cdev_path, is_iommufd_available, get_rdma_devices_for_pci,
  verify_rdma_capability, get_rdma_char_devices,
}
use k8snetworkplumbingwg_dra.Host.Modules.{ensure_vhost_modules_loaded}
use k8snetworkplumbingwg_dra.Host.Driver.{bind_device_driver, restore_device_driver}
use k8snetworkplumbingwg_dra.DeviceState.Discovery.{DiscoveryHost}
use k8snetworkplumbingwg_dra.DeviceState.State.{Manager, get_allocatable_device_by_name}
use k8snetworkplumbingwg_dra.DeviceState.Services.{HostInterface, Services}
use k8snetworkplumbingwg_dra.DeviceState.Prepare.Claim.{prepare_devices_for_claim, unprepare}
use k8snetworkplumbingwg_dra.Driver.Hook.{DeviceState}

-- A lookup reads the host and leaves it as it is.
module _ {W : Type 0} (os : Os W) (sys : Sysfs W) (providers : Providers W) where
  -- The part of host.Interface that the preparation of claims uses.
  abbrev pub claim_host : HostInterface W
  claim_host = record {
    bind_device_driver = bind_device_driver os;
    restore_device_driver = restore_device_driver os;
    ensure_vhost_modules_loaded = ensure_vhost_modules_loaded os;
    get_vfio_device_file = λ address. reading (get_vfio_device_file sys address);
    get_vfio_cdev_path = λ address. reading (get_vfio_cdev_path sys address);
    get_rdma_devices_for_pci = get_rdma_devices_for_pci providers;
    get_rdma_char_devices = λ name. reading (get_rdma_char_devices providers name);
  }

-- The part of host.Interface that discovery uses, on the host as it is.
abbrev pub discovery_host : {W : Type 0} → Sysfs W → Providers W → W → DiscoveryHost
discovery_host sys providers w = record {
  pci = providers.pci w;
  is_sriov_vf = λ address. is_sriov_vf sys address w;
  try_get_pf_interface_name = λ address. try_get_pf_interface_name sys providers address w;
  get_nic_sriov_mode = λ address. get_nic_sriov_mode sys providers address w;
  get_numa_node = λ address. get_numa_node sys address w;
  get_pcie_root = λ address. get_pcie_root sys providers address w;
  get_link_type = λ address. get_link_type sys providers address w;
  get_vf_list = λ address. get_vf_list sys address w;
  verify_rdma_capability = λ address. verify_rdma_capability providers address w;
  is_iommufd_available = is_iommufd_available sys w;
}

abbrev pub device_state :
    {W : Type 0}
    → Services W
    → Decoder
    → Manager
    → (ResourceClaim → Action W (Unit {0}))
    → DeviceState W
device_state services decoder s update_status = record {
  get_allocatable_device_by_name = get_allocatable_device_by_name s;
  prepare_devices_for_claim = prepare_devices_for_claim services decoder s;
  unprepare = unprepare services s;
  create_global_pod_spec_file = create_global_pod_spec_file services.cache;
  update_claim_status_with_retry = update_status;
}
