-- ===== src/DeviceState/Services.antt =====
-- pkg/devicestate: what the Manager's operations call. The host is host.Interface of pkg/host,
-- the device-info store is the interface DeviceInfoStore; the rest are libraries.
use k8snetworkplumbingwg_dra.Common.{String, Bool, ℕ, List, Result, Action}
use k8snetworkplumbingwg_dra.Api.VfConfig.{VfConfig}
use k8snetworkplumbingwg_dra.Types.NetConf.{Json}
use k8snetworkplumbingwg_dra.Cdi.{Cache}

pub record HostInterface (W : Type 0) : Type 0 where
  pub bind_device_driver : String → VfConfig → Action W String
  pub restore_device_driver : String → String → Action W (Unit {0})
  pub ensure_vhost_modules_loaded : Action W (Unit {0})
  -- The path on the host and that in the container.
  pub get_vfio_device_file : String → Action W (String × String)
  pub get_vfio_cdev_path : String → Action W String
  pub get_rdma_devices_for_pci : String → W → List String
  pub get_rdma_char_devices : String → Action W (List String)

-- nettypes.DeviceInfo of the PCI type.
pub record DeviceInfo : Type 0 where
  pub pci_address : String
  pub rdma_device : String

pub record DeviceInfoStore (W : Type 0) : Type 0 where
  pub clean_device_info_for_dp : String → String → Action W (Unit {0})
  pub save_device_info_for_dp : String → String → DeviceInfo → Action W (Unit {0})

-- `get_net_attach_def` reads Spec.Config of a NetworkAttachmentDefinition by namespace and name;
-- `json` is encoding/json on objects, and `marshal` is json.Marshal of a config. The others are
-- functions of the packages strings, path/filepath and strconv.
pub record Services (W : Type 0) : Type 0 where
  pub host : HostInterface W
  pub cache : Cache W
  pub store : DeviceInfoStore W
  pub get_net_attach_def : String → String → Action W String
  pub json : Json
  pub marshal : VfConfig → Result String
  pub underscored : String → String
  pub has_prefix : String → String → Bool
  pub base : String → String
  pub join : List String → String
  pub itoa : ℕ → String
