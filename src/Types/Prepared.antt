-- ===== src/Types/Prepared.antt =====
-- pkg/types/types.go: prepared devices and the maps that hold them.
use k8snetworkplumbingwg_dra.Common.{String, Option, none, some, List, ℕ, Map}
use k8snetworkplumbingwg_dra.Kube.{Attributes, NetworkDeviceData, NamespacedObject}
use k8snetworkplumbingwg_dra.Api.VfConfig.{VfConfig}

-- drapbv1.Device
pub record PluginDevice : Type 0 where
  pub request_names : List String
  pub pool_name : String
  pub device_name : String
  pub cdi_device_ids : List String

-- cdispec.DeviceNode; every node of this code has the type "c".
pub record DeviceNode : Type 0 where
  pub path : String
  pub host_path : String

pub record ContainerEdits : Type 0 where
  pub env : List String
  pub device_nodes : List DeviceNode

-- The `address` stands for the identity of the object that the pointers of the maps share.
pub record PreparedDevice : Type 0 where
  pub address : ℕ
  pub device : PluginDevice
  pub claim_namespaced_name : NamespacedObject
  pub container_edits : ContainerEdits
  pub config : Option VfConfig
  pub if_name : String
  pub pci_address : String
  pub multus_device_id : String
  pub multus_resource_name : String
  pub device_attributes : Attributes
  pub network_device_data : Option NetworkDeviceData
  pub pod_uid : String
  pub net_attach_def_config : String
  pub original_driver : String

-- A slice of pointers, any of which may be nil.
abbrev pub PreparedDevices : Type 0
PreparedDevices = List (Option PreparedDevice)

abbrev pub PreparedDevicesByClaimId : Type 0
PreparedDevicesByClaimId = Map String PreparedDevices

abbrev pub PreparedClaimsByPodUid : Type 0
PreparedClaimsByPodUid = Map String PreparedDevicesByClaimId

-- kubeletplugin.Device, with its DeviceMetadata.
pub record KubeletPluginDevice : Type 0 where
  pub requests : List String
  pub pool_name : String
  pub device_name : String
  pub cdi_device_ids : List String
  pub attributes : Attributes
  pub network_data : Option NetworkDeviceData

unfoldable pub metadata_attributes : PreparedDevice → Attributes
metadata_attributes p = p.device_attributes

abbrev or_stored : PreparedDevice → Option NetworkDeviceData → Option NetworkDeviceData
or_stored p none = p.network_device_data
or_stored p (some given) = some given

unfoldable pub to_kubelet_plugin_device :
    PreparedDevice → Option NetworkDeviceData → KubeletPluginDevice
to_kubelet_plugin_device p network_data = record {
  requests = p.device.request_names;
  pool_name = p.device.pool_name;
  device_name = p.device.device_name;
  cdi_device_ids = p.device.cdi_device_ids;
  attributes = metadata_attributes p;
  network_data = or_stored p network_data;
}

unfoldable pub set_network_device_data : Option NetworkDeviceData → PreparedDevice → PreparedDevice
set_network_device_data network_data p = record p { network_device_data = network_data }
