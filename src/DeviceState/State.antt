-- ===== src/DeviceState/State.antt =====
-- pkg/devicestate/state.go: the state of the Manager. Its clients (the Kubernetes API, the host,
-- the CDI cache, the device-info store, the republish callback) are arguments of the operations.
use k8snetworkplumbingwg_dra.Common.{String, Bool, Option, Map, lookup, ◌==◌, eq_string, ◌||◌}
use k8snetworkplumbingwg_dra.Kube.{Device}

pub record Manager : Type 0 where
  pub default_interface_prefix : String
  pub allocatable : Map String Device
  -- Presence of a device name says that the device is advertised.
  pub policy_attr_keys : Map String (Map String Bool)
  pub configuration_mode : String
  pub iommu_available : Bool

unfoldable pub get_allocatable_device_by_name : Manager → String → Option Device
get_allocatable_device_by_name s name = lookup name s.allocatable

unfoldable pub is_standalone_mode : Manager → Bool
is_standalone_mode s = s.configuration_mode == "" || s.configuration_mode == "STANDALONE"

unfoldable pub is_multus_mode : Manager → Bool
is_multus_mode s = s.configuration_mode == "MULTUS"
