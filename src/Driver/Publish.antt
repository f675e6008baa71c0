-- ===== src/Driver/Publish.antt =====
-- pkg/driver/driver.go: PublishResources and UpdateRequestMetadata.
pub mod Current
mod Tests
use k8snetworkplumbingwg_dra.Common.{
  String, Option, none, some, List, [], ◌∷◌, Map, Result, ok, err, plain, Action, throw,
}
use k8snetworkplumbingwg_dra.Kube.{Device}
use k8snetworkplumbingwg_dra.Types.Prepared.{KubeletPluginDevice}
use k8snetworkplumbingwg_dra.DeviceState.State.{Manager}
use k8snetworkplumbingwg_dra.DeviceState.Advertise.{get_advertised_devices}

-- resourceslice.Slice, Pool and DriverResources.
pub record Slice : Type 0 where
  pub devices : List Device

pub record Pool : Type 0 where
  pub slices : List Slice

pub record DriverResources : Type 0 where
  pub pools : Map String Pool

-- kubeletplugin.Helper. The metadata of a request is named by the claim's namespace, name and UID
-- and by the request's name.
pub record Helper (W : Type 0) : Type 0 where
  pub publish_resources : DriverResources → Action W (Unit {0})
  pub update_request_metadata :
      String → String → String → String → List KubeletPluginDevice → Action W (Unit {0})

-- The values, in the order of the iteration.
unfoldable pub values : Map String Device → List Device
values [] = []
values ((name, device) ∷ rest) = device ∷ values rest

-- One pool, of the node, with one slice.
abbrev pub resources_of : String → List Device → DriverResources
resources_of node_name devices = record {
  pools = (node_name, record { slices = record { devices = devices } ∷ [] }) ∷ [];
}

unfoldable pub publish_resources : {W : Type 0} → Helper W → String → Manager → Action W (Unit {0})
publish_resources helper node_name s =
    helper.publish_resources (resources_of node_name (values (get_advertised_devices s)))

-- The helper is nil before the plugin was started.
unfoldable pub update_request_metadata :
    {W : Type 0}
    → Option (Helper W)
    → String
    → String
    → String
    → String
    → List KubeletPluginDevice
    → Action W (Unit {0})
update_request_metadata none namespace name uid request devices =
    throw (plain "kubelet plugin helper is not initialized")
update_request_metadata (some helper) namespace name uid request devices =
    helper.update_request_metadata namespace name uid request devices
