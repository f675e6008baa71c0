-- ===== src/Controller/Filter/Tests.antt =====
-- A device and filters for it.
use k8snetworkplumbingwg_dra.Common.{String, none, some, true, [], ◌∷◌, ◌≡◌, ◌↔◌, ◌⊎◌}
use k8snetworkplumbingwg_dra.Kube.{Device, DeviceAttribute}
use k8snetworkplumbingwg_dra.Consts.{attribute_vendor_id, attribute_pf_name}
use k8snetworkplumbingwg_dra.Controller.Objects.{ResourceFilter}
use k8snetworkplumbingwg_dra.Controller.Filter.{device_matches_filters}
use k8snetworkplumbingwg_dra.Controller.Filter.Spec.{MeetsSome, device_matches_filters_iff}

abbrev text : String → DeviceAttribute
text s = record { int_value = none; bool_value = none; string_value = some s; version_value = none }

abbrev device : Device
device = record {
  name = "vf0";
  attributes = (attribute_vendor_id, text "8086") ∷ (attribute_pf_name, text "eth0") ∷ [];
}

abbrev by_vendor : ResourceFilter
by_vendor = record {
  vendors = "15b3" ∷ "8086" ∷ [];
  devices = [];
  pci_addresses = [];
  pf_names = "eth0" ∷ [];
  pf_pci_addresses = [];
  drivers = "vfio-pci" ∷ [];
  link_type = "";
}

device_matches_filters_iff_example :
    (device_matches_filters device (by_vendor ∷ []) ≡ true)
    ↔ ((by_vendor ∷ [] ≡ []) ⊎ MeetsSome device (by_vendor ∷ []))
device_matches_filters_iff_example = device_matches_filters_iff device (by_vendor ∷ [])
