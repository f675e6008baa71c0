-- ===== src/Controller/Filter.antt =====
-- pkg/controller/resourcepolicycontroller.go: deviceMatchesFilters and deviceMatchesFilter.
pub mod Spec
mod Tests
use k8snetworkplumbingwg_dra.Common.{
  String, Option, none, some, Bool, true, false, not, List, [], ◌∷◌, lookup, contains,
  if◌then◌else◌, ◌==◌, eq_string,
}
use k8snetworkplumbingwg_dra.Kube.{Device, DeviceAttribute}
use k8snetworkplumbingwg_dra.Consts.{
  attribute_vendor_id, attribute_device_id, attribute_pci_address, attribute_pf_name,
  attribute_pf_pci_address, attribute_link_type,
}
use k8snetworkplumbingwg_dra.Controller.Objects.{ResourceFilter, normalize_link_type}

-- stringSliceContains
unfoldable pub string_slice_contains : List String → String → Bool
string_slice_contains slice item = contains slice item

abbrev pub non_empty : List String → Bool
non_empty [] = false
non_empty (x ∷ xs) = true

-- `attr.StringValue` of an attribute that may be absent.
abbrev pub string_value_of : Option DeviceAttribute → Option String
string_value_of none = none
string_value_of (some a) = a.string_value

-- The body of one `if len(...) > 0` block: whether it returns false.
abbrev pub rejects : List String → Option String → Bool
rejects wanted none = true
rejects wanted (some value) = not (string_slice_contains wanted value)

abbrev pub rejects_link : String → Option String → Bool
rejects_link wanted none = true
rejects_link wanted (some value) = not (normalize_link_type wanted == value)

-- Whether the block for a list of wanted values makes the filter fail.
unfoldable pub blocked : List String → Option String → Bool
unfolding string_slice_contains
blocked wanted value = if non_empty wanted then rejects wanted value else false

unfoldable pub link_blocked : String → Option String → Bool
link_blocked wanted value = if not (wanted == "") then rejects_link wanted value else false

-- The string value of a device's attribute.
abbrev pub value_at : Device → String → Option String
value_at device key = string_value_of (lookup key device.attributes)

unfoldable pub device_matches_filter : Device → ResourceFilter → Bool
device_matches_filter device filter =
    if blocked filter.vendors (value_at device attribute_vendor_id)
    then false
    else if blocked filter.devices (value_at device attribute_device_id)
    then false
    else if blocked filter.pci_addresses (value_at device attribute_pci_address)
    then false
    else if blocked filter.pf_names (value_at device attribute_pf_name)
    then false
    else if blocked filter.pf_pci_addresses (value_at device attribute_pf_pci_address)
    then false
    else if link_blocked filter.link_type (value_at device attribute_link_type)
    then false
    else true

-- The loop over the filters.
unfoldable pub some_filter_matches : Device → List ResourceFilter → Bool
some_filter_matches device [] = false
some_filter_matches device (filter ∷ filters) =
    let rest = some_filter_matches device filters in
    if device_matches_filter device filter then true else rest

unfoldable pub device_matches_filters : Device → List ResourceFilter → Bool
device_matches_filters device [] = true
device_matches_filters device (filter ∷ filters) = some_filter_matches device (filter ∷ filters)
