-- ===== src/Controller/Policy/Tests.antt =====
-- Two policies for one device.
use k8snetworkplumbingwg_dra.Common.{
  String, none, some, true, List, [], ◌∷◌, Map, lookup, ◌≡◌, refl, ok, eq_string,
}
use k8snetworkplumbingwg_dra.Common.{err, plain, is_some}
use k8snetworkplumbingwg_dra.DeviceState.Advertise.{Republish, get_advertised_devices}
use k8snetworkplumbingwg_dra.Controller.Policy.{matching_policies, reconcile}
use k8snetworkplumbingwg_dra.Controller.Policy.Discovered.{reconcile-discovered}
use k8snetworkplumbingwg_dra.DeviceState.Discovery.Found.{last_named, all_vfs, pfs_of}
use k8snetworkplumbingwg_dra.DeviceState.Construct.Sample.{
  sample_host, sample_manager, sample-Reached,
}
use k8snetworkplumbingwg_dra.Kube.{Device}
use k8snetworkplumbingwg_dra.Controller.Objects.{
  LabelSelector, SriovResourcePolicy, DeviceAttributesObject,
}
use k8snetworkplumbingwg_dra.Controller.Policy.{AsSelector, sort_by, get_policy_device_map}
use k8snetworkplumbingwg_dra.Controller.Policy.Match.{
  first_policy, for_device, lookup-get_policy_device_map,
}

abbrev device : Device
device = record { name = "vf0"; attributes = [] }

abbrev allocatable : Map String Device
allocatable = ("vf0", device) ∷ []

abbrev selector : LabelSelector
selector = record { match_labels = []; match_expressions = [] }

-- A selector that selects everything.
abbrev as_selector : AsSelector
as_selector s = ok (λ labels. true)

abbrev objects : List DeviceAttributesObject
objects =
    record {
      name = "attributes";
      labels = [];
      attributes =
          (
            "example.com/a",
            record {
              int_value = none;
              bool_value = some true;
              string_value = none;
              version_value = none;
            },
          )
          ∷ [];
    }
    ∷ []

abbrev policies : List SriovResourcePolicy
policies =
    record { name = "b"; node_selector = none; configs = [] }
    ∷ record {
      name = "a";
      node_selector = none;
      configs = record { device_attributes_selector = some selector; resource_filters = [] } ∷ [];
    }
    ∷ []

lookup-get_policy_device_map_example :
    lookup "vf0" (get_policy_device_map as_selector objects policies allocatable)
    ≡ for_device as_selector objects
        (λ d. first_policy as_selector objects d (sort_by (λ p. p.name) policies))
        (lookup "vf0" allocatable)
lookup-get_policy_device_map_example =
    lookup-get_policy_device_map as_selector objects policies allocatable "vf0" (refl, tt)

-- A publication that fails.
abbrev refused : Republish (Unit {0})
refused = some (λ s w. (err (plain "no connection"), w))

reconcile-discovered_example :
    is_some (
      lookup "0000-01-00-2" (
        get_advertised_devices
          (reconcile as_selector refused
            (ok [])
            (ok policies)
            (ok objects)
            (sample_manager, tt)).1.0))
    ≡ is_some (
        for_device as_selector objects
          (λ d.
            first_policy as_selector objects d
              (sort_by (λ p. p.name) (matching_policies as_selector [] policies)))
          (last_named sample_host "0000-01-00-2"
            (all_vfs sample_host (pfs_of sample_host sample_host.pci))))
reconcile-discovered_example =
    reconcile-discovered as_selector refused sample_host tt [] policies objects sample_manager tt
      "0000-01-00-2" (sample-Reached (Unit {0}))
