-- ===== src/DeviceState/Construct/Tests.antt =====
-- Discovery on the sample host, and the states of its manager after a policy.
use k8snetworkplumbingwg_dra.Common.{
  some, [], ◌∷◌, lookup, keys, eq_string, none, ◌≡◌, refl, ok, eq_string,
}
use k8snetworkplumbingwg_dra.Consts.{attribute_pci_address, reserved_attributes}
use k8snetworkplumbingwg_dra.Host.Pci.{VfInfo}
use k8snetworkplumbingwg_dra.DeviceState.DeviceInfo.{string_value}
use k8snetworkplumbingwg_dra.DeviceState.Advertise.{PolicyDevices, Republish, update_policy_devices}
use k8snetworkplumbingwg_dra.DeviceState.Advertise.Values.{Distinct}
use k8snetworkplumbingwg_dra.DeviceState.Discovery.{
  device_name, discover_sriov_devices, vf_device, pf_at,
}
use k8snetworkplumbingwg_dra.DeviceState.Discovery.Found.{
  last_named, all_vfs, pfs_of, discover_sriov_devices-lookup,
}
use k8snetworkplumbingwg_dra.DeviceState.Discovery.Reserves.{discover_sriov_devices-attributes}
use k8snetworkplumbingwg_dra.DeviceState.Construct.Reached.{
  updated, IsSound, Reached-IsSound, Reached-pci_address,
}
use k8snetworkplumbingwg_dra.DeviceState.Construct.Sample.{
  sample_host, sample_found, sample_manager, sample-Reached, computes, pf_device, first_vf,
}

discover_run : discover_sriov_devices sample_host ≡ ok sample_found
unfolding computes
discover_run = refl

discover_sriov_devices-lookup_example :
    Distinct (keys sample_found)
    × (lookup "0000-01-00-2" sample_found
        ≡ last_named sample_host "0000-01-00-2"
            (all_vfs sample_host (pfs_of sample_host sample_host.pci)))
discover_sriov_devices-lookup_example =
    discover_sriov_devices-lookup sample_host sample_found "0000-01-00-2" discover_run

there :
    lookup "0000-01-00-1" sample_manager.allocatable
    ≡ some (vf_device sample_host (pf_at sample_host pf_device) first_vf)
unfolding computes lookup
there = refl

discover_sriov_devices-attributes_example :
    (device_name first_vf ≡ "0000-01-00-1")
    × (keys (vf_device sample_host (pf_at sample_host pf_device) first_vf).attributes
        ≡ reserved_attributes)
discover_sriov_devices-attributes_example =
    discover_sriov_devices-attributes sample_host sample_found "0000-01-00-1"
      (vf_device sample_host (pf_at sample_host pf_device) first_vf) discover_run there

-- A policy that advertises one of the VFs.
abbrev policy : PolicyDevices
policy = ("0000-01-00-1", []) ∷ []

abbrev quiet : Republish (Unit {0})
quiet = none

Reached-IsSound_example :
    IsSound sample_host (update_policy_devices quiet policy (sample_manager, tt)).1.0
Reached-IsSound_example =
    Reached-IsSound sample_host tt (update_policy_devices quiet policy (sample_manager, tt)).1.0
      (updated sample_manager quiet policy tt (sample-Reached (Unit {0})))

Reached-pci_address_example :
    (vf : VfInfo) × ((string_value (
          lookup attribute_pci_address
            (vf_device sample_host (pf_at sample_host pf_device) first_vf).attributes)
        ≡ some vf.pci_address)
      × (device_name vf ≡ "0000-01-00-1"))
Reached-pci_address_example =
    Reached-pci_address sample_host tt sample_manager "0000-01-00-1"
      (vf_device sample_host (pf_at sample_host pf_device) first_vf) (sample-Reached (Unit {0}))
      there
