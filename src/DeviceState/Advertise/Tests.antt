-- ===== src/DeviceState/Advertise/Tests.antt =====
-- A manager with one device and a policy for it, and the theorems at this input.
use k8snetworkplumbingwg_dra.Common.{
  String, Bool, true, false, none, some, [], ◌∷◌, Map, lookup, insert, delete, eq_string, ◌≡◌, refl,
  option_eq, ok, ℕ, suc, arith,
}
use k8snetworkplumbingwg_dra.Kube.{Device, DeviceAttribute, Attributes, device_attribute_equal}
use k8snetworkplumbingwg_dra.Consts.{attribute_pci_address}
use k8snetworkplumbingwg_dra.DeviceState.State.{Manager}
use k8snetworkplumbingwg_dra.DeviceState.Advertise.{
  PolicyDevices, is_reserved, clear_policy_attributes, clear_unmatched, delete_keys,
  apply_attribute, apply_attributes, drop_stale, clear_stale, apply_policy, advertised_set_changed,
  update_devices, Republish, update_policy_devices, advertise, get_advertised_devices,
}
use k8snetworkplumbingwg_dra.DeviceState.Advertise.Reserved.{
  IsIntact, attr, owned, update_policy_devices-IsIntact,
}
use k8snetworkplumbingwg_dra.DeviceState.Advertise.Values.{update_devices-attr}
use k8snetworkplumbingwg_dra.DeviceState.Advertise.Withdrawal.{update_policy_devices-withdraws}

abbrev text : String → DeviceAttribute
text s = record { int_value = none; bool_value = none; string_value = some s; version_value = none }

abbrev device : Device
device = record {
  name = "vf0";
  attributes = (attribute_pci_address, text "0000:01:00.1") ∷ ("example.com/old", text "1") ∷ [];
}

abbrev manager : Map String (Map String Bool) → Manager
manager owned_keys = record {
  default_interface_prefix = "net";
  allocatable = ("vf0", device) ∷ [];
  policy_attr_keys = owned_keys;
  configuration_mode = "STANDALONE";
  iommu_available = false;
}

abbrev before : Manager
before = manager (("vf0", ("example.com/old", true) ∷ []) ∷ [])

-- Sets a new attribute, drops the old one, and tries to change the PCI address.
abbrev attributes : Attributes
attributes = ("example.com/new", text "2") ∷ (attribute_pci_address, text "none") ∷ []

abbrev policy : PolicyDevices
policy = ("vf0", attributes) ∷ []

-- Counts the publications.
abbrev count : Republish ℕ
count = some (λ s w. (ok tt, suc w))

program : Unit {0}
unfolding update_policy_devices update_devices clear_unmatched clear_policy_attributes delete_keys
    apply_policy apply_attributes apply_attribute clear_stale drop_stale advertised_set_changed
    is_reserved advertise get_advertised_devices device_attribute_equal option_eq lookup insert
    delete
program = tt

update_run : update_policy_devices count policy (before, 0) ≡ (
  ok tt,
  (
    record before {
      allocatable =
          (
            "vf0",
            record device {
              attributes =
                  (attribute_pci_address, text "0000:01:00.1") ∷ ("example.com/new", text "2") ∷ [];
            },
          )
          ∷ [];
      policy_attr_keys = ("vf0", ("example.com/new", true) ∷ []) ∷ [];
    },
    1,
  ),
)
unfolding program
update_run = refl

old_not_reserved : is_reserved "example.com/old" ≡ false
unfolding is_reserved
old_not_reserved = refl

before-not_owned : (n k : String) → is_reserved k ≡ true → owned before.policy_attr_keys n k ≡ false
unfolding lookup
before-not_owned n k r =
    ground
      (arith, old_not_reserved, eq_string.beq_iff "example.com/old" k, eq_string.beq_iff "vf0" n)

before-IsIntact : IsIntact before.allocatable before
before-IsIntact = record { not_owned = before-not_owned; kept = λ n k r. refl }

update_policy_devices-IsIntact_example :
    IsIntact before.allocatable (update_policy_devices count policy (before, 0)).1.0
update_policy_devices-IsIntact_example =
    update_policy_devices-IsIntact count policy before.allocatable before 0 before-IsIntact

update_devices-attr_example :
    attr (update_devices policy before).1.allocatable "vf0" "example.com/old" ≡ none
unfolding lookup
update_devices-attr_example =
    update_devices-attr policy before "vf0" attributes device "example.com/old" (refl, tt)
      (refl, (refl, tt)) refl refl old_not_reserved

-- One device is advertised before, none after, and nothing is published.
update_policy_devices-withdraws_example :
    (update_policy_devices count [] (manager (("vf0", []) ∷ []), 0) ≡ (ok tt, (manager [], 0)))
    × (get_advertised_devices (manager []) ≡ [])
update_policy_devices-withdraws_example =
    update_policy_devices-withdraws count (manager (("vf0", []) ∷ [])) 0 (refl, tt)
