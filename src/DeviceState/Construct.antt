-- ===== src/DeviceState/Construct.antt =====
-- pkg/devicestate/state.go: NewManager.
pub mod Reached
pub mod Sample
mod Tests
use k8snetworkplumbingwg_dra.Common.{
  String, Option, none, some, Map, if◌then◌else◌, ◌==◌, eq_string, [], Result, ok, err, panic,
  Error, plain, quote,
}
use k8snetworkplumbingwg_dra.Kube.{Device}
use k8snetworkplumbingwg_dra.Types.Config.{Config, Flags}
use k8snetworkplumbingwg_dra.Host.Sysfs.{on_value}
use k8snetworkplumbingwg_dra.DeviceState.State.{Manager}
use k8snetworkplumbingwg_dra.DeviceState.Discovery.{DiscoveryHost, discover_sriov_devices}

unfoldable pub normalize_configuration_mode : String → Result String
normalize_configuration_mode mode =
    if mode == ""
    then ok "STANDALONE"
    else if mode == "STANDALONE"
    then ok "STANDALONE"
    else if mode == "MULTUS"
    then ok "MULTUS"
    else err (plain "unsupported configuration mode %q, expected %q or %q")

abbrev pub unchanged : Error → Error
unchanged e = e

abbrev pub non_nil : {A : Type 0} → String → Option A → Result A
non_nil text none = err (plain text)
non_nil text (some a) = ok a

abbrev or_new : {A : Type 0} → A → Option A → A
or_new a none = a
or_new a (some b) = b

module _ (host : DiscoveryHost) where
  abbrev pub manager_of : Flags → String → Map String Device → Manager
  manager_of flags mode allocatable = record {
    default_interface_prefix = flags.default_interface_prefix;
    allocatable = allocatable;
    policy_attr_keys = [];
    configuration_mode = mode;
    iommu_available = host.is_iommufd_available;
  }

  -- The manager's own state, for flags that are given.
  unfoldable pub state_of : Flags → Result Manager
  state_of flags =
      on_value unchanged (normalize_configuration_mode flags.configuration_mode) (λ mode.
        on_value (quote "error enumerating all possible devices: %v") (discover_sriov_devices host)
          (λ allocatable. ok (manager_of flags mode allocatable)))

  module _ {C S : Type 0} (new_device_info_store : S) where
    -- With the CDI handler and the device-info store that the manager uses. Each argument may be nil.
    unfoldable pub new_manager : Option Config → Option C → Option S → Result (Manager × (C × S))
    new_manager config cdi store =
        on_value unchanged (non_nil "config must not be nil" config) (λ c.
          on_value unchanged (non_nil "config flags must not be nil" c.flags) (λ flags.
            on_value unchanged (non_nil "cdi handler must not be nil" cdi) (λ handler.
              on_value unchanged (state_of flags)
                (λ s. ok (s, (handler, or_new new_device_info_store store))))))
