-- ===== src/DeviceState/Prepare.antt =====
-- pkg/devicestate/state.go: applyConfigOnDevice. The address
-- of a new PreparedDevice is a counter, since a pointer to it is kept.
pub mod Claim
pub mod Devices
pub mod Restored
mod Tests
use Prim.Native.String.{◌++◌ as concat}
use k8snetworkplumbingwg_dra.Common.{
  String, Option, none, some, Bool, true, false, not, ℕ, suc, List, [], ◌∷◌, ◌++◌, if◌then◌else◌,
  ◌==◌, ◌&&◌, eq_string, Map, lookup, insert, Result, ok, err, panic, Error, plain, wrap, quote,
  Action, ◌>>=◌, ◌>>◌, and_then, pure, throw, crash, map_err, deref,
}
use k8snetworkplumbingwg_dra.Kube.{
  Device, DeviceAttribute, Attributes, AllocatedDeviceStatus, DeviceRequestAllocationResult,
  ResourceClaim, NamespacedObject,
}
use k8snetworkplumbingwg_dra.Consts.{
  attribute_pci_address, attribute_rdma_capable, attribute_interface_name,
}
use k8snetworkplumbingwg_dra.Api.VfConfig.{VfConfig, default_vf_config, normalize}
use k8snetworkplumbingwg_dra.Api.Opaque.{driver_name}
use k8snetworkplumbingwg_dra.Types.ClaimStatus.Key.{upsert_device_status}
use k8snetworkplumbingwg_dra.Types.Prepared.{
  PreparedDevice, PreparedDevices, DeviceNode, ContainerEdits,
}
use k8snetworkplumbingwg_dra.Cdi.{get_claim_devices, get_pod_spec_name}
use k8snetworkplumbingwg_dra.DeviceState.State.{Manager, is_standalone_mode, is_multus_mode}
use k8snetworkplumbingwg_dra.DeviceState.Services.{Services}
use k8snetworkplumbingwg_dra.DeviceState.DeviceInfo.{extract_multus_device_info_attrs, string_value}
use k8snetworkplumbingwg_dra.DeviceState.Edits.{
  Edits, is_true, all_edits, net_conf, add_edits, node, variable,
}

-- A map's clone has the same entries.
unfoldable pub build_metadata_attributes : Attributes → String → Attributes
build_metadata_attributes attributes if_name =
    if if_name == ""
    then attributes
    else insert attribute_interface_name
        (record {
          int_value = none;
          bool_value = none;
          string_value = some if_name;
          version_value = none;
        })
        attributes

-- `if err := m; err != nil { return …, h(err) }`
abbrev pub on_error : {W A : Type 0} → (Error → Action W A) → Action W A → Action W A
on_error h m w = let (r, w') = m w in elim r [ err e ↦ h e w' | other ↦ (other, w') ]

module _ {W : Type 0} (services : Services W) where
  abbrev restore_driver_on_error : {A : Type 0} → VfConfig → String → String → Error → Action W A
  restore_driver_on_error config pci_address original cause =
      if config.driver == ""
      then throw cause
      else on_error
          (λ _.
            throw
              (wrap "%w; additionally failed to restore original driver for device %s: %v" cause))
          (services.host.restore_device_driver pci_address original)
        >> throw cause

  abbrev pub first_of : List String → Action W String
  first_of [] = crash
  first_of (x ∷ xs) = pure x

  -- The interface name, and whether the index was used for it.
  abbrev pub names_itself : Manager → VfConfig → Bool
  names_itself s config = is_standalone_mode s && config.if_name == ""

  abbrev pub interface_name : Manager → VfConfig → ℕ → String
  interface_name s config index =
      if names_itself s config
      then concat s.default_interface_prefix (services.itoa index)
      else config.if_name

  abbrev multus_info : Manager → Device → String × String
  multus_info s device_info =
      if is_multus_mode s
      then elim (extract_multus_device_info_attrs device_info.attributes) [
        | some pair ↦ pair
        | none ↦ ("", "")
      ]
      else ("", "")

  abbrev prepared :
      Manager
      → ResourceClaim
      → VfConfig
      → DeviceRequestAllocationResult
      → Device
      → ℕ
      → ℕ
      → String
      → String
      → String
      → Edits
      → String
      → PreparedDevice
  prepared s claim config result device_info address index pci_address conf original edits pod =
      record {
        address = address;
        device = record {
          request_names = result.request ∷ [];
          pool_name = result.pool;
          device_name = result.device;
          cdi_device_ids =
              get_claim_devices services.cache claim.uid result.device
              ∷ get_pod_spec_name services.cache pod
              ∷ [];
        };
        claim_namespaced_name = record {
          name = claim.name;
          namespace = claim.namespace;
          uid = claim.uid;
        };
        container_edits = record { env = edits.1; device_nodes = edits.0 };
        config = some config;
        if_name = interface_name s config index;
        pci_address = pci_address;
        multus_device_id = (multus_info s device_info).1;
        multus_resource_name = (multus_info s device_info).0;
        device_attributes =
            build_metadata_attributes device_info.attributes (interface_name s config index);
        network_device_data = none;
        pod_uid = pod;
        net_attach_def_config = conf;
        original_driver = original;
      }

  module _ (s : Manager) (claim : ResourceClaim) (config : VfConfig)
      (result : DeviceRequestAllocationResult) (address index : ℕ) where
    module _ (device_info : Device) where
      abbrev pub bound_device : String → String → Action W String
      bound_device pci_address conf =
          map_err (wrap "error binding device %s to driver: %w")
            (services.host.bind_device_driver pci_address config)

      abbrev pub guarded_edits : String → String → Action W Edits
      guarded_edits pci_address original =
          on_error (restore_driver_on_error config pci_address original)
            (all_edits services s config device_info pci_address result.device)

      abbrev pub with_pod : String → String → String → Edits → String → Action W PreparedDevice
      with_pod pci_address conf original edits pod = pure (
          prepared s claim config result device_info address index pci_address conf original edits
            pod)

      abbrev pub with_edits : String → String → String → Edits → Action W PreparedDevice
      with_edits pci_address conf original edits =
          first_of claim.reserved_for >>= with_pod pci_address conf original edits

      abbrev pub with_original : String → String → String → Action W PreparedDevice
      with_original pci_address conf original =
          guarded_edits pci_address original >>= with_edits pci_address conf original

      abbrev pub with_conf : String → String → Action W PreparedDevice
      with_conf pci_address conf = bound_device pci_address conf >>= with_original pci_address conf

      abbrev pub with_address : String → Action W PreparedDevice
      with_address pci_address =
          net_conf services s claim config pci_address >>= with_conf pci_address

      abbrev pub address_of : Action W String
      address_of = deref (string_value (lookup attribute_pci_address device_info.attributes))

    abbrev pub apply_on : Option Device → Action W PreparedDevice
    apply_on none = throw (plain "device %s not found in allocatable devices")
    apply_on (some device_info) = address_of device_info >>= with_address device_info

  -- The caller moves the index on when `names_itself` says that it was used.
  unfoldable pub apply_config_on_device :
      Manager
      → ResourceClaim
      → VfConfig
      → DeviceRequestAllocationResult
      → ℕ
      → ℕ
      → Action W PreparedDevice
  apply_config_on_device s claim config result address index =
      apply_on s claim config result address index (lookup result.device s.allocatable)
