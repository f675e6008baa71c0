-- ===== src/Cdi.antt =====
-- pkg/cdi/cdi.go: the specs that the handler writes to the CDI cache. The cache, and the names that
-- the CDI library makes, are arguments.
use Prim.Native.String.{◌++◌ as concat}
use k8snetworkplumbingwg_dra.Common.{
  String, Option, none, some, List, [], ◌∷◌, Result, ok, err, panic, quote, wrap, Action, throw,
  crash, map_err,
}
use k8snetworkplumbingwg_dra.Api.Opaque.{driver_name}
use k8snetworkplumbingwg_dra.Types.Prepared.{PreparedDevices, ContainerEdits}

pub record SpecDevice : Type 0 where
  pub name : String
  pub container_edits : ContainerEdits

-- cdispec.Spec of the handler's kind.
pub record Spec : Type 0 where
  pub version : String
  pub devices : List SpecDevice

-- The CDI library, for the handler's vendor and class. `join` is strings.Join with ",".
pub record Cache (W : Type 0) : Type 0 where
  pub minimum_required_version : Spec → Result String
  pub transient_spec_name : String → String
  pub qualified_name : String → String
  pub write_spec : Spec → String → Action W (Unit {0})
  pub remove_spec : String → Action W (Unit {0})
  pub join : List String → String

-- cdiCommonDeviceName
abbrev driver_file_name : String
driver_file_name = "dra-driver-sriov"

abbrev pub device_id : String → String → String
device_id claim_uid device = concat claim_uid (concat "-" device)

-- The loop of CreateClaimSpecFile; a nil device panics.
unfoldable pub spec_devices : String → PreparedDevices → Option (List SpecDevice)
spec_devices claim_uid [] = some []
spec_devices claim_uid (none ∷ ps) = none
spec_devices claim_uid (some p ∷ ps) =
    let rest = spec_devices claim_uid ps in
    elim rest [
      | none ↦ none
      | some ds ↦ some (
          record {
            name = device_id claim_uid p.device.device_name;
            container_edits = p.container_edits;
          }
          ∷ ds)
    ]

-- `new_cache` is cdiapi.NewCache for a directory of specs.
unfoldable pub new_handler : {W C : Type 0} → (String → Action W C) → String → Action W C
new_handler new_cache cdi_root_path =
    map_err (wrap "unable to create a new CDI cache: %w") (new_cache cdi_root_path)

module _ {W : Type 0} (cache : Cache W) where
  abbrev with_version : Spec → String → Result String → Action W (Unit {0})
  with_version spec name (ok version) = cache.write_spec (record spec { version = version }) name
  with_version spec name (err e) =
      throw (quote "failed to get minimum required CDI spec version: %v" e)
  with_version spec name panic = crash

  abbrev write_versioned : Spec → String → Action W (Unit {0})
  write_versioned spec name = with_version spec name (cache.minimum_required_version spec)

  abbrev write_devices_of : String → Option (List SpecDevice) → Action W (Unit {0})
  write_devices_of claim_uid none = crash
  write_devices_of claim_uid (some ds) =
      write_versioned (record { version = ""; devices = ds }) (cache.transient_spec_name claim_uid)

  unfoldable pub create_claim_spec_file : PreparedDevices → Action W (Unit {0})
  create_claim_spec_file [] = crash
  create_claim_spec_file (none ∷ ps) = crash
  create_claim_spec_file (some p ∷ ps) =
      write_devices_of p.claim_namespaced_name.uid
        (spec_devices p.claim_namespaced_name.uid (some p ∷ ps))

  unfoldable pub create_global_pod_spec_file : String → List String → Action W (Unit {0})
  create_global_pod_spec_file pod_uid pci_addresses =
      write_versioned
        (record {
          version = "";
          devices =
              record {
                name = pod_uid;
                container_edits = record {
                  env = concat "SRIOVNETWORK_PCI_ADDRESSES=" (cache.join pci_addresses) ∷ [];
                  device_nodes = [];
                };
              }
              ∷ [];
        })
        (cache.transient_spec_name pod_uid)

  unfoldable pub delete_spec_file : String → Action W (Unit {0})
  delete_spec_file uid = cache.remove_spec (cache.transient_spec_name uid)

  unfoldable pub get_claim_devices : String → String → String
  get_claim_devices claim_uid device = cache.qualified_name (device_id claim_uid device)

  unfoldable pub get_pod_spec_name : String → String
  get_pod_spec_name pod_uid = cache.qualified_name pod_uid

  abbrev common_spec : String → String → Spec
  common_spec node_name version = record {
    version = version;
    devices =
        record {
          name = driver_file_name;
          container_edits = record {
            env =
                concat "KUBERNETES_NODE_NAME=" node_name
                ∷ concat "DRA_RESOURCE_DRIVER_NAME=" driver_name
                ∷ [];
            device_nodes = [];
          };
        }
        ∷ [];
  }

  abbrev write_named : Spec → Result String → Action W (Unit {0})
  write_named spec (ok name) = cache.write_spec spec name
  write_named spec (err e) = throw (wrap "failed to generate Spec name: %w" e)
  write_named spec panic = crash

  abbrev named_common :
      (Spec → String → Result String) → String → Result String → Action W (Unit {0})
  named_common generate_name node_name (ok version) =
      let spec = common_spec node_name version in
      write_named spec (generate_name spec driver_file_name)
  named_common generate_name node_name (err e) =
      throw (quote "failed to get minimum required CDI spec version: %v" e)
  named_common generate_name node_name panic = crash

  -- `generate_name` is cdiapi.GenerateNameForTransientSpec, `node_name` the variable NODE_NAME. The
  -- program does not call it.
  unfoldable pub create_common_spec_file :
      (Spec → String → Result String) → String → Action W (Unit {0})
  create_common_spec_file generate_name node_name =
      named_common generate_name node_name
        (cache.minimum_required_version (common_spec node_name ""))
