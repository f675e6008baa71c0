-- ===== src/DeviceState/Edits.antt =====
-- pkg/devicestate/state.go: the parts of applyConfigOnDevice that make the network config, the device
-- nodes and the environment variables, and handleRDMADevice.
use Prim.Native.String.{◌++◌ as concat}
use k8snetworkplumbingwg_dra.Common.{
  String, Option, none, some, Bool, false, not, List, [], ◌∷◌, ◌++◌, if◌then◌else◌, ◌==◌, eq_string,
  lookup, ok, plain, wrap, Action, ◌>>=◌, ◌>>◌, pure, throw, map_err,
}
use k8snetworkplumbingwg_dra.Kube.{Device, DeviceAttribute, ResourceClaim}
use k8snetworkplumbingwg_dra.Consts.{attribute_rdma_capable}
use k8snetworkplumbingwg_dra.Api.VfConfig.{VfConfig}
use k8snetworkplumbingwg_dra.Types.Prepared.{DeviceNode}
use k8snetworkplumbingwg_dra.Types.NetConf.{add_device_id_to_net_conf}
use k8snetworkplumbingwg_dra.DeviceState.State.{Manager, is_standalone_mode}
use k8snetworkplumbingwg_dra.DeviceState.Services.{Services}

abbrev pub node : String → DeviceNode
node path = record { path = path; host_path = path }

-- Device nodes and environment variables.
abbrev pub Edits : Type 0
Edits = List DeviceNode × List String

abbrev pub add_edits : Edits → Edits → Edits
add_edits a b = (a.0 ++ b.0, a.1 ++ b.1)

abbrev pub is_true : Option DeviceAttribute → Bool
is_true none = false
is_true (some a) = elim a.bool_value [ some b ↦ b | none ↦ false ]

module _ {W : Type 0} (services : Services W) where
  abbrev pub variable : String → String → String → String
  variable device kind value =
      concat "SRIOVNETWORK_" (concat (services.underscored device) (concat kind value))

  abbrev pub rdma_env : String → String → List String
  rdma_env device path =
      if services.has_prefix (services.base path) "uverbs"
      then variable device "_RDMA_UVERB=" path ∷ []
      else if services.has_prefix (services.base path) "umad"
      then variable device "_RDMA_UMAD=" path ∷ []
      else if services.has_prefix (services.base path) "issm"
      then variable device "_RDMA_ISSM=" path ∷ []
      else if services.base path == "rdma_cm"
      then variable device "_RDMA_CM=" path ∷ []
      else []

  -- The loop over the character devices.
  unfoldable pub char_device_edits : String → List String → Edits
  char_device_edits device [] = ([], [])
  char_device_edits device (path ∷ paths) =
      add_edits (node path ∷ [], rdma_env device path) (char_device_edits device paths)

  abbrev pub rdma_edits : String → String → List String → Action W Edits
  rdma_edits device rdma_device [] =
      throw (plain "no RDMA character devices found for RDMA device %s (PCI: %s)")
  rdma_edits device rdma_device (path ∷ paths) = pure (
      add_edits (char_device_edits device (path ∷ paths))
        ([], variable device "_RDMA_DEVICE=" rdma_device ∷ []))

  abbrev pub for_rdma_devices : String → List String → Action W Edits
  for_rdma_devices device [] = pure ([], [])
  for_rdma_devices device (rdma_device ∷ []) =
      services.host.get_rdma_char_devices rdma_device >>= λ paths.
      rdma_edits device rdma_device paths
  for_rdma_devices device (a ∷ b ∷ rest) =
      throw (plain "expected exactly one RDMA device for PCI address %s, but found %d: %v")

  unfoldable pub handle_rdma_device : Device → String → String → Action W Edits
  handle_rdma_device device_info pci_address device w =
      if not (is_true (lookup attribute_rdma_capable device_info.attributes))
      then (ok ([], []), w)
      else for_rdma_devices device (services.host.get_rdma_devices_for_pci pci_address w) w

  -- The raw config in standalone mode, with the PCI address as its device ID.
  abbrev pub net_conf : Manager → ResourceClaim → VfConfig → String → Action W String
  net_conf s claim config pci_address =
      let namespace =
        if not (config.net_attach_def_namespace == "")
        then config.net_attach_def_namespace
        else claim.namespace in
      if is_standalone_mode s
      then (map_err (wrap "error getting net attach def raw config: %w") (
            map_err (wrap "error getting net attach def for net attach def %s/%s: %w")
              (services.get_net_attach_def namespace config.net_attach_def_name))
          >>= λ raw.
              map_err (wrap "error converting net attach def config to sriov-cni format: %w")
                (λ w. (add_device_id_to_net_conf services.json raw pci_address, w)))
      else pure ""

  abbrev pub cdev_nodes : String → List DeviceNode
  cdev_nodes path = if not (path == "") then node path ∷ [] else []

  -- The nodes of a device that is bound to vfio-pci.
  abbrev pub vfio_edits : Manager → VfConfig → String → String → Action W Edits
  vfio_edits s config pci_address device =
      if not (config.driver == "vfio-pci")
      then pure ([], [])
      else map_err (wrap "error getting VFIO device file for device %s: %w")
          (services.host.get_vfio_device_file pci_address)
        >>= λ files.
            let env = variable device "_VFIO_DEVICE=" files.1 ∷ [] in
            let nodes =
              record { path = files.1; host_path = files.0 } ∷ node "/dev/vfio/vfio" ∷ [] in
            if s.iommu_available
            then (map_err (wrap "error getting VFIO cdev for device %s: %w")
                  (services.host.get_vfio_cdev_path pci_address)
                >>= λ cdev. pure (nodes ++ cdev_nodes cdev ++ node "/dev/iommu" ∷ [], env))
            else pure (nodes, env)

  abbrev pub vhost_edits : VfConfig → Edits
  vhost_edits config =
      if config.add_vhost_mount
      then (node "/dev/vhost-net" ∷ node "/dev/net/tun" ∷ [], [])
      else ([], [])

  abbrev pub ensure_vhost : VfConfig → Action W (Unit {0})
  ensure_vhost config =
      if config.add_vhost_mount
      then map_err (wrap "failed to ensure vhost modules are loaded: %w")
          services.host.ensure_vhost_modules_loaded
      else pure tt

  -- Everything between the binding and the end that can fail.
  abbrev pub all_edits : Manager → VfConfig → Device → String → String → Action W Edits
  all_edits s config device_info pci_address device =
      ensure_vhost config
      >> (vfio_edits s config pci_address device >>= λ vfio.
          map_err (wrap "error handling RDMA device: %w")
            (handle_rdma_device device_info pci_address device)
          >>= λ rdma. pure (
              add_edits
                (
                  [],
                  concat "SRIOVNETWORK_VF_DEVICE_"
                        (concat (services.underscored device) (concat "=" pci_address))
                      ∷ concat "SRIOVNETWORK_NET_ATTACH_DEF_NAME=" config.net_attach_def_name
                      ∷ [],
                )
                (add_edits vfio (add_edits (vhost_edits config) rdma))))
