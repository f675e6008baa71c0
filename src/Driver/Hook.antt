-- ===== src/Driver/Hook.antt =====
-- pkg/driver/dra_hook.go: the preparation and unpreparation of one claim. The device-state
-- manager is an argument, as is the status update, whose error is only logged.
use k8snetworkplumbingwg_dra.Common.{
  String, Option, none, some, ℕ, List, [], ◌∷◌, eq_string, Result, ok, err, panic, Error, plain,
  wrap, Action, ◌>>◌, pure, map_err,
}
use k8snetworkplumbingwg_dra.Kube.{
  Device, Allocation, ResourceClaim, NamespacedObject, AllocatedDeviceStatus,
}
use k8snetworkplumbingwg_dra.Types.Prepared.{
  PreparedDevices, KubeletPluginDevice, to_kubelet_plugin_device,
}
use k8snetworkplumbingwg_dra.PodManager.Store.{
  CheckpointManager, PodManager, get, get_by_claim, put, delete_claim,
}
use k8snetworkplumbingwg_dra.DeviceState.Prepare.Claim.{Progress}

-- The interface DeviceState of pkg/devicestate/interface.go, and the handler's pod spec; W is the
-- state of the host and the API server.
pub record DeviceState (W : Type 0) : Type 0 where
  pub get_allocatable_device_by_name : String → Option Device
  pub prepare_devices_for_claim : ResourceClaim → Action (W × Progress) PreparedDevices
  pub unprepare : String → PreparedDevices → Action W (Unit {0})
  pub create_global_pod_spec_file : String → List String → Action W (Unit {0})
  pub update_claim_status_with_retry : ResourceClaim → Action W (Unit {0})

-- `if_name_index` is the variable of one call of PrepareResourceClaims.
pub record Driver (W D : Type 0) : Type 0 where
  pub world : W
  pub pods : PodManager D
  pub if_name_index : ℕ
  pub next_address : ℕ

-- A nil device panics.
unfoldable pub plugin_devices : PreparedDevices → Option (List KubeletPluginDevice)
plugin_devices [] = some []
plugin_devices (none ∷ ps) = none
plugin_devices (some p ∷ ps) = elim (plugin_devices ps) [
  | none ↦ none
  | some ds ↦ some (to_kubelet_plugin_device p none ∷ ds)
]

abbrev pub replace_devices : ResourceClaim → List AllocatedDeviceStatus → ResourceClaim
replace_devices claim ds = record claim { devices = ds }

abbrev pub object_of : ResourceClaim → NamespacedObject
object_of claim = record { name = claim.name; namespace = claim.namespace; uid = claim.uid }

module _ {W D : Type 0} (checkpoints : CheckpointManager D) (state : DeviceState W) where
  abbrev pub on_world : {A : Type 0} → Action W A → Action (Driver W D) A
  on_world m s = let (r, w') = m s.world in (r, record s { world = w' })

  abbrev pub on_pods : {A : Type 0} → Action (PodManager D) A → Action (Driver W D) A
  on_pods m s = let (r, p') = m s.pods in (r, record s { pods = p' })

  -- DeviceStateManager.PrepareDevicesForClaim, with the claim as it leaves it.
  abbrev pub run_prepare :
      ResourceClaim → Driver W D → Result PreparedDevices × (ResourceClaim × Driver W D)
  run_prepare claim s =
      let (r, (w, progress)) = state.prepare_devices_for_claim claim (
        s.world,
        record {
          if_name_index = s.if_name_index;
          next_address = s.next_address;
          devices = claim.devices;
        },
      ) in
      (
        r,
        (
          replace_devices claim progress.devices,
          record s {
            world = w;
            if_name_index = progress.if_name_index;
            next_address = progress.next_address;
          },
        ),
      )

  abbrev pub set_failed : Error → Result (Unit {0}) → Result (List KubeletPluginDevice)
  set_failed e (ok _) =
      err (wrap "error setting prepared devices for pod %s into pod manager: %w" e)
  set_failed e (err c) =
      err (
        wrap "error setting prepared devices for pod %s into pod manager: %w; cleanup failed: %v" e)
  set_failed e panic = panic

  -- The best-effort status update.
  abbrev pub logged :
      List KubeletPluginDevice → Result (Unit {0}) → Result (List KubeletPluginDevice)
  logged devices panic = panic
  logged devices (ok _) = ok devices
  logged devices (err e) = ok devices

  abbrev pub after_put :
      ResourceClaim
      → PreparedDevices
      → List KubeletPluginDevice
      → Result (Unit {0})
      → Action (Driver W D) (List KubeletPluginDevice)
  after_put claim ps devices panic s = (panic, s)
  after_put claim ps devices (err e) s =
      let (c, s') = on_world (state.unprepare claim.uid ps) s in (set_failed e c, s')
  after_put claim ps devices (ok _) s =
      let (u, s') = on_world (state.update_claim_status_with_retry claim) s in
      (logged devices u, s')

  abbrev pub record_devices :
      String
      → ResourceClaim
      → PreparedDevices
      → Option (List KubeletPluginDevice)
      → Action (Driver W D) (List KubeletPluginDevice)
  record_devices pod claim ps none s = (panic, s)
  record_devices pod claim ps (some devices) s =
      let (r, s') = on_pods (put checkpoints pod claim.uid ps) s in after_put claim ps devices r s'

  abbrev pub prepare_fresh :
      String
      → Result PreparedDevices
      → ResourceClaim × Driver W D
      → Result (List KubeletPluginDevice) × Driver W D
  prepare_fresh pod (err e) (claim, s) =
      (err (wrap "error preparing devices for claim %v: %w" e), s)
  prepare_fresh pod panic (claim, s) = (panic, s)
  prepare_fresh pod (ok ps) (claim, s) = record_devices pod claim ps (plugin_devices ps) s

  abbrev pub answer : Option (List KubeletPluginDevice) → Result (List KubeletPluginDevice)
  answer none = panic
  answer (some devices) = ok devices

  -- Either the devices that are stored, or those that are prepared now.
  abbrev pub prepare_or_reuse :
      String
      → ResourceClaim
      → Option PreparedDevices
      → Action (Driver W D) (List KubeletPluginDevice)
  prepare_or_reuse pod claim (some ps) s = (answer (plugin_devices ps), s)
  prepare_or_reuse pod claim none s = let (r, p) = run_prepare claim s in prepare_fresh pod r p

  abbrev pub prepare_allocated :
      String → ResourceClaim → Option Allocation → Action (Driver W D) (List KubeletPluginDevice)
  prepare_allocated pod claim none s = (err (plain "claim not yet allocated"), s)
  prepare_allocated pod claim (some allocation) s =
      prepare_or_reuse pod claim (get pod claim.uid s.pods) s

  abbrev pub prepare_for_pods :
      List String → ResourceClaim → Action (Driver W D) (List KubeletPluginDevice)
  prepare_for_pods [] claim s = (err (plain "no pod info found for claim %s/%s/%s"), s)
  prepare_for_pods (a ∷ b ∷ pods) claim s =
      (err (plain "multiple pods found for claim %s/%s/%s not supported"), s)
  prepare_for_pods (pod ∷ []) claim s = prepare_allocated pod claim claim.allocation s

  -- The result is a PrepareResult: its devices, or its error.
  unfoldable pub prepare_resource_claim :
      ResourceClaim → Action (Driver W D) (List KubeletPluginDevice)
  prepare_resource_claim claim s = prepare_for_pods claim.reserved_for claim s

  abbrev pub unprepare_stored :
      NamespacedObject → Option PreparedDevices → Action (Driver W D) (Unit {0})
  unprepare_stored claim none = pure tt
  unprepare_stored claim (some ps) =
      map_err (wrap "error unpreparing devices for claim %v: %w")
        (on_world (state.unprepare claim.uid ps))
      >> map_err (wrap "error deleting claim %s from pod manager: %w")
          (on_pods (delete_claim checkpoints claim))

  unfoldable pub unprepare_resource_claim : NamespacedObject → Action (Driver W D) (Unit {0})
  unprepare_resource_claim claim s = unprepare_stored claim (get_by_claim claim s.pods) s
