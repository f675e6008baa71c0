-- ===== src/Nri/Plugin.antt =====
-- pkg/nri/nri.go and nrihelpers.go: RunPodSandbox, StopPodSandbox and the update of a batch. The CNI
-- runtime, the API client and the metadata updater are arguments.
use k8snetworkplumbingwg_dra.Common.{
  String, Option, none, some, Bool, true, false, not, ℕ, List, [], ◌∷◌, ◌++◌, if◌then◌else◌, ◌==◌,
  ◌&&◌, eq_string, Map, Result, ok, err, panic, plain, wrap, quote, Action, ◌>>=◌, ◌>>◌, pure,
  throw, crash, map_err,
}
use k8snetworkplumbingwg_dra.Kube.{NetworkDeviceData, AllocatedDeviceStatus, ResourceClaim}
use k8snetworkplumbingwg_dra.Types.Prepared.{PreparedDevice, PreparedDevices, KubeletPluginDevice}
use k8snetworkplumbingwg_dra.PodManager.Store.{
  CheckpointManager, PodManager, get_devices_by_pod_uid, update_prepared_device_network_data,
}
use k8snetworkplumbingwg_dra.Nri.Sandbox.{PodSandbox, get_network_namespace}
use k8snetworkplumbingwg_dra.Nri.Updates.{
  NetworkData, Key, group_network_data_by_claim, build_claim_status_device_index,
  update_claim_device_status, RequestMetadataUpdate, build_request_metadata_updates,
}

-- `queue` is the channel networkDeviceDataUpdateChan before it is closed, in the order of the sends:
-- the hundred batches of its buffer, then those of the senders that wait for room.
pub record Plugin (W D : Type 0) : Type 0 where
  pub world : W
  pub pods : PodManager D
  pub queue : List (List (Option NetworkData))

-- `attach_network` returns the network data and the CNI result; `metadata_updater` is none when
-- there is no updater; `get_claim` is by namespace and name; `parse` is json.Unmarshal into a map.
pub record Clients (W : Type 0) : Type 0 where
  pub attach_network :
      PodSandbox → String → Option PreparedDevice → Action W (Option NetworkDeviceData × String)
  pub detach_network : PodSandbox → String → Option PreparedDevice → Action W (Unit {0})
  pub metadata_updater : Option (Key → String → List KubeletPluginDevice → Action W (Unit {0}))
  pub get_claim : String → String → Action W ResourceClaim
  pub update_claim_status_with_retry : ResourceClaim → Action W (Unit {0})
  pub parse : String → Result String
  pub marshal : PreparedDevice → String → String → Option String

abbrev or_empty_object : Result String → String
or_empty_object (ok object) = object
or_empty_object (err e) = "{}"
or_empty_object panic = "{}"

module _ {W D : Type 0} (checkpoints : CheckpointManager D) (clients : Clients W)
    (enable_device_metadata : Bool) where
  abbrev cni_config_of : PreparedDevice → String
  cni_config_of p =
      if not (p.net_attach_def_config == "")
      then or_empty_object (clients.parse p.net_attach_def_config)
      else "{}"

  abbrev pub attached :
      Option PreparedDevice → Option NetworkDeviceData × String → Action W NetworkData
  attached none result = crash
  attached (some p) result = pure (record {
    prepared_device = some p;
    network_device_data = result.0;
    cni_config = cni_config_of p;
    cni_result = result.1;
  })

  -- The loop of RunPodSandbox, which stops at the first failure.
  unfoldable pub attach_all :
      PodSandbox → String → PreparedDevices → Action W (List (Option NetworkData))
  attach_all pod ns [] = pure []
  attach_all pod ns (p ∷ ps) =
      map_err (wrap "failed to attach network: %w") (clients.attach_network pod ns p) >>= λ result.
      attached p result >>= λ item. attach_all pod ns ps >>= λ items. pure (some item ∷ items)

  abbrev send_update :
      Option (Key → String → List KubeletPluginDevice → Action W (Unit {0}))
      → Key
      → RequestMetadataUpdate
      → Action W (Unit {0})
  send_update none key update = pure tt
  send_update (some updater) key update = elim update.devices [
    | [] ↦ pure tt
    | d ∷ ds ↦
        map_err (wrap "update request metadata for %s failed: %w")
          (updater key update.claim_uid (d ∷ ds))
  ]

  unfoldable pub update_device_metadata : Key → RequestMetadataUpdate → Action W (Unit {0})
  update_device_metadata key update =
      if not enable_device_metadata
      then pure tt
      else send_update clients.metadata_updater key update

  unfoldable pub apply_updates : Map Key RequestMetadataUpdate → Action W (Unit {0})
  apply_updates [] = pure tt
  apply_updates ((key, update) ∷ updates) =
      update_device_metadata key update >> apply_updates updates

  abbrev with_updater :
      Option (Key → String → List KubeletPluginDevice → Action W (Unit {0}))
      → List (Option NetworkData)
      → Action W (Unit {0})
  with_updater none items = pure tt
  with_updater (some updater) items = apply_updates (build_request_metadata_updates items)

  unfoldable pub update_request_metadata_before_sandbox_start :
      List (Option NetworkData) → Action W (Unit {0})
  update_request_metadata_before_sandbox_start items =
      if not enable_device_metadata then pure tt else with_updater clients.metadata_updater items

  abbrev pub on_world : {A : Type 0} → Action W A → Action (Plugin W D) A
  on_world m s = let (r, w') = m s.world in (r, record s { world = w' })

  abbrev pub send : List (Option NetworkData) → Action (Plugin W D) (Unit {0})
  send items s = (ok tt, record s { queue = s.queue ++ items ∷ [] })

  abbrev pub run_on : PodSandbox → Option PreparedDevices → Action (Plugin W D) (Unit {0})
  run_on pod none = pure tt
  run_on pod (some ps) =
      if get_network_namespace pod == ""
      then pure tt
      else on_world (attach_all pod (get_network_namespace pod) ps) >>= λ items.
          map_err (wrap "failed to update request metadata before pod start: %w")
            (on_world (update_request_metadata_before_sandbox_start items))
          >> send items

  unfoldable pub run_pod_sandbox : PodSandbox → Action (Plugin W D) (Unit {0})
  run_pod_sandbox pod s = run_on pod (get_devices_by_pod_uid pod.uid s.pods) s

  unfoldable pub detach_all : PodSandbox → String → PreparedDevices → Action W (Unit {0})
  detach_all pod ns [] = pure tt
  detach_all pod ns (p ∷ ps) =
      map_err (quote "error CNI.DetachNetwork for pod '%s' (uid: %s) in namespace '%s': %v")
        (clients.detach_network pod ns p)
      >> detach_all pod ns ps

  abbrev stop_on : PodSandbox → Option PreparedDevices → Action (Plugin W D) (Unit {0})
  stop_on pod none = pure tt
  stop_on pod (some ps) =
      if get_network_namespace pod == ""
      then throw (plain "error getting network namespace for pod '%s' in namespace '%s'")
      else on_world (detach_all pod (get_network_namespace pod) ps)

  unfoldable pub stop_pod_sandbox : PodSandbox → Action (Plugin W D) (Unit {0})
  stop_pod_sandbox pod s = stop_on pod (get_devices_by_pod_uid pod.uid s.pods) s

  abbrev pub Devices : Type 0
  Devices = Bool × List AllocatedDeviceStatus

  abbrev pub note_update :
      Map Key (List ℕ) → PreparedDevice → NetworkData → Result (Unit {0}) → Devices → Devices
  note_update index p item (err e) ds = ds
  note_update index p item panic ds = ds
  note_update index p item (ok _) ds =
      let (found, devices) = update_claim_device_status clients.marshal index p item ds.1 in
      (if found then true else ds.0, devices)

  -- One update of a claim is persisted, then written into the status.
  abbrev pub apply_item :
      Map Key (List ℕ)
      → NetworkData
      → Option PreparedDevice
      → Devices
      → PodManager D
      → Devices × PodManager D
  apply_item index item none ds pods = (ds, pods)
  apply_item index item (some p) ds pods =
      let (r, pods') =
        update_prepared_device_network_data checkpoints (some p) item.network_device_data pods in
      (note_update index p item r ds, pods')

  -- The loop over the updates of one claim.
  unfoldable pub apply_items :
      Map Key (List ℕ) → List NetworkData → Devices → PodManager D → Devices × PodManager D
  apply_items index [] ds pods = (ds, pods)
  apply_items index (item ∷ items) ds pods =
      let (ds', pods') = apply_item index item item.prepared_device ds pods in
      apply_items index items ds' pods'

  abbrev pub put_status : ResourceClaim → Devices → Plugin W D → Plugin W D
  put_status claim ds s =
      if not ds.0
      then s
      else (on_world (clients.update_claim_status_with_retry (record claim { devices = ds.1 })) s).1

  abbrev pub on_claim : Key → List NetworkData → Result ResourceClaim → Plugin W D → Plugin W D
  on_claim key items (err e) s = s
  on_claim key items panic s = s
  on_claim key items (ok claim) s =
      let (ds, pods') =
        apply_items (build_claim_status_device_index claim.devices) items (false, claim.devices)
          s.pods in
      if not (key.third == "") && not (claim.uid == key.third)
      then s
      else put_status claim ds (record s { pods = pods' })

  unfoldable pub update_claims : Map Key (List NetworkData) → Plugin W D → Plugin W D
  update_claims [] s = s
  update_claims ((key, items) ∷ grouped) s =
      let (r, s') = on_world (clients.get_claim key.first key.second) s in
      update_claims grouped (on_claim key items r s')

  -- Errors are logged only.
  unfoldable pub update_network_device_data : List (Option NetworkData) → Plugin W D → Plugin W D
  update_network_device_data items s = update_claims (group_network_data_by_claim items) s
