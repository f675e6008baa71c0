-- ===== src/PodManager/Store.antt =====
-- pkg/podmanager/podmanager.go: PodManager and its operations. The checkpoint manager (kubelet's)
-- is an argument, and the disk is its state. The mutex makes every operation one step.
use k8snetworkplumbingwg_dra.Common.{
  String, Option, none, some, Bool, true, false, List, [], ◌∷◌, ◌++◌, ℕ, lookup, insert, delete,
  has_key, if◌then◌else◌, ◌==◌, eq_string, eq_nat, Result, ok, err, panic, plain, quote, Action,
}
use k8snetworkplumbingwg_dra.Kube.{NamespacedObject, NetworkDeviceData}
use k8snetworkplumbingwg_dra.Types.Prepared.{
  PreparedDevice, PreparedDevices, PreparedDevicesByClaimId, PreparedClaimsByPodUid,
  set_network_device_data,
}

-- kubelet's CheckpointManager, for checkpoints that hold PreparedClaimsByPodUID.
pub record CheckpointManager (D : Type 0) : Type 0 where
  pub list_checkpoints : D → Result (List String)
  pub get_checkpoint : String → D → Result PreparedClaimsByPodUid
  pub create_checkpoint : String → PreparedClaimsByPodUid → Action D (Unit {0})

pub record PodManager (D : Type 0) : Type 0 where
  pub prepared_claims_by_pod_uid : PreparedClaimsByPodUid
  pub disk : D

abbrev pub checkpoint_file : String
checkpoint_file = "checkpoint.json"

abbrev pub explain {ℓ} : {A : Type ℓ} → String → Result A → Result A
explain text (err e) = err (quote text e)
explain text (ok a) = ok a
explain text panic = panic

unfoldable pub get : {D : Type 0} → String → String → PodManager D → Option PreparedDevices
get pod_uid claim_id s = elim (lookup pod_uid s.prepared_claims_by_pod_uid) [
  | some pod_configs ↦ lookup claim_id pod_configs
  | none ↦ none
]

unfoldable pub append_all : PreparedDevicesByClaimId → PreparedDevices
append_all [] = []
append_all ((_, devices) ∷ claims) = devices ++ append_all claims

unfoldable pub get_devices_by_pod_uid :
    {D : Type 0} → String → PodManager D → Option PreparedDevices
get_devices_by_pod_uid pod_uid s = elim (lookup pod_uid s.prepared_claims_by_pod_uid) [
  | some claims ↦ some (append_all claims)
  | none ↦ none
]

unfoldable pub find_claim : String → PreparedClaimsByPodUid → Option PreparedDevices
find_claim uid [] = none
find_claim uid ((_, by_claim) ∷ pods) =
    let rest = find_claim uid pods in
    elim (lookup uid by_claim) [ some devices ↦ some devices | none ↦ rest ]

unfoldable pub get_by_claim :
    {D : Type 0} → NamespacedObject → PodManager D → Option PreparedDevices
get_by_claim claim s = find_claim claim.uid s.prepared_claims_by_pod_uid

-- The loop of DeleteClaim, which stops at the first pod that has the claim.
unfoldable pub pod_to_delete : String → PreparedClaimsByPodUid → Option String
pod_to_delete uid [] = none
pod_to_delete uid ((pod_uid, by_claim) ∷ pods) =
    let rest = pod_to_delete uid pods in if has_key uid by_claim then some pod_uid else rest

-- A write through a pointer is seen wherever the same object is held.
unfoldable pub write_devices :
    ℕ → (PreparedDevice → PreparedDevice) → PreparedDevices → PreparedDevices
write_devices address f [] = []
write_devices address f (none ∷ ps) = none ∷ write_devices address f ps
write_devices address f (some p ∷ ps) =
    some (if p.address == address then f p else p) ∷ write_devices address f ps

unfoldable pub write_claims :
    ℕ → (PreparedDevice → PreparedDevice) → PreparedDevicesByClaimId → PreparedDevicesByClaimId
write_claims address f [] = []
write_claims address f ((claim, devices) ∷ claims) =
    (claim, write_devices address f devices) ∷ write_claims address f claims

unfoldable pub write_pods :
    ℕ → (PreparedDevice → PreparedDevice) → PreparedClaimsByPodUid → PreparedClaimsByPodUid
write_pods address f [] = []
write_pods address f ((pod, claims) ∷ pods) =
    (pod, write_claims address f claims) ∷ write_pods address f pods

abbrev pub or_empty : Option PreparedDevicesByClaimId → PreparedDevicesByClaimId
or_empty none = []
or_empty (some claims) = claims

module _ {D : Type 0} (checkpoints : CheckpointManager D) where
  unfoldable pub sync_to_checkpoint : Action (PodManager D) (Unit {0})
  sync_to_checkpoint s =
      let (r, disk') =
        checkpoints.create_checkpoint checkpoint_file s.prepared_claims_by_pod_uid s.disk in
      (explain "unable to sync to checkpoint: %v" r, record s { disk = disk' })

  -- The map with `devices` under the pod and the claim; a pod that is not there yet is made.
  abbrev pub with_devices :
      String → String → PreparedDevices → PreparedClaimsByPodUid → PreparedClaimsByPodUid
  with_devices pod_uid claim_id devices pods =
      insert pod_uid (insert claim_id devices (or_empty (lookup pod_uid pods))) pods

  -- Set of the source.
  unfoldable pub put : String → String → PreparedDevices → Action (PodManager D) (Unit {0})
  put pod_uid claim_id devices s = sync_to_checkpoint (record s {
    prepared_claims_by_pod_uid = with_devices pod_uid claim_id devices s.prepared_claims_by_pod_uid;
  })

  unfoldable pub delete_pod : String → Action (PodManager D) (Unit {0})
  delete_pod pod_uid s =
      sync_to_checkpoint
        (record s { prepared_claims_by_pod_uid = delete pod_uid s.prepared_claims_by_pod_uid })

  abbrev pub delete_found : Option String → Action (PodManager D) (Unit {0})
  delete_found none s = (ok tt, s)
  delete_found (some pod_uid) s =
      sync_to_checkpoint
        (record s { prepared_claims_by_pod_uid = delete pod_uid s.prepared_claims_by_pod_uid })

  unfoldable pub delete_claim : NamespacedObject → Action (PodManager D) (Unit {0})
  delete_claim claim s = delete_found (pod_to_delete claim.uid s.prepared_claims_by_pod_uid) s

  unfoldable pub update_prepared_device_network_data :
      Option PreparedDevice → Option NetworkDeviceData → Action (PodManager D) (Unit {0})
  update_prepared_device_network_data none network_data s =
      (err (plain "prepared device is nil"), s)
  update_prepared_device_network_data (some p) network_data s = sync_to_checkpoint (record s {
    prepared_claims_by_pod_uid =
        write_pods p.address (set_network_device_data network_data) s.prepared_claims_by_pod_uid;
  })

  abbrev pub lists_file : List String → Bool
  lists_file [] = false
  lists_file (c ∷ cs) = if c == checkpoint_file then true else lists_file cs

  abbrev load : Result PreparedClaimsByPodUid → D → Result (PodManager D) × D
  load (ok claims) disk = (ok (record { prepared_claims_by_pod_uid = claims; disk = disk }), disk)
  load (err e) disk = (err (quote "unable to load checkpoint: %v" e), disk)
  load panic disk = (panic, disk)

  abbrev created : Result (Unit {0}) → D → Result (PodManager D) × D
  created (ok _) disk = (ok (record { prepared_claims_by_pod_uid = []; disk = disk }), disk)
  created (err e) disk = (err (quote "unable to sync to checkpoint: %v" e), disk)
  created panic disk = (panic, disk)

  abbrev from_listing : Result (List String) → D → Result (PodManager D) × D
  from_listing (err e) disk = (err (quote "unable to list checkpoints: %v" e), disk)
  from_listing panic disk = (panic, disk)
  from_listing (ok names) disk =
      let (r, disk') = checkpoints.create_checkpoint checkpoint_file [] disk in
      if lists_file names
      then load (checkpoints.get_checkpoint checkpoint_file disk) disk
      else created r disk'

  unfoldable pub new_pod_manager : Action D (PodManager D)
  new_pod_manager disk = from_listing (checkpoints.list_checkpoints disk) disk
