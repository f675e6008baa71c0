-- ===== src/Nri/Stored.antt =====
-- What the runner's update of a claim leaves in the store (pkg/nri/nri.go: updateNetworkDeviceData,
-- pkg/podmanager/podmanager.go: UpdatePreparedDeviceNetworkData).
mod Tests
use k8snetworkplumbingwg_dra.Common.{
  String, Option, none, some, Bool, true, false, not, ℕ, List, [], ◌∷◌, Map, if◌then◌else◌, ◌==◌,
  eq_nat, eq_string, ◌&&◌, ok, ◌≡◌, refl, sym, ap, ◌∙◌, arith, if_intro, subst,
}
use k8snetworkplumbingwg_dra.Kube.{NetworkDeviceData, ResourceClaim}
use k8snetworkplumbingwg_dra.Types.Prepared.{
  PreparedDevice, PreparedDevices, PreparedDevicesByClaimId, PreparedClaimsByPodUid,
  set_network_device_data,
}
use k8snetworkplumbingwg_dra.PodManager.Store.{
  CheckpointManager, PodManager, write_devices, write_claims, write_pods, sync_to_checkpoint,
  update_prepared_device_network_data,
}
use k8snetworkplumbingwg_dra.Nri.Updates.{NetworkData, Key, build_claim_status_device_index}
use k8snetworkplumbingwg_dra.Nri.Plugin.{
  Plugin, Clients, Devices, apply_item, apply_items, put_status, on_claim,
}

-- A change of every stored device.
unfoldable pub map_devices : (PreparedDevice → PreparedDevice) → PreparedDevices → PreparedDevices
map_devices g [] = []
map_devices g (none ∷ ps) = none ∷ map_devices g ps
map_devices g (some p ∷ ps) = some (g p) ∷ map_devices g ps

unfoldable pub map_claims :
    (PreparedDevice → PreparedDevice) → PreparedDevicesByClaimId → PreparedDevicesByClaimId
map_claims g [] = []
map_claims g ((claim, devices) ∷ claims) = (claim, map_devices g devices) ∷ map_claims g claims

unfoldable pub map_pods :
    (PreparedDevice → PreparedDevice) → PreparedClaimsByPodUid → PreparedClaimsByPodUid
map_pods g [] = []
map_pods g ((pod, claims) ∷ pods) = (pod, map_claims g claims) ∷ map_pods g pods

abbrev at_address : ℕ → (PreparedDevice → PreparedDevice) → PreparedDevice → PreparedDevice
at_address address f p = if p.address == address then f p else p

-- The data of the last item whose device is the object at the address.
abbrev pub is_at : ℕ → Option PreparedDevice → Bool
is_at address none = false
is_at address (some p) = address == p.address

unfoldable pub last_data : ℕ → List NetworkData → Option (Option NetworkDeviceData)
last_data address [] = none
last_data address (item ∷ items) = elim (last_data address items) [
  | some later ↦ some later
  | none ↦ if is_at address item.prepared_device then some item.network_device_data else none
]

abbrev pub with_data : Option (Option NetworkDeviceData) → PreparedDevice → PreparedDevice
with_data none p = p
with_data (some network_data) p = record p { network_device_data = network_data }

-- The device with the last data that an item has for it.
abbrev pub refreshed : List NetworkData → PreparedDevice → PreparedDevice
refreshed items p = with_data (last_data p.address items) p

module _ (f g h : PreparedDevice → PreparedDevice) (address : ℕ)
    (fuses : (p : PreparedDevice) → g (at_address address f p) ≡ h p) where
  devices-fuse :
      (ps : PreparedDevices) → map_devices g (write_devices address f ps) ≡ map_devices h ps
  unfolding map_devices write_devices
  devices-fuse [] = refl
  devices-fuse (none ∷ ps) = ap (λ xs. none ∷ xs) (devices-fuse ps)
  devices-fuse (some p ∷ ps) = λ i. some (fuses p i) ∷ devices-fuse ps i

  claims-fuse :
      (claims : PreparedDevicesByClaimId)
      → map_claims g (write_claims address f claims) ≡ map_claims h claims
  unfolding map_claims write_claims
  claims-fuse [] = refl
  claims-fuse ((claim, ps) ∷ claims) = λ i. (claim, devices-fuse ps i) ∷ claims-fuse claims i

  pods-fuse :
      (pods : PreparedClaimsByPodUid) → map_pods g (write_pods address f pods) ≡ map_pods h pods
  unfolding map_pods write_pods
  pods-fuse [] = refl
  pods-fuse ((pod, claims) ∷ pods) = λ i. (pod, claims-fuse claims i) ∷ pods-fuse pods i

module _ (g : PreparedDevice → PreparedDevice) (same : (p : PreparedDevice) → g p ≡ p) where
  devices-same : (ps : PreparedDevices) → map_devices g ps ≡ ps
  unfolding map_devices
  devices-same [] = refl
  devices-same (none ∷ ps) = ap (λ xs. none ∷ xs) (devices-same ps)
  devices-same (some p ∷ ps) = λ i. some (same p i) ∷ devices-same ps i

  claims-same : (claims : PreparedDevicesByClaimId) → map_claims g claims ≡ claims
  unfolding map_claims
  claims-same [] = refl
  claims-same ((claim, ps) ∷ claims) = λ i. (claim, devices-same ps i) ∷ claims-same claims i

  pub pods-same : (pods : PreparedClaimsByPodUid) → map_pods g pods ≡ pods
  unfolding map_pods
  pods-same [] = refl
  pods-same ((pod, claims) ∷ pods) = λ i. (pod, claims-same claims i) ∷ pods-same pods i

-- What an item adds to the last data of the others.
abbrev pub or_this :
    Bool
    → Option NetworkDeviceData
    → Option (Option NetworkDeviceData)
    → Option (Option NetworkDeviceData)
or_this b network_data (some later) = some later
or_this b network_data none = if b then some network_data else none

with_data-or_this :
    (b : Bool) (network_data : Option NetworkDeviceData) (l : Option (Option NetworkDeviceData))
    (p : PreparedDevice)
    → with_data l (if b then record p { network_device_data = network_data } else p)
      ≡ with_data (or_this b network_data l) p
with_data-or_this true network_data none p = refl
with_data-or_this true network_data (some later) p = refl
with_data-or_this false network_data none p = refl
with_data-or_this false network_data (some later) p = refl

address_kept :
    (b : Bool) (network_data : Option NetworkDeviceData) (p : PreparedDevice)
    → (if b then record p { network_device_data = network_data } else p).address ≡ p.address
address_kept true network_data p = refl
address_kept false network_data p = refl

pub last_data-cons :
    (address : ℕ) (item : NetworkData) (items : List NetworkData)
    → last_data address (item ∷ items)
      ≡ or_this
          (is_at address item.prepared_device)
          item.network_device_data
          (last_data address items)
unfolding last_data
last_data-cons address item items = go (last_data address items)
  where
    go :
        (l : Option (Option NetworkDeviceData))
        → ◌≡◌ {A = Option (Option NetworkDeviceData)}
            (elim l [
              | some later ↦ some later
              | none ↦
                  if is_at address item.prepared_device then some item.network_device_data else none
            ])
            (or_this (is_at address item.prepared_device) item.network_device_data l)
    go none = refl
    go (some later) = refl

-- One item, then the others.
refreshed-cons :
    (q : PreparedDevice) (item : NetworkData) (items : List NetworkData)
    → item.prepared_device ≡ some q
    → (p : PreparedDevice)
    → refreshed items (at_address q.address (set_network_device_data item.network_device_data) p)
      ≡ refreshed (item ∷ items) p
unfolding set_network_device_data
refreshed-cons q item items e p =
    let b = p.address == q.address in
    let d = item.network_device_data in
    ap (λ a. with_data (last_data a items) (if b then record p { network_device_data = d } else p))
      (address_kept b d p)
    ∙ (with_data-or_this b d (last_data p.address items) p
        ∙ (ap (λ o. with_data (or_this (is_at p.address o) d (last_data p.address items)) p) (sym e)
            ∙ ap (λ l. with_data l p) (sym (last_data-cons p.address item items))))

refreshed-skip :
    (item : NetworkData) (items : List NetworkData)
    → item.prepared_device ≡ none
    → (p : PreparedDevice) → refreshed items p ≡ refreshed (item ∷ items) p
refreshed-skip item items e p =
    with_data-or_this false item.network_device_data (last_data p.address items) p
    ∙ (ap
          (λ o.
            with_data
              (or_this (is_at p.address o) item.network_device_data (last_data p.address items)) p)
          (sym e)
        ∙ ap (λ l. with_data l p) (sym (last_data-cons p.address item items)))

module _ {W D : Type 0} (checkpoints : CheckpointManager D) (clients : Clients W)
    (enable_device_metadata : Bool) where
  apply_item-store :
      (index : Map Key (List ℕ)) (item : NetworkData) (items : List NetworkData)
      (o : Option PreparedDevice) (ds : Devices checkpoints clients enable_device_metadata)
      (pods : PodManager D)
      → item.prepared_device ≡ o
      → map_pods
          (refreshed items)
          (apply_item checkpoints clients enable_device_metadata index item o ds
            pods).1.prepared_claims_by_pod_uid
        ≡ map_pods (refreshed (item ∷ items)) pods.prepared_claims_by_pod_uid
  unfolding update_prepared_device_network_data sync_to_checkpoint
  apply_item-store index item items none ds pods e =
      ap (λ g. map_pods g pods.prepared_claims_by_pod_uid) (λ i p. refreshed-skip item items e p i)
  apply_item-store index item items (some q) ds pods e =
      pods-fuse (set_network_device_data item.network_device_data) (refreshed items)
        (refreshed (item ∷ items)) q.address (refreshed-cons q item items e)
        pods.prepared_claims_by_pod_uid

  apply_items-store :
      (index : Map Key (List ℕ)) (items : List NetworkData)
      (ds : Devices checkpoints clients enable_device_metadata) (pods : PodManager D)
      → (apply_items checkpoints clients enable_device_metadata index items ds
          pods).1.prepared_claims_by_pod_uid
        ≡ map_pods (refreshed items) pods.prepared_claims_by_pod_uid
  unfolding apply_items last_data
  apply_items-store index [] ds pods =
      sym (pods-same (refreshed []) (λ p. refl) pods.prepared_claims_by_pod_uid)
  apply_items-store index (item ∷ items) ds pods =
      let (ds', pods') =
        apply_item checkpoints clients enable_device_metadata index item item.prepared_device ds
          pods in
      apply_items-store index items ds' pods'
      ∙ apply_item-store index item items item.prepared_device ds pods refl

  put_status-pods :
      (claim : ResourceClaim) (ds : Devices checkpoints clients enable_device_metadata)
      (s : Plugin W D)
      → (put_status checkpoints clients enable_device_metadata claim ds s).pods ≡ s.pods
  put_status-pods claim ds s =
      if_intro (λ (t : Plugin W D). t.pods ≡ s.pods) (not ds.0) (λ _. refl) (λ _. refl)

  -- When the claim that was read is the one of the updates, each stored device has the network data of
  -- the last update for it, and every other field and device is as before, whatever the checkpoints
  -- and the API server answer.
  pub on_claim-stores :
      (key : Key) (items : List NetworkData) (claim : ResourceClaim) (s : Plugin W D)
      → (not (key.third == "") && not (claim.uid == key.third)) ≡ false
      → (on_claim checkpoints clients enable_device_metadata key items
          (ok claim)
          s).pods.prepared_claims_by_pod_uid
        ≡ map_pods (refreshed items) s.pods.prepared_claims_by_pod_uid
  on_claim-stores key items claim s e =
      let index = build_claim_status_device_index claim.devices in
      let (ds, pods') =
        apply_items checkpoints clients enable_device_metadata index items (false, claim.devices)
          s.pods in
      ap
        (λ b.
          (if b
            then s
            else put_status checkpoints clients enable_device_metadata claim ds
                (record s { pods = pods' })).pods.prepared_claims_by_pod_uid)
        e
      ∙ (ap (λ (m : PodManager D). m.prepared_claims_by_pod_uid)
            (put_status-pods claim ds (record s { pods = pods' }))
          ∙ apply_items-store index items (false, claim.devices) s.pods)

  -- Updates for a claim that was replaced under its name change nothing.
  pub on_claim-stale :
      (key : Key) (items : List NetworkData) (claim : ResourceClaim) (s : Plugin W D)
      → (not (key.third == "") && not (claim.uid == key.third)) ≡ true
      → on_claim checkpoints clients enable_device_metadata key items (ok claim) s ≡ s
  on_claim-stale key items claim s e =
      if_intro (λ (t : Plugin W D). t ≡ s) (not (key.third == "") && not (claim.uid == key.third))
        (λ _. refl) (λ fresh. absurd (ground (arith, e, fresh)))
