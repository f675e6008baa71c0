-- ===== src/Nri/Updates.antt =====
-- pkg/nri/nri.go: how network updates are grouped by claim and by request, and how they change a
-- claim's status. A JSON object is its text.
use k8snetworkplumbingwg_dra.Common.{
  String, Option, none, some, Bool, true, false, not, ℕ, zero, suc, List, [], ◌∷◌, ◌++◌,
  if◌then◌else◌, ◌==◌, ◌&&◌, ◌||◌, Eq, eq_string, Map, lookup, insert, ◌≡◌, ◌↔◌, arith,
}
use k8snetworkplumbingwg_dra.Kube.{NetworkDeviceData, AllocatedDeviceStatus, NamespacedObject}
use k8snetworkplumbingwg_dra.Api.Opaque.{driver_name}
use k8snetworkplumbingwg_dra.Types.Prepared.{
  PreparedDevice, KubeletPluginDevice, to_kubelet_plugin_device,
}

-- types.NetworkDataChanStruct
pub record NetworkData : Type 0 where
  pub prepared_device : Option PreparedDevice
  pub network_device_data : Option NetworkDeviceData
  pub cni_config : String
  pub cni_result : String

-- networkClaimKey (namespace, name, uid), claimStatusDeviceKey (driver, pool, device) and
-- requestMetadataKey (namespace, claim, request).
pub record Key : Type 0 where
  pub first : String
  pub second : String
  pub third : String

unfoldable pub key_eq : Key → Key → Bool
key_eq a b = a.first == b.first && (a.second == b.second && a.third == b.third)

pub key_eq_iff : (a b : Key) → (key_eq a b ≡ true) ↔ (a ≡ b)
unfolding key_eq
key_eq_iff a b = ground (
  arith,
  eq_string.beq_iff a.first b.first,
  eq_string.beq_iff a.second b.second,
  eq_string.beq_iff a.third b.third,
)

instance abbrev pub eq_key : Eq Key
eq_key = record { beq = key_eq; beq_iff = key_eq_iff }

-- The elements under a key; none for a missing key.
abbrev pub or_nil : {A : Type 0} → Option (List A) → List A
or_nil none = []
or_nil (some xs) = xs

-- `m[key] = append(m[key], x)`
abbrev pub append_at : {A : Type 0} → Key → A → Map Key (List A) → Map Key (List A)
append_at key x m = insert key (or_nil (lookup key m) ++ x ∷ []) m

abbrev pub claim_key : NamespacedObject → Key
claim_key claim = record { first = claim.namespace; second = claim.name; third = claim.uid }

abbrev pub add_item :
    Option PreparedDevice → NetworkData → Map Key (List NetworkData) → Map Key (List NetworkData)
add_item none item grouped = grouped
add_item (some p) item grouped = append_at (claim_key p.claim_namespaced_name) item grouped

-- The loop of groupNetworkDataByClaim; an item may be nil.
unfoldable pub group_into :
    List (Option NetworkData) → Map Key (List NetworkData) → Map Key (List NetworkData)
group_into [] grouped = grouped
group_into (none ∷ items) grouped = group_into items grouped
group_into (some item ∷ items) grouped =
    group_into items (add_item item.prepared_device item grouped)

unfoldable pub group_network_data_by_claim : List (Option NetworkData) → Map Key (List NetworkData)
group_network_data_by_claim items = group_into items []

abbrev pub status_key : AllocatedDeviceStatus → Key
status_key status = record { first = status.driver; second = status.pool; third = status.device }

-- The loop of buildClaimStatusDeviceIndex, from an index on.
unfoldable pub index_from : ℕ → List AllocatedDeviceStatus → Map Key (List ℕ) → Map Key (List ℕ)
index_from idx [] index = index
index_from idx (status ∷ devices) index =
    index_from (suc idx) devices (append_at (status_key status) idx index)

unfoldable pub build_claim_status_device_index : List AllocatedDeviceStatus → Map Key (List ℕ)
build_claim_status_device_index devices = index_from 0 devices []

-- `devices[idx] = f(devices[idx])`; an index out of range would panic.
unfoldable pub change_at : {A : Type 0} → ℕ → (A → A) → List A → List A
change_at n f [] = []
change_at zero f (x ∷ xs) = f x ∷ xs
change_at (suc n) f (x ∷ xs) = x ∷ change_at n f xs

unfoldable pub change_all : {A : Type 0} → List ℕ → (A → A) → List A → List A
change_all [] f xs = xs
change_all (n ∷ ns) f xs = change_all ns f (change_at n f xs)

-- What an update writes into an entry; `raw` is its marshalled data, if marshalling succeeds.
abbrev pub refresh :
    Option NetworkDeviceData → Option String → AllocatedDeviceStatus → AllocatedDeviceStatus
refresh network_data none status = record status { network_data = network_data }
refresh network_data (some raw) status = record status {
  network_data = network_data;
  raw_data = some raw;
}

abbrev pub device_key : PreparedDevice → Key
device_key p = record {
  first = driver_name;
  second = p.device.pool_name;
  third = p.device.device_name;
}

abbrev pub change_found :
    Option (List ℕ)
    → (AllocatedDeviceStatus → AllocatedDeviceStatus)
    → List AllocatedDeviceStatus
    → Bool × List AllocatedDeviceStatus
change_found none f devices = (false, devices)
change_found (some ns) f devices = (true, change_all ns f devices)

module _ (marshal : PreparedDevice → String → String → Option String) where
  -- Whether an entry was found, and the claim's devices.
  unfoldable pub update_claim_device_status :
      Map Key (List ℕ)
      → PreparedDevice
      → NetworkData
      → List AllocatedDeviceStatus
      → Bool × List AllocatedDeviceStatus
  update_claim_device_status index p item devices =
      change_found (lookup (device_key p) index)
        (refresh item.network_device_data (marshal p item.cni_config item.cni_result)) devices

pub record RequestMetadataUpdate : Type 0 where
  pub claim_uid : String
  pub devices : List KubeletPluginDevice

abbrev pub or_new : Option RequestMetadataUpdate → RequestMetadataUpdate
or_new none = record { claim_uid = ""; devices = [] }
or_new (some update) = update

abbrev pub add_device : String → KubeletPluginDevice → RequestMetadataUpdate → RequestMetadataUpdate
add_device uid device update = record {
  claim_uid = if not (uid == "") || update.claim_uid == "" then uid else update.claim_uid;
  devices = update.devices ++ device ∷ [];
}

abbrev pub request_key : NamespacedObject → String → Key
request_key claim request = record { first = claim.namespace; second = claim.name; third = request }

-- The loop over the request names of one item.
unfoldable pub add_requests :
    NamespacedObject
    → KubeletPluginDevice
    → List String
    → Map Key RequestMetadataUpdate
    → Map Key RequestMetadataUpdate
add_requests claim device [] updates = updates
add_requests claim device (request ∷ requests) updates = add_requests claim device requests (
    insert (request_key claim request)
      (add_device claim.uid device (or_new (lookup (request_key claim request) updates))) updates)

abbrev pub add_update :
    Option PreparedDevice
    → Option NetworkDeviceData
    → Map Key RequestMetadataUpdate
    → Map Key RequestMetadataUpdate
add_update none network_data updates = updates
add_update (some p) network_data updates =
    add_requests p.claim_namespaced_name (to_kubelet_plugin_device p network_data)
      p.device.request_names updates

unfoldable pub add_updates :
    List (Option NetworkData) → Map Key RequestMetadataUpdate → Map Key RequestMetadataUpdate
add_updates [] updates = updates
add_updates (none ∷ items) updates = add_updates items updates
add_updates (some item ∷ items) updates =
    add_updates items (add_update item.prepared_device item.network_device_data updates)

unfoldable pub build_request_metadata_updates :
    List (Option NetworkData) → Map Key RequestMetadataUpdate
build_request_metadata_updates items = add_updates items []
