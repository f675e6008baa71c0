-- ===== src/Types/ClaimStatus/Key.antt =====
-- pkg/types/claimstatus.go: keys of status entries, UpsertDeviceStatus and MergeDeviceStatuses.
use k8snetworkplumbingwg_dra.Common.{
  String, some, none, Bool, true, List, [], ◌∷◌, ◌≡◌, ◌↔◌, ◌&&◌, ◌==◌, Eq, eq_string, arith,
  if◌then◌else◌,
}
use k8snetworkplumbingwg_dra.Kube.{AllocatedDeviceStatus}

pub record DeviceStatusKey : Type 0 where
  pub driver : String
  pub pool : String
  pub device : String
  pub share_id : String

unfoldable pub key_of : AllocatedDeviceStatus → DeviceStatusKey
key_of status = record {
  driver = status.driver;
  pool = status.pool;
  device = status.device;
  share_id = elim status.share_id [ none ↦ "" | some id ↦ id ];
}

unfoldable pub key_eq : DeviceStatusKey → DeviceStatusKey → Bool
key_eq a b =
    a.driver == b.driver && (a.pool == b.pool && (a.device == b.device && a.share_id == b.share_id))

pub key_eq_iff : (a b : DeviceStatusKey) → (key_eq a b ≡ true) ↔ (a ≡ b)
unfolding key_eq
key_eq_iff a b = ground (
  arith,
  eq_string.beq_iff a.driver b.driver,
  eq_string.beq_iff a.pool b.pool,
  eq_string.beq_iff a.device b.device,
  eq_string.beq_iff a.share_id b.share_id,
)

instance abbrev pub eq_key : Eq DeviceStatusKey
eq_key = record { beq = key_eq; beq_iff = key_eq_iff }

-- The first entry with the key of `status` is replaced, else `status` is appended.
unfoldable pub upsert_device_status :
    List AllocatedDeviceStatus → AllocatedDeviceStatus → List AllocatedDeviceStatus
upsert_device_status [] status = status ∷ []
upsert_device_status (x ∷ list) status =
    if key_of x == key_of status then status ∷ list else x ∷ upsert_device_status list status

-- The first loop of MergeDeviceStatuses: the entries of the other drivers.
unfoldable pub foreign : String → List AllocatedDeviceStatus → List AllocatedDeviceStatus
foreign driver_name [] = []
foreign driver_name (status ∷ latest) =
    let rest = foreign driver_name latest in
    if status.driver == driver_name then rest else status ∷ rest

-- The second loop: the driver's own desired entries are upserted into `merged`.
unfoldable pub upsert_own :
    String → List AllocatedDeviceStatus → List AllocatedDeviceStatus → List AllocatedDeviceStatus
upsert_own driver_name merged [] = merged
upsert_own driver_name merged (status ∷ desired) =
    upsert_own driver_name
      (if status.driver == driver_name then upsert_device_status merged status else merged) desired

unfoldable pub merge_device_statuses :
    List AllocatedDeviceStatus → List AllocatedDeviceStatus → String → List AllocatedDeviceStatus
merge_device_statuses latest desired driver_name =
    upsert_own driver_name (foreign driver_name latest) desired
