-- ===== src/Types/ClaimStatus/Unique.antt =====
-- No two entries of the merged list have the same key (pkg/types/claimstatus.go).
use k8snetworkplumbingwg_dra.Common.{
  String, false, List, [], ◌∷◌, ◌≡◌, ◌==◌, arith, eq_string, Bool-cases, inl, inr, All,
}
use k8snetworkplumbingwg_dra.Kube.{AllocatedDeviceStatus}
use k8snetworkplumbingwg_dra.Types.ClaimStatus.Key.{
  DeviceStatusKey, key_of, key_eq_iff, eq_key, upsert_device_status, foreign, upsert_own,
  merge_device_statuses,
}

-- No entry of the list has the key.
abbrev pub Fresh : DeviceStatusKey → List AllocatedDeviceStatus → Type 0
Fresh k l = All (λ y. (key_of y == k) ≡ false) l

-- What the API server asks of status.devices, a listType=map.
abbrev pub UniqueKeys : List AllocatedDeviceStatus → Type 0
UniqueKeys [] = Unit
UniqueKeys (x ∷ l) = Fresh (key_of x) l × UniqueKeys l

Fresh-upsert :
    (k : DeviceStatusKey) (l : List AllocatedDeviceStatus) (s : AllocatedDeviceStatus)
    → (key_of s == k) ≡ false
    → Fresh k l
    → Fresh k (upsert_device_status l s)
unfolding upsert_device_status
Fresh-upsert k [] s ne h = (ne, tt)
Fresh-upsert k (x ∷ l) s ne h = elim (Bool-cases (key_of x == key_of s)) [
  | inl same ↦ rw same (ne, h.1)
  | inr other ↦ rw other (h.0, Fresh-upsert k l s ne h.1)
]

key_eq_false_sym : (a b : DeviceStatusKey) → (a == b) ≡ false → (b == a) ≡ false
key_eq_false_sym a b h = ground (arith, key_eq_iff a b, key_eq_iff b a)

pub upsert-UniqueKeys :
    (l : List AllocatedDeviceStatus) (s : AllocatedDeviceStatus)
    → UniqueKeys l
    → UniqueKeys (upsert_device_status l s)
unfolding upsert_device_status
upsert-UniqueKeys [] s h = (tt, tt)
upsert-UniqueKeys (x ∷ l) s h = elim (Bool-cases (key_of x == key_of s)) [
  | inl same ↦ rw same (let e = (key_eq_iff (key_of x) (key_of s)).0 same in rw e at h)
  | inr other ↦ rw other (
    Fresh-upsert (key_of x) l s (key_eq_false_sym (key_of x) (key_of s) other) h.0,
    upsert-UniqueKeys l s h.1,
  )
]

upsert_own-UniqueKeys :
    (d : String) (merged desired : List AllocatedDeviceStatus)
    → UniqueKeys merged
    → UniqueKeys (upsert_own d merged desired)
unfolding upsert_own
upsert_own-UniqueKeys d merged [] h = h
upsert_own-UniqueKeys d merged (s ∷ desired) h = elim (Bool-cases (s.driver == d)) [
  | inl own ↦ rw own (
      upsert_own-UniqueKeys d (upsert_device_status merged s) desired
        (upsert-UniqueKeys merged s h))
  | inr other ↦ rw other (upsert_own-UniqueKeys d merged desired h)
]

Fresh-foreign :
    (k : DeviceStatusKey) (d : String) (l : List AllocatedDeviceStatus)
    → Fresh k l
    → Fresh k (foreign d l)
unfolding foreign
Fresh-foreign k d [] h = tt
Fresh-foreign k d (x ∷ l) h = elim (Bool-cases (x.driver == d)) [
  | inl own ↦ rw own (Fresh-foreign k d l h.1)
  | inr other ↦ rw other (h.0, Fresh-foreign k d l h.1)
]

foreign-UniqueKeys :
    (d : String) (l : List AllocatedDeviceStatus) → UniqueKeys l → UniqueKeys (foreign d l)
unfolding foreign
foreign-UniqueKeys d [] h = tt
foreign-UniqueKeys d (x ∷ l) h = elim (Bool-cases (x.driver == d)) [
  | inl own ↦ rw own (foreign-UniqueKeys d l h.1)
  | inr other ↦ rw other (Fresh-foreign (key_of x) d l h.0, foreign-UniqueKeys d l h.1)
]

-- If no key stands twice on the latest list, none stands twice on the merged list, whatever is
-- desired.
pub merge_device_statuses-UniqueKeys :
    (latest desired : List AllocatedDeviceStatus) (driver_name : String)
    → UniqueKeys latest
    → UniqueKeys (merge_device_statuses latest desired driver_name)
unfolding merge_device_statuses
merge_device_statuses-UniqueKeys latest desired d h =
    upsert_own-UniqueKeys d (foreign d latest) desired (foreign-UniqueKeys d latest h)
