-- ===== src/Types/ClaimStatus/Merge.antt =====
-- What MergeDeviceStatuses keeps and what it replaces (pkg/types/claimstatus.go).
use k8snetworkplumbingwg_dra.Common.{
  String, Option, some, none, true, false, List, [], ◌∷◌, ◌≡◌, refl, ◌∙◌, ◌==◌, eq_string, arith,
  if◌then◌else◌, Bool-cases, inl, inr, ap, eq→path, ==_refl,
}
use k8snetworkplumbingwg_dra.Kube.{AllocatedDeviceStatus}
use k8snetworkplumbingwg_dra.Types.ClaimStatus.Key.{
  DeviceStatusKey, key_of, key_eq_iff, eq_key, upsert_device_status, foreign, upsert_own,
  merge_device_statuses,
}

-- The first entry of a key, and the last one.
unfoldable pub find_status :
    DeviceStatusKey → List AllocatedDeviceStatus → Option AllocatedDeviceStatus
find_status k [] = none
find_status k (x ∷ list) = if key_of x == k then some x else find_status k list

abbrev pub or_else :
    Option AllocatedDeviceStatus → Option AllocatedDeviceStatus → Option AllocatedDeviceStatus
or_else none other = other
or_else (some x) other = some x

unfoldable pub last_status :
    DeviceStatusKey → List AllocatedDeviceStatus → Option AllocatedDeviceStatus
last_status k [] = none
last_status k (x ∷ list) = or_else (last_status k list) (if key_of x == k then some x else none)

pub driver-key_of : (a : AllocatedDeviceStatus) → (key_of a).driver ≡ a.driver
unfolding key_of
driver-key_of a = refl

pub key_driver : (a b : AllocatedDeviceStatus) → (key_of a == key_of b) ≡ true → a.driver ≡ b.driver
unfolding key_of
key_driver a b h = ap (λ k. k.driver) ((key_eq_iff (key_of a) (key_of b)).0 h)

foreign-upsert :
    (d : String) (l : List AllocatedDeviceStatus) (s : AllocatedDeviceStatus)
    → (s.driver == d) ≡ true
    → foreign d (upsert_device_status l s) ≡ foreign d l
unfolding foreign upsert_device_status
foreign-upsert d [] s own = rw own
foreign-upsert d (x ∷ l) s own = elim (Bool-cases (key_of x == key_of s)) [
  | inl same ↦ rw (same, own, key_driver x s same, own)
  | inr other ↦ rw (other, foreign-upsert d l s own)
]

foreign-upsert_own :
    (d : String) (merged desired : List AllocatedDeviceStatus)
    → foreign d (upsert_own d merged desired) ≡ foreign d merged
unfolding upsert_own
foreign-upsert_own d merged [] = refl
foreign-upsert_own d merged (s ∷ desired) = elim (Bool-cases (s.driver == d)) [
  | inl own ↦
      rw own (
        foreign-upsert_own d (upsert_device_status merged s) desired
        ∙ foreign-upsert d merged s own)
  | inr other ↦ rw other (foreign-upsert_own d merged desired)
]

pub foreign_idem :
    (d : String) (l : List AllocatedDeviceStatus) → foreign d (foreign d l) ≡ foreign d l
unfolding foreign
foreign_idem d [] = refl
foreign_idem d (x ∷ l) = ground (arith, foreign_idem d l)

-- The entries of the other drivers on the merged list are those of the latest list, in their
-- order, whatever this driver desires.
pub foreign-merge_device_statuses :
    (latest desired : List AllocatedDeviceStatus) (driver_name : String)
    → foreign driver_name (merge_device_statuses latest desired driver_name)
      ≡ foreign driver_name latest
unfolding merge_device_statuses
foreign-merge_device_statuses latest desired d =
    foreign-upsert_own d (foreign d latest) desired ∙ foreign_idem d latest

find-upsert :
    (k : DeviceStatusKey) (l : List AllocatedDeviceStatus) (s : AllocatedDeviceStatus)
    → find_status k (upsert_device_status l s) ≡ (if key_of s == k then some s else find_status k l)
unfolding find_status upsert_device_status
find-upsert k [] s = refl
find-upsert k (x ∷ l) s = ground (
  arith,
  find-upsert k l s,
  key_eq_iff (key_of x) (key_of s),
  key_eq_iff (key_of s) k,
  key_eq_iff (key_of x) k,
)

find-foreign :
    (d : String) (k : DeviceStatusKey) (l : List AllocatedDeviceStatus)
    → find_status k (foreign d l) ≡ (if k.driver == d then none else find_status k l)
unfolding find_status foreign
find-foreign d k [] = ground arith
find-foreign d k (x ∷ l) = ground (
  arith,
  find-foreign d k l,
  key_eq_iff (key_of x) k,
  driver-key_of x,
  eq_string.beq_iff x.driver d,
  eq_string.beq_iff k.driver d,
)

find-upsert_own_self :
    (k : DeviceStatusKey) (merged desired : List AllocatedDeviceStatus)
    → find_status k (upsert_own k.driver merged desired)
      ≡ or_else (last_status k desired) (find_status k merged)
unfolding upsert_own last_status
find-upsert_own_self k merged [] = refl
find-upsert_own_self k merged (s ∷ desired) = elim (Bool-cases (s.driver == k.driver)) [
  | inl own ↦ rw own (
      find-upsert_own_self k (upsert_device_status merged s) desired
      ∙ ground (arith, find-upsert k merged s))
  | inr other ↦ rw other (
      find-upsert_own_self k merged desired
      ∙ ground
          (arith, key_eq_iff (key_of s) k, driver-key_of s, eq_string.beq_iff s.driver k.driver))
]

find-upsert_own_ne :
    (d : String) (k : DeviceStatusKey) (merged desired : List AllocatedDeviceStatus)
    → (k.driver == d) ≡ false
    → find_status k (upsert_own d merged desired) ≡ find_status k merged
unfolding upsert_own
find-upsert_own_ne d k merged [] ne = refl
find-upsert_own_ne d k merged (s ∷ desired) ne = elim (Bool-cases (s.driver == d)) [
  | inl own ↦ rw own (
      find-upsert_own_ne d k (upsert_device_status merged s) desired ne
      ∙ ground (
        arith,
        find-upsert k merged s,
        key_eq_iff (key_of s) k,
        driver-key_of s,
        eq_string.beq_iff s.driver d,
        eq_string.beq_iff k.driver d,
      ))
  | inr other ↦ rw other (find-upsert_own_ne d k merged desired ne)
]

or_else-none : (o : Option AllocatedDeviceStatus) → or_else o none ≡ o
or_else-none none = refl
or_else-none (some x) = refl

-- On the merged list a key of this driver has its last desired entry (and is absent when nothing
-- is desired for it), and a key of another driver has its entry of the latest list.
pub find-merge_device_statuses :
    (k : DeviceStatusKey) (latest desired : List AllocatedDeviceStatus) (driver_name : String)
    → find_status k (merge_device_statuses latest desired driver_name)
      ≡ (if k.driver == driver_name then last_status k desired else find_status k latest)
unfolding merge_device_statuses
find-merge_device_statuses k latest desired d = elim (Bool-cases (k.driver == d)) [
  | inl own ↦ rw own (
      rw (← eq→path k.driver d own) (
        find-upsert_own_self k (foreign k.driver latest) desired
        ∙ rw find-foreign (rw ==_refl (or_else-none (last_status k desired)))))
  | inr other ↦
      rw other
        (find-upsert_own_ne d k (foreign d latest) desired other ∙ rw find-foreign (rw other))
]
