-- ===== src/DeviceState/Advertise/Names.antt =====
-- Which devices are advertised after an update, and when it republishes
-- (pkg/devicestate/state.go).
use k8snetworkplumbingwg_dra.Common.{
  String, Bool, true, false, not, Option, none, some, List, [], ◌∷◌, Map, lookup, insert, delete,
  has_key, keys, lookup-insert, lookup-delete, ◌==◌, eq_string, contains, if◌then◌else◌, ◌≡◌, refl,
  ◌∙◌, arith, inl, inr, Option-cases, ◌&&◌, ◌||◌,
}
use k8snetworkplumbingwg_dra.Kube.{Device, Attributes}
use k8snetworkplumbingwg_dra.DeviceState.State.{Manager}
use k8snetworkplumbingwg_dra.DeviceState.Advertise.{
  PolicyDevices, clear_device, clear_policy_attributes, clear_unmatched, apply_to, apply_policy,
  update_devices, advertised_set_changed, advertise, get_advertised_devices,
}
use k8snetworkplumbingwg_dra.DeviceState.Advertise.Reserved.{contains-keys, lookup-nil}

clear_device-keys :
    (name : String) (o : Option (Map String Bool)) (d : Option Device) (s : Manager)
    → (clear_device name o d s).1.policy_attr_keys ≡ delete name s.policy_attr_keys
clear_device-keys name none d s = refl
clear_device-keys name (some []) d s = refl
clear_device-keys name (some (x ∷ ks)) none s = refl
clear_device-keys name (some (x ∷ ks)) (some d) s = refl

clear_device-has_key :
    (name : String) (o : Option (Map String Bool)) (d : Option Device) (s : Manager) (n : String)
    → lookup name s.allocatable ≡ d
    → has_key n (clear_device name o d s).1.allocatable ≡ has_key n s.allocatable
clear_device-has_key name none d s n h = refl
clear_device-has_key name (some []) d s n h = refl
clear_device-has_key name (some (x ∷ ks)) none s n h = refl
clear_device-has_key name (some (x ∷ ks)) (some d) s n h =
    rw lookup-insert (ground (arith, eq_string.beq_iff name n))

-- A name is recorded as advertised in `p` as in `q`, and a device exists in `p` as in `q`.
abbrev step : PolicyDevices → String → Bool × Manager → Bool × Manager
step policy name (changes, s) =
    if has_key name policy
    then (changes, s)
    else let (cleared, s') = clear_policy_attributes name s in (cleared || changes, s')

step-keys :
    (policy : PolicyDevices) (name : String) (p : Bool × Manager) (n : String)
    → has_key n (step policy name p).1.policy_attr_keys
      ≡ (if name == n && not (has_key n policy) then false else has_key n p.1.policy_attr_keys)
unfolding clear_policy_attributes
step-keys policy name (changes, s) n = ground (
  arith,
  clear_device-keys name (lookup name s.policy_attr_keys) (lookup name s.allocatable) s,
  lookup-delete name n s.policy_attr_keys,
  eq_string.beq_iff name n,
)

step-has_key :
    (policy : PolicyDevices) (name : String) (p : Bool × Manager) (n : String)
    → has_key n (step policy name p).1.allocatable ≡ has_key n p.1.allocatable
unfolding clear_policy_attributes
step-has_key policy name (changes, s) n = ground (
  arith,
  clear_device-has_key name (lookup name s.policy_attr_keys) (lookup name s.allocatable) s n refl,
)

clear_unmatched-keys :
    (policy : PolicyDevices) (names : List String) (p : Bool × Manager) (n : String)
    → has_key n (clear_unmatched policy names p).1.policy_attr_keys ≡ (
        if contains names n && not (has_key n policy)
        then false
        else has_key n p.1.policy_attr_keys)
unfolding clear_unmatched
clear_unmatched-keys policy [] p n = refl
clear_unmatched-keys policy (name ∷ names) p n =
    clear_unmatched-keys policy names (step policy name p) n
    ∙ ground (arith, step-keys policy name p n)

clear_unmatched-has_key :
    (policy : PolicyDevices) (names : List String) (p : Bool × Manager) (n : String)
    → has_key n (clear_unmatched policy names p).1.allocatable ≡ has_key n p.1.allocatable
unfolding clear_unmatched
clear_unmatched-has_key policy [] p n = refl
clear_unmatched-has_key policy (name ∷ names) p n =
    clear_unmatched-has_key policy names (step policy name p) n ∙ step-has_key policy name p n

apply_to-names :
    (name : String) (attrs : Attributes) (d : Option Device) (p : Bool × Manager) (n : String)
    → lookup name p.1.allocatable ≡ d
    → (has_key n (apply_to name attrs d p).1.allocatable ≡ has_key n p.1.allocatable)
      × (has_key n (apply_to name attrs d p).1.policy_attr_keys
          ≡ ((name == n && has_key n p.1.allocatable) || has_key n p.1.policy_attr_keys))
apply_to-names name attrs none p n h = ground (arith, eq_string.beq_iff name n)
apply_to-names name attrs (some d) (changes, s) n h =
    simp lookup-insert (ground (arith, eq_string.beq_iff name n))

apply_policy-names :
    (policy : PolicyDevices) (p : Bool × Manager) (n : String)
    → (has_key n (apply_policy policy p).1.allocatable ≡ has_key n p.1.allocatable)
      × (has_key n (apply_policy policy p).1.policy_attr_keys
          ≡ ((has_key n policy && has_key n p.1.allocatable) || has_key n p.1.policy_attr_keys))
unfolding apply_policy lookup
apply_policy-names [] p n = (refl, refl)
apply_policy-names ((name, attrs) ∷ policy) p n =
    let first = apply_to-names name attrs (lookup name p.1.allocatable) p n refl in
    let rest = apply_policy-names policy (apply_to name attrs (lookup name p.1.allocatable) p) n in
    ground (arith, first, rest)

lookup-advertise :
    (m : Map String Device) (names : List String) (result : Map String Device) (n : String)
    → lookup n (advertise m names result)
      ≡ (if contains names n && has_key n m then lookup n m else lookup n result)
unfolding advertise
lookup-advertise m [] result n = refl
lookup-advertise m (name ∷ names) result n = elim (Option-cases (lookup name m)) [
  | inl absent ↦
      rw absent
        (lookup-advertise m names result n ∙ ground (arith, absent, eq_string.beq_iff name n))
  | inr (d, here) ↦ rw here (
      lookup-advertise m names (insert name d result) n
      ∙ ground (arith, here, eq_string.beq_iff name n, lookup-insert name n d result))
]

-- GetAdvertisedDevices returns the discovered devices whose name is recorded, as discovered.
pub lookup-get_advertised_devices :
    (s : Manager) (n : String)
    → lookup n (get_advertised_devices s)
      ≡ (if has_key n s.policy_attr_keys then lookup n s.allocatable else none)
unfolding get_advertised_devices
lookup-get_advertised_devices s n =
    lookup-advertise s.allocatable (keys s.policy_attr_keys) [] n
    ∙ ground (arith, contains-keys s.policy_attr_keys n, lookup-nil {V = Device} n)

-- After an update the advertised devices are exactly the devices that exist and that the policy
-- names, whatever was advertised before, and an update removes or adds no device.
pub update_devices-advertised :
    (policy : PolicyDevices) (s : Manager) (n : String)
    → (lookup n (get_advertised_devices (update_devices policy s).1)
        ≡ (if has_key n policy then lookup n (update_devices policy s).1.allocatable else none))
      × (has_key n (update_devices policy s).1.allocatable ≡ has_key n s.allocatable)
unfolding update_devices
update_devices-advertised policy s n =
    let ns = keys s.policy_attr_keys in
    let (cleared, s') = clear_unmatched policy ns (false, s) in
    let q : Bool × Manager =
      (if cleared then true else advertised_set_changed policy s'.policy_attr_keys, s') in
    ground (
      arith,
      clear_unmatched-keys policy ns (false, s) n,
      clear_unmatched-has_key policy ns (false, s) n,
      apply_policy-names policy q n,
      contains-keys s.policy_attr_keys n,
      lookup-get_advertised_devices (apply_policy policy q).1 n,
    )
