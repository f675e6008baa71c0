-- ===== src/DeviceState/Advertise/Values.antt =====
-- The attributes that an update gives to a device (pkg/devicestate/state.go).
use k8snetworkplumbingwg_dra.Common.{
  String, Bool, true, false, not, Option, none, some, List, [], ◌∷◌, Map, lookup, has_key, keys,
  lookup-insert, lookup-cons, lookup-delete, ◌==◌, ==_refl, eq_string, eq→path, contains,
  if◌then◌else◌, ◌≡◌, refl, ◌∙◌, sym, arith, is_some, Bool-cases, inl, inr, Option-cases, if_intro,
  ap, ◌&&◌, ◌||◌,
}
use k8snetworkplumbingwg_dra.Kube.{Device, DeviceAttribute, Attributes, device_attribute_equal_iff}
use k8snetworkplumbingwg_dra.DeviceState.State.{Manager}
use k8snetworkplumbingwg_dra.DeviceState.Advertise.{
  PolicyDevices, is_reserved, clear_device, clear_policy_attributes, clear_unmatched, Applied,
  apply_attribute, apply_attributes, is_set, drop_stale, clear_stale, old_keys, apply_to,
  apply_policy, update_devices, advertised_set_changed,
}
use k8snetworkplumbingwg_dra.DeviceState.Advertise.Reserved.{
  contains-keys, lookup-nil, attr, attr_of, owned, owned_in, settle, contains-old_keys,
}

-- The keys of a Go map are distinct.
abbrev pub Distinct : List String → Type 0
Distinct [] = Unit
Distinct (k ∷ ks) = (contains ks k ≡ false) × Distinct ks

-- `o` if it is a value, else `p`.
abbrev pub or_else : Option DeviceAttribute → Option DeviceAttribute → Option DeviceAttribute
or_else none p = p
or_else (some v) p = some v

lookup-apply_attribute :
    (key : String) (val : DeviceAttribute) (a : Applied) (k : String)
    → is_reserved k ≡ false
    → (lookup k (apply_attribute key val a).attributes
        ≡ (if key == k then some val else lookup k a.attributes))
      × (lookup k (apply_attribute key val a).new_keys
          ≡ (if key == k then some true else lookup k a.new_keys))
unfolding apply_attribute
lookup-apply_attribute key val a k r = elim (Option-cases (lookup key a.attributes)) [
  | inl absent ↦ ground (
    arith,
    absent,
    eq_string.beq_iff key k,
    lookup-insert key k val a.attributes,
    lookup-insert key k true a.new_keys,
  )
  | inr (old, here) ↦ ground (
    arith,
    here,
    device_attribute_equal_iff old val,
    eq_string.beq_iff key k,
    lookup-insert key k val a.attributes,
    lookup-insert key k true a.new_keys,
  )
]

lookup-apply_attributes :
    (attrs : Attributes) (a : Applied) (k : String)
    → Distinct (keys attrs)
    → is_reserved k ≡ false
    → (lookup k (apply_attributes attrs a).attributes
        ≡ or_else (lookup k attrs) (lookup k a.attributes))
      × (is_set (lookup k (apply_attributes attrs a).new_keys)
          ≡ (if has_key k attrs then true else is_set (lookup k a.new_keys)))
unfolding apply_attributes lookup
lookup-apply_attributes [] a k d r = (refl, refl)
lookup-apply_attributes ((key, val) ∷ attrs) a k d r = ground (
  arith,
  lookup-apply_attribute key val a k r,
  lookup-apply_attributes attrs (apply_attribute key val a) k d.1 r,
  eq_string.beq_iff key k,
  contains-keys attrs key,
  d.0,
)

lookup-drop_stale :
    (key : String) (a : Applied) (k : String)
    → (lookup k (drop_stale key a).attributes
        ≡ (if key == k && not (is_set (lookup k a.new_keys)) then none else lookup k a.attributes))
      × ((drop_stale key a).new_keys ≡ a.new_keys)
unfolding drop_stale
lookup-drop_stale key a k =
    ground (arith, eq_string.beq_iff key k, lookup-delete key k a.attributes)

lookup-clear_stale :
    (old : List String) (a : Applied) (k : String)
    → lookup k (clear_stale old a).attributes ≡ (
        if contains old k && not (is_set (lookup k a.new_keys))
        then none
        else lookup k a.attributes)
unfolding clear_stale
lookup-clear_stale [] a k = refl
lookup-clear_stale (key ∷ old) a k = ground (
  arith,
  lookup-drop_stale key a k,
  ap (lookup k) (lookup-drop_stale key a k).1,
  lookup-clear_stale old (drop_stale key a) k,
)

-- One device, after both loops.
lookup-settle :
    (attrs : Attributes) (o : Option (Map String Bool)) (start : Attributes) (changes : Bool)
    (k : String)
    → Distinct (keys attrs)
    → is_reserved k ≡ false
    → lookup k
        (settle attrs o
          (record { attributes = start; new_keys = []; changes = changes })).attributes
      ≡ or_else (lookup k attrs) (if owned_in k o then none else lookup k start)
lookup-settle attrs o start changes k d r =
    let a : Applied = record { attributes = start; new_keys = []; changes = changes } in
    ground (
      arith,
      lookup-apply_attributes attrs a k d r,
      lookup-clear_stale (old_keys o) (apply_attributes attrs a) k,
      contains-old_keys o k,
      lookup-nil {V = Bool} k,
    )

-- What the manager holds about one device.
abbrev Same : String → Manager → Manager → Type 0
Same n s t =
    (lookup n t.allocatable ≡ lookup n s.allocatable)
    × (lookup n t.policy_attr_keys ≡ lookup n s.policy_attr_keys)

clear_device-other :
    (name : String) (o : Option (Map String Bool)) (d : Option Device) (s : Manager) (n : String)
    → (name == n) ≡ false
    → Same n s (clear_device name o d s).1
clear_device-other name none d s n ne = (refl, rw lookup-delete (rw ne))
clear_device-other name (some []) d s n ne = (refl, rw lookup-delete (rw ne))
clear_device-other name (some (x ∷ ks)) none s n ne = (refl, rw lookup-delete (rw ne))
clear_device-other name (some (x ∷ ks)) (some d) s n ne =
    (rw lookup-insert (rw ne), rw lookup-delete (rw ne))

abbrev step : PolicyDevices → String → Bool × Manager → Bool × Manager
step policy name (changes, s) =
    if has_key name policy
    then (changes, s)
    else let (cleared, s') = clear_policy_attributes name s in (cleared || changes, s')

step-kept :
    (policy : PolicyDevices) (name : String) (p : Bool × Manager) (n : String)
    → has_key n policy ≡ true
    → Same n p.1 (step policy name p).1
unfolding clear_policy_attributes
step-kept policy name p n h = elim (Bool-cases (name == n)) [
  | inl same ↦ rw (eq→path name n same) (rw h (refl, refl))
  | inr other ↦
      if_intro (λ (q : Bool × Manager). Same n p.1 q.1) (has_key name policy) (λ _. (refl, refl))
        (λ _.
          clear_device-other name (lookup name p.1.policy_attr_keys) (lookup name p.1.allocatable)
            p.1 n other)
]

clear_unmatched-kept :
    (policy : PolicyDevices) (names : List String) (p : Bool × Manager) (n : String)
    → has_key n policy ≡ true
    → Same n p.1 (clear_unmatched policy names p).1
unfolding clear_unmatched
clear_unmatched-kept policy [] p n h = (refl, refl)
clear_unmatched-kept policy (name ∷ names) p n h =
    let first = step-kept policy name p n h in
    let rest = clear_unmatched-kept policy names (step policy name p) n h in
    (rest.0 ∙ first.0, rest.1 ∙ first.1)

apply_to-other :
    (name : String) (attrs : Attributes) (d : Option Device) (p : Bool × Manager) (n : String)
    → (name == n) ≡ false
    → Same n p.1 (apply_to name attrs d p).1
apply_to-other name attrs none p n ne = (refl, refl)
apply_to-other name attrs (some d) (changes, s) n ne =
    (rw lookup-insert (rw ne), rw lookup-insert (rw ne))

apply_policy-other :
    (policy : PolicyDevices) (p : Bool × Manager) (n : String)
    → has_key n policy ≡ false
    → Same n p.1 (apply_policy policy p).1
unfolding apply_policy lookup
apply_policy-other [] p n h = (refl, refl)
apply_policy-other ((name, attrs) ∷ policy) p n h = elim (Bool-cases (name == n)) [
  | inl same ↦ cc (rw (same, lookup) at h)
  | inr other ↦
      let first = apply_to-other name attrs (lookup name p.1.allocatable) p n other in
      let rest =
        apply_policy-other policy (apply_to name attrs (lookup name p.1.allocatable) p) n
          (rw (other, lookup) at h) in
      (rest.0 ∙ first.0, rest.1 ∙ first.1)
]

-- What a policy that gives `attrs` makes of the attribute `k`, from its old value and whether the
-- previous policy set it.
abbrev pub revised : Attributes → String → Bool → Option DeviceAttribute → Option DeviceAttribute
revised attrs k was_set old = or_else (lookup k attrs) (if was_set then none else old)

apply_to-attr :
    (name : String) (attrs : Attributes) (d : Device) (p : Bool × Manager) (k : String)
    → Distinct (keys attrs)
    → is_reserved k ≡ false
    → attr (apply_to name attrs (some d) p).1.allocatable name k
      ≡ revised attrs k (owned p.1.policy_attr_keys name k) (lookup k d.attributes)
apply_to-attr name attrs d (changes, s) k distinct r = rw lookup-insert (
    rw ==_refl
      (lookup-settle attrs (lookup name s.policy_attr_keys) d.attributes changes k distinct r))

-- The first entry of a policy, if its name does not occur again.
apply_policy-head :
    (name : String) (given : Attributes) (policy : PolicyDevices) (p : Bool × Manager) (d : Device)
    (k : String)
    → has_key name policy ≡ false
    → Distinct (keys given)
    → lookup name p.1.allocatable ≡ some d
    → is_reserved k ≡ false
    → attr
        (apply_policy policy (apply_to name given (lookup name p.1.allocatable) p)).1.allocatable
        name
        k
      ≡ revised given k (owned p.1.policy_attr_keys name k) (lookup k d.attributes)
apply_policy-head name given policy p d k absent dg hd r =
    ap (attr_of k)
      (apply_policy-other policy (apply_to name given (lookup name p.1.allocatable) p) name
        absent).0
    ∙ rw hd (apply_to-attr name given d p k dg r)

apply_policy-attr :
    (policy : PolicyDevices) (p : Bool × Manager) (n : String) (attrs : Attributes) (d : Device)
    (k : String)
    → Distinct (keys policy)
    → Distinct (keys attrs)
    → lookup n policy ≡ some attrs
    → lookup n p.1.allocatable ≡ some d
    → is_reserved k ≡ false
    → attr (apply_policy policy p).1.allocatable n k
      ≡ revised attrs k (owned p.1.policy_attr_keys n k) (lookup k d.attributes)
unfolding apply_policy
apply_policy-attr [] p n attrs d k dp da h hd r = cc (lookup-nil {V = Attributes} n)
apply_policy-attr ((name, given) ∷ policy) p n attrs d k dp da h hd r =
    elim (Bool-cases (name == n)) [
      | inl same ↦
          let e = eq→path name n same in
          let absent = sym (contains-keys policy name) ∙ dp.0 in
          let g : given ≡ attrs = cc (rw same at (lookup-cons n name given policy)) in
          rw (← e) (
            rw (← g) (
              apply_policy-head name given policy p d k absent (rw (← g) at da) (rw (← e) at hd) r))
      | inr other ↦
          let found = rw other at (lookup-cons n name given policy) in
          let (alloc, ks) = apply_to-other name given (lookup name p.1.allocatable) p n other in
          apply_policy-attr policy (apply_to name given (lookup name p.1.allocatable) p) n attrs d k
            dp.1 da (sym found ∙ h) (alloc ∙ hd) r
          ∙ ap (λ o. revised attrs k (owned_in k o) (lookup k d.attributes)) ks
    ]

-- A device that the policy names keeps every attribute that neither this policy nor the previous
-- one sets, loses those that only the previous one set, and has the values of this policy for the
-- others. Names and attribute keys are those of Go maps, so they are distinct; reserved attributes
-- are another theorem's.
pub update_devices-attr :
    (policy : PolicyDevices) (s : Manager) (n : String) (attrs : Attributes) (d : Device)
    (k : String)
    → Distinct (keys policy)
    → Distinct (keys attrs)
    → lookup n policy ≡ some attrs
    → lookup n s.allocatable ≡ some d
    → is_reserved k ≡ false
    → attr (update_devices policy s).1.allocatable n k
      ≡ revised attrs k (owned s.policy_attr_keys n k) (lookup k d.attributes)
unfolding update_devices
update_devices-attr policy s n attrs d k dp da h hd r =
    let named = ap is_some h in
    let ns = keys s.policy_attr_keys in
    let (cleared, s') = clear_unmatched policy ns (false, s) in
    let (alloc, ks) = clear_unmatched-kept policy ns (false, s) n named in
    apply_policy-attr policy
      (if cleared then true else advertised_set_changed policy s'.policy_attr_keys, s') n attrs d k
      dp da h (alloc ∙ hd) r
    ∙ ap (λ o. revised attrs k (owned_in k o) (lookup k d.attributes)) ks
