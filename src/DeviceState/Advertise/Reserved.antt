-- ===== src/DeviceState/Advertise/Reserved.antt =====
-- Policies cannot touch what discovery found (pkg/devicestate/state.go).
use k8snetworkplumbingwg_dra.Common.{
  String, Bool, true, false, Option, none, some, List, [], ◌∷◌, Map, lookup, insert, delete,
  has_key, keys, lookup-insert, lookup-delete, ◌==◌, eq_string, contains, if◌then◌else◌, ◌≡◌, refl,
  ◌∙◌, arith, if_intro, ap,
}
use k8snetworkplumbingwg_dra.Kube.{Device, DeviceAttribute, Attributes}
use k8snetworkplumbingwg_dra.DeviceState.State.{Manager}
use k8snetworkplumbingwg_dra.DeviceState.Advertise.{
  PolicyDevices, is_reserved, delete_keys, clear_device, clear_policy_attributes, clear_unmatched,
  Applied, apply_attribute, apply_attributes, drop_stale, clear_stale, old_keys, apply_to,
  apply_policy, update_devices, Republish, update_policy_devices,
}

abbrev pub attr_of : String → Option Device → Option DeviceAttribute
attr_of k none = none
attr_of k (some d) = lookup k d.attributes

-- The attribute `k` of the device `n`.
abbrev pub attr : Map String Device → String → String → Option DeviceAttribute
attr m n k = attr_of k (lookup n m)

abbrev pub owned_in : String → Option (Map String Bool) → Bool
owned_in k none = false
owned_in k (some ks) = has_key k ks

-- Whether a policy set the attribute `k` of the device `n`.
abbrev pub owned : Map String (Map String Bool) → String → String → Bool
owned m n k = owned_in k (lookup n m)

pub attr-insert :
    (name : String) (d : Device) (m : Map String Device) (n k : String)
    → attr (insert name d m) n k ≡ (if name == n then lookup k d.attributes else attr m n k)
attr-insert name d m n k = ground (arith, lookup-insert name n d m)

pub owned-delete :
    (name : String) (m : Map String (Map String Bool)) (n k : String)
    → owned (delete name m) n k ≡ (if name == n then false else owned m n k)
owned-delete name m n k = ground (arith, lookup-delete name n m)

pub owned-insert :
    (name : String) (ks : Map String Bool) (m : Map String (Map String Bool)) (n k : String)
    → owned (insert name ks m) n k ≡ (if name == n then has_key k ks else owned m n k)
owned-insert name ks m n k = ground (arith, lookup-insert name n ks m)

pub contains-keys : {V : Type 0} (m : Map String V) (k : String) → contains (keys m) k ≡ has_key k m
unfolding lookup
contains-keys [] k = refl
contains-keys ((j, v) ∷ m) k = ground (arith, contains-keys m k)

pub lookup-delete_keys :
    (ks : List String) (m : Attributes) (k : String)
    → lookup k (delete_keys ks m) ≡ (if contains ks k then none else lookup k m)
unfolding delete_keys
lookup-delete_keys [] m k = refl
lookup-delete_keys (j ∷ ks) m k =
    ground (arith, lookup-delete_keys ks (delete j m) k, lookup-delete j k m)

-- No reserved key is recorded as set by a policy, and the reserved attributes are those of
-- `found`.
pub record IsIntact (found : Map String Device) (s : Manager) : Type 0 where
  pub not_owned : (n k : String) → is_reserved k ≡ true → owned s.policy_attr_keys n k ≡ false
  pub kept : (n k : String) → is_reserved k ≡ true → attr s.allocatable n k ≡ attr found n k

module _ (found : Map String Device) where
  clear_device-IsIntact :
      (name : String) (o : Option (Map String Bool)) (d : Option Device) (s : Manager)
      → lookup name s.policy_attr_keys ≡ o
      → lookup name s.allocatable ≡ d
      → IsIntact found s
      → IsIntact found (clear_device name o d s).1
  clear_device-IsIntact name none d s ho hd h = record {
    not_owned =
        λ n k r. ground (arith, owned-delete name s.policy_attr_keys n k, h.not_owned n k r);
    kept = h.kept;
  }
  clear_device-IsIntact name (some []) d s ho hd h = record {
    not_owned =
        λ n k r. ground (arith, owned-delete name s.policy_attr_keys n k, h.not_owned n k r);
    kept = h.kept;
  }
  clear_device-IsIntact name (some (x ∷ ks)) none s ho hd h = record {
    not_owned =
        λ n k r. ground (arith, owned-delete name s.policy_attr_keys n k, h.not_owned n k r);
    kept = h.kept;
  }
  clear_device-IsIntact name (some (x ∷ ks)) (some d) s ho hd h = record {
    not_owned =
        λ n k r. ground (arith, owned-delete name s.policy_attr_keys n k, h.not_owned n k r);
    kept = λ n k r. ground (
      arith,
      attr-insert name (record d { attributes = delete_keys (keys (x ∷ ks)) d.attributes })
          s.allocatable n k,
      eq_string.beq_iff name n,
      lookup-delete_keys (keys (x ∷ ks)) d.attributes k,
      contains-keys (x ∷ ks) k,
      h.not_owned name k r,
      h.kept n k r,
    );
  }

  clear_policy_attributes-IsIntact :
      (name : String) (s : Manager)
      → IsIntact found s
      → IsIntact found (clear_policy_attributes name s).1
  unfolding clear_policy_attributes
  clear_policy_attributes-IsIntact name s h =
      clear_device-IsIntact name (lookup name s.policy_attr_keys) (lookup name s.allocatable) s refl
        refl h

  clear_unmatched-IsIntact :
      (policy : PolicyDevices) (names : List String) (p : Bool × Manager)
      → IsIntact found p.1
      → IsIntact found (clear_unmatched policy names p).1
  unfolding clear_unmatched
  clear_unmatched-IsIntact policy [] p h = h
  clear_unmatched-IsIntact policy (name ∷ names) p h = clear_unmatched-IsIntact policy names _ (
      if_intro (λ (q : Bool × Manager). IsIntact found q.1) (has_key name policy) (λ _. h)
        (λ _. clear_policy_attributes-IsIntact name p.1 h))

-- The loops over the attributes leave a reserved key alone.
apply_attribute-reserved :
    (key : String) (val : DeviceAttribute) (a : Applied) (k : String)
    → is_reserved k ≡ true
    → (lookup k (apply_attribute key val a).attributes ≡ lookup k a.attributes)
      × (lookup k (apply_attribute key val a).new_keys ≡ lookup k a.new_keys)
unfolding apply_attribute
apply_attribute-reserved key val a k r = ground (
  arith,
  eq_string.beq_iff key k,
  lookup-insert key k val a.attributes,
  lookup-insert key k true a.new_keys,
)

apply_attributes-reserved :
    (attrs : Attributes) (a : Applied) (k : String)
    → is_reserved k ≡ true
    → (lookup k (apply_attributes attrs a).attributes ≡ lookup k a.attributes)
      × (lookup k (apply_attributes attrs a).new_keys ≡ lookup k a.new_keys)
unfolding apply_attributes
apply_attributes-reserved [] a k r = (refl, refl)
apply_attributes-reserved ((key, val) ∷ attrs) a k r =
    let first = apply_attribute-reserved key val a k r in
    let rest = apply_attributes-reserved attrs (apply_attribute key val a) k r in
    (rest.0 ∙ first.0, rest.1 ∙ first.1)

pub lookup-nil : {V : Type 0} (k : String) → lookup {V = V} k [] ≡ none
unfolding lookup
lookup-nil k = refl

drop_stale-other :
    (key : String) (a : Applied) (k : String)
    → (key == k) ≡ false
    → (lookup k (drop_stale key a).attributes ≡ lookup k a.attributes)
      × ((drop_stale key a).new_keys ≡ a.new_keys)
unfolding drop_stale
drop_stale-other key a k ne = ground (arith, lookup-delete key k a.attributes)

contains-cons :
    (x : String) (xs : List String) (k : String)
    → contains (x ∷ xs) k ≡ false
    → ((x == k) ≡ false) × (contains xs k ≡ false)
contains-cons x xs k h = ground arith

clear_stale-reserved :
    (old : List String) (a : Applied) (k : String)
    → contains old k ≡ false
    → (lookup k (clear_stale old a).attributes ≡ lookup k a.attributes)
      × ((clear_stale old a).new_keys ≡ a.new_keys)
unfolding clear_stale
clear_stale-reserved [] a k r = (refl, refl)
clear_stale-reserved (key ∷ old) a k r =
    let (ne, out) = contains-cons key old k r in
    let first = drop_stale-other key a k ne in
    let rest = clear_stale-reserved old (drop_stale key a) k out in
    (rest.0 ∙ first.0, rest.1 ∙ first.1)

pub contains-old_keys :
    (o : Option (Map String Bool)) (k : String) → contains (old_keys o) k ≡ owned_in k o
contains-old_keys none k = refl
contains-old_keys (some m) k = contains-keys m k

-- What the two loops make of one device.
abbrev pub settle : Attributes → Option (Map String Bool) → Applied → Applied
settle attrs o a = clear_stale (old_keys o) (apply_attributes attrs a)

settle-reserved :
    (attrs : Attributes) (o : Option (Map String Bool)) (a : Applied) (k : String)
    → is_reserved k ≡ true
    → owned_in k o ≡ false
    → (lookup k (settle attrs o a).attributes ≡ lookup k a.attributes)
      × (lookup k (settle attrs o a).new_keys ≡ lookup k a.new_keys)
settle-reserved attrs o a k r h =
    let first = apply_attributes-reserved attrs a k r in
    let rest =
      clear_stale-reserved (old_keys o) (apply_attributes attrs a) k (contains-old_keys o k ∙ h) in
    (rest.0 ∙ first.0, ap (lookup k) rest.1 ∙ first.1)

module _ (found : Map String Device) where
  apply_to-IsIntact :
      (name : String) (attrs : Attributes) (d : Option Device) (p : Bool × Manager)
      → lookup name p.1.allocatable ≡ d
      → IsIntact found p.1
      → IsIntact found (apply_to name attrs d p).1
  apply_to-IsIntact name attrs none p hd h = h
  apply_to-IsIntact name attrs (some d) (changes, s) hd h =
      let o = lookup name s.policy_attr_keys in
      let start : Applied = record {
        attributes = d.attributes;
        new_keys = [];
        changes = changes;
      } in
      let a = settle attrs o start in
      record {
        not_owned = λ n k r. ground (
          arith,
          owned-insert name a.new_keys s.policy_attr_keys n k,
          settle-reserved attrs o start k r (h.not_owned name k r),
          lookup-nil {V = Bool} k,
          h.not_owned n k r,
        );
        kept = λ n k r. ground (
          arith,
          attr-insert name (record d { attributes = a.attributes }) s.allocatable n k,
          eq_string.beq_iff name n,
          settle-reserved attrs o start k r (h.not_owned name k r),
          h.kept n k r,
        );
      }

  apply_policy-IsIntact :
      (policy : PolicyDevices) (p : Bool × Manager)
      → IsIntact found p.1
      → IsIntact found (apply_policy policy p).1
  unfolding apply_policy
  apply_policy-IsIntact [] p h = h
  apply_policy-IsIntact ((name, attrs) ∷ policy) p h =
      apply_policy-IsIntact policy (apply_to name attrs (lookup name p.1.allocatable) p)
        (apply_to-IsIntact name attrs (lookup name p.1.allocatable) p refl h)

  pub update_devices-IsIntact :
      (policy : PolicyDevices) (s : Manager)
      → IsIntact found s
      → IsIntact found (update_devices policy s).1
  unfolding update_devices
  update_devices-IsIntact policy s h =
      apply_policy-IsIntact policy _
        (clear_unmatched-IsIntact found policy (keys s.policy_attr_keys) (false, s) h)

-- Whatever the policy and the outcome of the callback, an update keeps every reserved attribute of
-- every device as discovery found it, and records no reserved attribute as set by a policy.
pub update_policy_devices-IsIntact :
    {W : Type 0} (callback : Republish W) (policy : PolicyDevices) (found : Map String Device)
    (s : Manager) (w : W)
    → IsIntact found s
    → IsIntact found (update_policy_devices callback policy (s, w)).1.0
unfolding update_policy_devices
update_policy_devices-IsIntact callback policy found s w h =
    let (changes, s') = update_devices policy s in
    ground (arith, update_devices-IsIntact found policy s h)
