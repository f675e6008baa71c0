-- ===== src/DeviceState/Advertise.antt =====
-- pkg/devicestate/state.go: UpdatePolicyDevices, clearPolicyAttributes and GetAdvertisedDevices.
pub mod Inserts
pub mod Reserved
pub mod Names
pub mod Values
pub mod Withdrawal
mod Tests
use k8snetworkplumbingwg_dra.Common.{
  String, Bool, true, false, not, Option, none, some, List, [], ◌∷◌, Map, lookup, insert, delete,
  has_key, keys, ◌==◌, eq_string, eq_nat, ◌||◌, length, contains, if◌then◌else◌, Error, wrap,
  Result, ok, err, panic, Action, map_err, pure,
}
use k8snetworkplumbingwg_dra.Kube.{Device, DeviceAttribute, Attributes, device_attribute_equal}
use k8snetworkplumbingwg_dra.Consts.{reserved_attributes}
use k8snetworkplumbingwg_dra.DeviceState.State.{Manager}

-- map[string]map[resourceapi.QualifiedName]resourceapi.DeviceAttribute
abbrev pub PolicyDevices : Type 0
PolicyDevices = Map String Attributes

-- consts.ReservedAttributes[key]
unfoldable pub is_reserved : String → Bool
unfolding reserved_attributes
is_reserved key = contains reserved_attributes key

-- `for key := range keys { delete(attributes, key) }`
unfoldable pub delete_keys : List String → Attributes → Attributes
delete_keys [] attributes = attributes
delete_keys (key ∷ ks) attributes = delete_keys ks (delete key attributes)

abbrev pub clear_device :
    String → Option (Map String Bool) → Option Device → Manager → Bool × Manager
clear_device name none device s =
    (false, record s { policy_attr_keys = delete name s.policy_attr_keys })
clear_device name (some []) device s =
    (false, record s { policy_attr_keys = delete name s.policy_attr_keys })
clear_device name (some (k ∷ ks)) none s =
    (false, record s { policy_attr_keys = delete name s.policy_attr_keys })
clear_device name (some (k ∷ ks)) (some device) s = (
  true,
  record s {
    allocatable =
        insert name (record device { attributes = delete_keys (keys (k ∷ ks)) device.attributes })
          s.allocatable;
    policy_attr_keys = delete name s.policy_attr_keys;
  },
)

unfoldable pub clear_policy_attributes : String → Manager → Bool × Manager
clear_policy_attributes name s =
    clear_device name (lookup name s.policy_attr_keys) (lookup name s.allocatable) s

-- The first loop over the advertised names; the flag is changesMade.
unfoldable pub clear_unmatched : PolicyDevices → List String → Bool × Manager → Bool × Manager
clear_unmatched policy [] p = p
clear_unmatched policy (name ∷ names) (changes, s) = clear_unmatched policy names (
    if has_key name policy
    then (changes, s)
    else let (cleared, s') = clear_policy_attributes name s in (cleared || changes, s'))

abbrev pub all_have_key : {V : Type 0} → List String → Map String V → Bool
all_have_key [] m = true
all_have_key (k ∷ ks) m = if has_key k m then all_have_key ks m else false

-- Whether the set of advertised names differs from that of the policy.
unfoldable pub advertised_set_changed : PolicyDevices → Map String (Map String Bool) → Bool
advertised_set_changed policy policy_attr_keys =
    if not (length policy == length policy_attr_keys)
    then true
    else not (all_have_key (keys policy) policy_attr_keys)

-- What the loops over one device's attributes assign.
pub record Applied : Type 0 where
  pub attributes : Attributes
  pub new_keys : Map String Bool
  pub changes : Bool

abbrev pub differs : Option DeviceAttribute → DeviceAttribute → Bool
differs none val = true
differs (some existing) val = not (device_attribute_equal existing val)

unfoldable pub apply_attribute : String → DeviceAttribute → Applied → Applied
apply_attribute key val a =
    if is_reserved key
    then a
    else if differs (lookup key a.attributes) val
    then (record {
      attributes = insert key val a.attributes;
      new_keys = insert key true a.new_keys;
      changes = true;
    })
    else record a { new_keys = insert key true a.new_keys }

unfoldable pub apply_attributes : Attributes → Applied → Applied
apply_attributes [] a = a
apply_attributes ((key, val) ∷ attrs) a = apply_attributes attrs (apply_attribute key val a)

-- `newKeys[key]`
abbrev pub is_set : Option Bool → Bool
is_set none = false
is_set (some b) = b

-- A policy key that is no longer in the new set.
unfoldable pub drop_stale : String → Applied → Applied
drop_stale key a =
    if not (is_set (lookup key a.new_keys))
    then record a { attributes = delete key a.attributes; changes = true }
    else a

unfoldable pub clear_stale : List String → Applied → Applied
clear_stale [] a = a
clear_stale (key ∷ old) a = clear_stale old (drop_stale key a)

abbrev pub old_keys : Option (Map String Bool) → List String
old_keys none = []
old_keys (some m) = keys m

abbrev pub apply_to : String → Attributes → Option Device → Bool × Manager → Bool × Manager
apply_to name attrs none p = p
apply_to name attrs (some device) (changes, s) =
    let a = clear_stale (old_keys (lookup name s.policy_attr_keys)) (
      apply_attributes attrs
        (record { attributes = device.attributes; new_keys = []; changes = changes })) in
    (
      a.changes,
      record s {
        allocatable = insert name (record device { attributes = a.attributes }) s.allocatable;
        policy_attr_keys = insert name a.new_keys s.policy_attr_keys;
      },
    )

unfoldable pub apply_policy : PolicyDevices → Bool × Manager → Bool × Manager
apply_policy [] p = p
apply_policy ((name, attrs) ∷ policy) p =
    apply_policy policy (apply_to name attrs (lookup name p.1.allocatable) p)

-- The new state, and whether changes were made.
unfoldable pub update_devices : PolicyDevices → Manager → Bool × Manager
update_devices policy s =
    let (cleared, s') = clear_unmatched policy (keys s.policy_attr_keys) (false, s) in
    apply_policy policy
      (if cleared then true else advertised_set_changed policy s'.policy_attr_keys, s')

-- The callback sees the new state; `none` is a callback that was not set.
abbrev pub Republish : Type 0 → Type 0
Republish W = Option (Manager → Action W (Unit {0}))

abbrev pub republish : {W : Type 0} → Republish W → Manager → Action W (Unit {0})
republish none s = pure tt
republish (some callback) s = map_err (wrap "failed to republish resources") (callback s)

unfoldable pub update_policy_devices :
    {W : Type 0} → Republish W → PolicyDevices → Action (Manager × W) (Unit {0})
update_policy_devices callback policy (s, w) =
    let (changes, s') = update_devices policy s in
    if not changes then (ok tt, (s', w)) else let (r, w') = republish callback s' w in (r, (s', w'))

abbrev pub take_device : String → Option Device → Map String Device → Map String Device
take_device name none result = result
take_device name (some device) result = insert name device result

-- The loop of GetAdvertisedDevices.
unfoldable pub advertise : Map String Device → List String → Map String Device → Map String Device
advertise allocatable [] result = result
advertise allocatable (name ∷ names) result =
    advertise allocatable names (take_device name (lookup name allocatable) result)

unfoldable pub get_advertised_devices : Manager → Map String Device
get_advertised_devices s = advertise s.allocatable (keys s.policy_attr_keys) []
