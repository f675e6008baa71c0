-- ===== src/DeviceState/Advertise/Inserts.antt =====
-- UpdatePolicyDevices writes the map of devices only by assignments (pkg/devicestate/state.go).
use k8snetworkplumbingwg_dra.Common.{
  String, Bool, false, Option, none, some, List, [], ◌∷◌, Map, lookup, insert, keys, has_key,
  eq_string, if_intro, ◌≡◌, arith,
}
use k8snetworkplumbingwg_dra.Kube.{Device, Attributes}
use k8snetworkplumbingwg_dra.DeviceState.State.{Manager}
use k8snetworkplumbingwg_dra.DeviceState.Advertise.{
  PolicyDevices, clear_device, clear_policy_attributes, clear_unmatched, apply_to, apply_policy,
  update_devices, update_policy_devices, Republish,
}

-- A property of the state that every assignment to the two maps keeps.
module _ (P : Manager → Type 0)
    (assigns : (name : String) (d : Device) (s : Manager)
      → P s
      → P (record s { allocatable = insert name d s.allocatable }))
    (records : (m : Map String (Map String Bool)) (s : Manager)
      → P s
      → P (record s { policy_attr_keys = m })) where
  clear_device-keeps :
      (name : String) (o : Option (Map String Bool)) (d : Option Device) (s : Manager)
      → P s
      → P (clear_device name o d s).1
  clear_device-keeps name none d s h = records _ s h
  clear_device-keeps name (some []) d s h = records _ s h
  clear_device-keeps name (some (x ∷ ks)) none s h = records _ s h
  clear_device-keeps name (some (x ∷ ks)) (some d) s h = records _ _ (assigns name _ s h)

  clear_unmatched-keeps :
      (policy : PolicyDevices) (names : List String) (p : Bool × Manager)
      → P p.1
      → P (clear_unmatched policy names p).1
  unfolding clear_unmatched clear_policy_attributes
  clear_unmatched-keeps policy [] p h = h
  clear_unmatched-keeps policy (name ∷ names) p h = clear_unmatched-keeps policy names _ (
      if_intro (λ (q : Bool × Manager). P q.1) (has_key name policy) (λ _. h)
        (λ _.
          clear_device-keeps name (lookup name p.1.policy_attr_keys) (lookup name p.1.allocatable)
            p.1 h))

  apply_to-keeps :
      (name : String) (attrs : Attributes) (d : Option Device) (p : Bool × Manager)
      → P p.1
      → P (apply_to name attrs d p).1
  apply_to-keeps name attrs none p h = h
  apply_to-keeps name attrs (some d) (changes, s) h = records _ _ (assigns name _ s h)

  apply_policy-keeps :
      (policy : PolicyDevices) (p : Bool × Manager) → P p.1 → P (apply_policy policy p).1
  unfolding apply_policy
  apply_policy-keeps [] p h = h
  apply_policy-keeps ((name, attrs) ∷ policy) p h =
      apply_policy-keeps policy (apply_to name attrs (lookup name p.1.allocatable) p)
        (apply_to-keeps name attrs (lookup name p.1.allocatable) p h)

  pub update_devices-keeps :
      (policy : PolicyDevices) (s : Manager) → P s → P (update_devices policy s).1
  unfolding update_devices
  update_devices-keeps policy s h =
      apply_policy-keeps policy _
        (clear_unmatched-keeps policy (keys s.policy_attr_keys) (false, s) h)

-- Whatever the callback answers, the new state is that of the update.
pub update_policy_devices-state :
    {W : Type 0} (callback : Republish W) (policy : PolicyDevices) (s : Manager) (w : W)
    → (update_policy_devices callback policy (s, w)).1.0 ≡ (update_devices policy s).1
unfolding update_policy_devices
update_policy_devices-state none policy s w = ground arith
update_policy_devices-state (some f) policy s w = ground arith
