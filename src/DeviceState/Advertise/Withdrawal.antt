-- ===== src/DeviceState/Advertise/Withdrawal.antt =====
-- Withdrawing every policy when the policies set no attributes (pkg/devicestate/state.go).
use k8snetworkplumbingwg_dra.Common.{
  String, Bool, true, false, Option, List, [], ◌∷◌, Map, lookup, delete, keys, ◌==◌, eq_string,
  contains, ◌≡◌, refl, arith, Bool-cases, inl, inr, All, ok,
}
use k8snetworkplumbingwg_dra.Kube.{Device}
use k8snetworkplumbingwg_dra.DeviceState.State.{Manager}
use k8snetworkplumbingwg_dra.DeviceState.Advertise.{
  clear_device, clear_policy_attributes, clear_unmatched, apply_policy, update_devices, Republish,
  update_policy_devices, advertised_set_changed, advertise, get_advertised_devices,
}

abbrev SetKeys : Type 0
SetKeys = Map String (Map String Bool)

-- No policy set an attribute.
abbrev pub NoneSet : SetKeys → Type 0
NoneSet m = All (λ e. e.1 ≡ []) m

delete-NoneSet : (name : String) (m : SetKeys) → NoneSet m → NoneSet (delete name m)
unfolding delete
delete-NoneSet name [] h = tt
delete-NoneSet name ((k, v) ∷ m) h = elim (Bool-cases (k == name)) [
  | inl same ↦ rw same (delete-NoneSet name m h.1)
  | inr other ↦ rw other (h.0, delete-NoneSet name m h.1)
]

clear_device-NoneSet :
    (name : String) (m : SetKeys) (d : Option Device) (s : Manager)
    → NoneSet m
    → clear_device name (lookup name m) d s
      ≡ (false, record s { policy_attr_keys = delete name s.policy_attr_keys })
unfolding lookup
clear_device-NoneSet name [] d s h = refl
clear_device-NoneSet name ((k, v) ∷ m) d s h = elim (Bool-cases (k == name)) [
  | inl same ↦ rw same (rw h.0)
  | inr other ↦ rw other (clear_device-NoneSet name m d s h.1)
]

delete_all : List String → SetKeys → SetKeys
delete_all [] m = m
delete_all (name ∷ names) m = delete_all names (delete name m)

abbrev Covers : List String → SetKeys → Type 0
Covers names m = All (λ e. contains names e.0 ≡ true) m

delete-Covers :
    (name : String) (names : List String) (m : SetKeys)
    → Covers (name ∷ names) m
    → Covers names (delete name m)
unfolding delete
delete-Covers name names [] h = tt
delete-Covers name names ((k, v) ∷ m) h = elim (Bool-cases (k == name)) [
  | inl same ↦ rw same (delete-Covers name names m h.1)
  | inr other ↦ rw other (
    ground (arith, eq_string.beq_iff k name, eq_string.beq_iff name k, h.0),
    delete-Covers name names m h.1,
  )
]

delete_all-Covers : (names : List String) (m : SetKeys) → Covers names m → delete_all names m ≡ []
unfolding delete_all
delete_all-Covers [] [] h = refl
delete_all-Covers [] (e ∷ m) h = cc
delete_all-Covers (name ∷ names) m h =
    delete_all-Covers names (delete name m) (delete-Covers name names m h)

Covers-cons :
    (name : String) (names : List String) (m : SetKeys) → Covers names m → Covers (name ∷ names) m
Covers-cons name names [] h = tt
Covers-cons name names ((k, v) ∷ m) h = (ground arith, Covers-cons name names m h.1)

Covers-keys : (m : SetKeys) → Covers (keys m) m
Covers-keys [] = tt
Covers-keys ((k, v) ∷ m) =
    (ground (arith, eq_string.beq_iff k k), Covers-cons k (keys m) m (Covers-keys m))

clear_policy_attributes-NoneSet :
    (name : String) (s : Manager)
    → NoneSet s.policy_attr_keys
    → clear_policy_attributes name s
      ≡ (false, record s { policy_attr_keys = delete name s.policy_attr_keys })
unfolding clear_policy_attributes
clear_policy_attributes-NoneSet name s h =
    clear_device-NoneSet name s.policy_attr_keys (lookup name s.allocatable) s h

clear_unmatched-NoneSet :
    (names : List String) (s : Manager)
    → NoneSet s.policy_attr_keys
    → clear_unmatched [] names (false, s)
      ≡ (false, record s { policy_attr_keys = delete_all names s.policy_attr_keys })
unfolding clear_unmatched delete_all lookup
clear_unmatched-NoneSet [] s h = refl
clear_unmatched-NoneSet (name ∷ names) s h = rw (clear_policy_attributes-NoneSet name s h) (
    clear_unmatched-NoneSet names (record s { policy_attr_keys = delete name s.policy_attr_keys })
      (delete-NoneSet name s.policy_attr_keys h))

-- If devices are advertised but no policy set an attribute on them, an empty policy withdraws them
-- all and yet the callback that publishes the resources is not called: the outcome is a success
-- that leaves the published state `w` as it was.
pub update_policy_devices-withdraws :
    {W : Type 0} (callback : Republish W) (s : Manager) (w : W)
    → NoneSet s.policy_attr_keys
    → (update_policy_devices callback [] (s, w) ≡ (ok tt, (record s { policy_attr_keys = [] }, w)))
      × (get_advertised_devices (record s { policy_attr_keys = [] }) ≡ [])
unfolding update_policy_devices update_devices apply_policy advertised_set_changed
    get_advertised_devices advertise
update_policy_devices-withdraws callback s w h = (
  rw (clear_unmatched-NoneSet (keys s.policy_attr_keys) s h) (
      rw (
        delete_all-Covers (keys s.policy_attr_keys) s.policy_attr_keys
          (Covers-keys s.policy_attr_keys))),
  refl,
)
