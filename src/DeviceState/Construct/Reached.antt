-- ===== src/DeviceState/Construct/Reached.antt =====
-- The states of a manager, from NewManager on (pkg/devicestate/state.go). After the construction only
-- UpdatePolicyDevices changes the manager's own state.
use k8snetworkplumbingwg_dra.Common.{
  String, Bool, true, false, not, ◌||◌, Option, none, some, Map, lookup, is_some, keys, eq_string,
  Result, ok, err, panic, Error, quote, ◌≡◌, refl, sym, ap, ◌∙◌, arith, if_intro, ◌==◌, subst,
}
use k8snetworkplumbingwg_dra.Kube.{Device}
use k8snetworkplumbingwg_dra.Types.Config.{Config, Flags}
use k8snetworkplumbingwg_dra.Common.Yields.{OnOk, on_ok-any}
use k8snetworkplumbingwg_dra.Host.Sysfs.{on_value}
use k8snetworkplumbingwg_dra.DeviceState.State.{Manager, is_standalone_mode, is_multus_mode}
use k8snetworkplumbingwg_dra.DeviceState.Advertise.{
  PolicyDevices, Republish, is_reserved, update_policy_devices, update_devices,
}
use k8snetworkplumbingwg_dra.DeviceState.Advertise.Inserts.{
  update_policy_devices-state, update_devices-keeps,
}
use k8snetworkplumbingwg_dra.DeviceState.Advertise.Names.{update_devices-advertised}
use k8snetworkplumbingwg_dra.DeviceState.Advertise.Reserved.{
  IsIntact, attr, attr_of, owned, owned_in, lookup-nil, update_devices-IsIntact,
}
use k8snetworkplumbingwg_dra.DeviceState.Advertise.Values.{Distinct}
use k8snetworkplumbingwg_dra.DeviceState.Discovery.{
  DiscoveryHost, discover_sriov_devices, device_name,
}
use k8snetworkplumbingwg_dra.DeviceState.Discovery.Reserves.{last_named-OfVf, OfVf}
use k8snetworkplumbingwg_dra.DeviceState.DeviceInfo.{string_value}
use k8snetworkplumbingwg_dra.Host.Pci.{VfInfo}
use k8snetworkplumbingwg_dra.Consts.{attribute_pci_address}
use k8snetworkplumbingwg_dra.DeviceState.Discovery.Found.{
  last_named, all_vfs, pfs_of, insert-Distinct, discover-OnOk,
}
use k8snetworkplumbingwg_dra.DeviceState.Construct.{
  normalize_configuration_mode, state_of, new_manager, manager_of, unchanged, non_nil,
}

-- A manager that NewManager returns, and the managers after updates of the policies.
pub data Reached (C W : Type 0) {S : Type 0} (host : DiscoveryHost) (store : S)
    : Manager → Type 0 where
  created :
      (config : Option Config) (cdi : Option C) (given : Option S) (s : Manager) (handles : C × S)
      → new_manager host store config cdi given ≡ ok (s, handles)
      → Reached C W host store s
  updated :
      (s : Manager) (callback : Republish W) (policy : PolicyDevices) (w : W)
      → Reached C W host store s
      → Reached C W host store (update_policy_devices callback policy (s, w)).1.0

-- `n` names a device exactly if discovery found a VF of that name, whose reserved attributes the
-- device has; the policies own no reserved attribute, no name stands twice, and the mode is one of
-- the two.
pub record IsSound (host : DiscoveryHost) (s : Manager) : Type 0 where
  pub one_mode : is_standalone_mode s ≡ not (is_multus_mode s)
  pub distinct : Distinct (keys s.allocatable)
  pub named :
      (n : String)
      → is_some (lookup n s.allocatable)
        ≡ is_some (last_named host n (all_vfs host (pfs_of host host.pci)))
  pub not_owned : (n k : String) → is_reserved k ≡ true → owned s.policy_attr_keys n k ≡ false
  pub reserved :
      (n k : String)
      → is_reserved k ≡ true
      → attr s.allocatable n k ≡ attr_of k (last_named host n (all_vfs host (pfs_of host host.pci)))

abbrev OneMode : String → Type 0
OneMode m = (m == "" || m == "STANDALONE") ≡ not (m == "MULTUS")

normalize-OneMode : (mode : String) → OnOk (normalize_configuration_mode mode) OneMode
unfolding normalize_configuration_mode
normalize-OneMode mode =
    let P = λ (r : Result String). OnOk r OneMode in
    if_intro P (mode == "") (λ _. refl)
      (λ _.
        if_intro P (mode == "STANDALONE") (λ _. refl)
          (λ _. if_intro P (mode == "MULTUS") (λ _. refl) (λ _. tt)))

on_value-on_ok :
    {A B : Type 0} (g : Error → Error) (Q : A → Type 0) (P : B → Type 0) (r : Result A)
    (f : A → Result B)
    → OnOk r Q
    → ((a : A) → Q a → OnOk (f a) P)
    → OnOk (on_value g r f) P
on_value-on_ok g Q P (ok a) f h more = more a h
on_value-on_ok g Q P (err e) f h more = tt
on_value-on_ok g Q P panic f h more = tt

module _ (host : DiscoveryHost) where
  abbrev found_vf : String → Option Device
  found_vf n = last_named host n (all_vfs host (pfs_of host host.pci))

  manager_of-IsSound :
      (flags : Flags) (mode : String) (found : Map String Device)
      → OneMode mode
      → Distinct (keys found)
      → ((n : String) → lookup n found ≡ found_vf n)
      → IsSound host (manager_of host flags mode found)
  unfolding is_standalone_mode is_multus_mode
  manager_of-IsSound flags mode found one distinct described = record {
    one_mode = one;
    distinct = distinct;
    named = λ n. ap (λ (o : Option Device). is_some o) (described n);
    not_owned = λ n k r. ap (λ (o : Option (Map String Bool)). owned_in k o) (lookup-nil n);
    reserved = λ n k r. ap (attr_of k) (described n);
  }

  state_of-IsSound : (flags : Flags) → OnOk (state_of host flags) (IsSound host)
  unfolding state_of
  state_of-IsSound flags =
      on_value-on_ok unchanged OneMode (IsSound host)
        (normalize_configuration_mode flags.configuration_mode) _
        (normalize-OneMode flags.configuration_mode)
        (λ mode one.
          on_value-on_ok (quote "error enumerating all possible devices: %v") _ (IsSound host)
            (discover_sriov_devices host) _ (discover-OnOk host)
            (λ found h. manager_of-IsSound flags mode found one h.0 h.1))

  update_devices-IsSound :
      (policy : PolicyDevices) (s : Manager)
      → IsSound host s
      → IsSound host (update_devices policy s).1
  unfolding is_standalone_mode is_multus_mode
  update_devices-IsSound policy s h =
      let start : IsIntact s.allocatable s = record {
        not_owned = h.not_owned;
        kept = λ n k r. refl;
      } in
      let intact = update_devices-IsIntact s.allocatable policy s start in
      record {
        one_mode =
            update_devices-keeps (λ t. is_standalone_mode t ≡ not (is_multus_mode t))
              (λ name d t e. e) (λ m t e. e) policy s h.one_mode;
        distinct =
            update_devices-keeps (λ t. Distinct (keys t.allocatable))
              (λ name d t e. insert-Distinct name d t.allocatable e) (λ m t e. e) policy s
              h.distinct;
        named = λ n. (update_devices-advertised policy s n).1 ∙ h.named n;
        not_owned = intact.not_owned;
        reserved = λ n k r. intact.kept n k r ∙ h.reserved n k r;
      }

  new_manager-IsSound :
      {C S : Type 0} (store : S) (config : Option Config) (cdi : Option C) (given : Option S)
      → OnOk (new_manager host store config cdi given) (λ p. IsSound host p.0)
  unfolding new_manager
  new_manager-IsSound {C} {S} store config cdi given =
      let P = λ (p : Manager × (C × S)). IsSound host p.0 in
      on_value-on_ok unchanged (λ _. Unit {0}) P (non_nil "config must not be nil" config) _
        (on_ok-any _ _ (λ _. tt))
        (λ c _.
          on_value-on_ok unchanged (λ _. Unit {0}) P
            (non_nil "config flags must not be nil" c.flags) _ (on_ok-any _ _ (λ _. tt))
            (λ flags _.
              on_value-on_ok unchanged (λ _. Unit {0}) P (non_nil "cdi handler must not be nil" cdi)
                _ (on_ok-any _ _ (λ _. tt))
                (λ handler _.
                  on_value-on_ok unchanged (IsSound host) P (state_of host flags) _
                    (state_of-IsSound flags) (λ s h. h))))

  -- Every state of the manager is sound: whatever policies were applied since NewManager and however
  -- their publications ended, the devices are those of the VFs that discovery found, with the reserved
  -- attributes that it read, no policy owns a reserved attribute, no device name stands twice, and
  -- exactly one of the standalone mode and the Multus mode is on.
  pub Reached-IsSound :
      {C W S : Type 0} (store : S) (s : Manager) → Reached C W host store s → IsSound host s
  Reached-IsSound store s (created config cdi given t handles e) =
      subst (λ r. OnOk r (λ p. IsSound host p.0)) e (new_manager-IsSound store config cdi given)
  Reached-IsSound store s (updated t callback policy w r) =
      subst (IsSound host) (sym (update_policy_devices-state callback policy t w))
        (update_devices-IsSound policy t (Reached-IsSound store t r))

  some_of : (o : Option Device) → is_some o ≡ true → (d : Device) × (o ≡ some d)
  some_of none e = absurd (ground (arith, e))
  some_of (some d) e = (d, refl)

  pci_address_of :
      (n : String) (d d' : Device)
      → OfVf host n d'
      → lookup attribute_pci_address d.attributes ≡ lookup attribute_pci_address d'.attributes
      → (vf : VfInfo) × ((string_value (lookup attribute_pci_address d.attributes)
            ≡ some vf.pci_address)
          × (device_name vf ≡ n))
  unfolding lookup
  pci_address_of n d d' (pf, (vf, (e, named))) same = (
    vf,
    (
      ap string_value (same ∙ ap (λ (x : Device). lookup attribute_pci_address x.attributes) e),
      named,
    ),
  )

  -- In every state of the manager, each of its devices has a PCI address, which is that of a VF with
  -- the device's name: the dereference in applyConfigOnDevice never fails.
  pub Reached-pci_address :
      {C W S : Type 0} (store : S) (s : Manager) (n : String) (d : Device)
      → Reached C W host store s
      → lookup n s.allocatable ≡ some d
      → (vf : VfInfo) × ((string_value (lookup attribute_pci_address d.attributes)
            ≡ some vf.pci_address)
          × (device_name vf ≡ n))
  unfolding is_reserved
  Reached-pci_address store s n d r here =
      let sound = Reached-IsSound store s r in
      let (d', there) =
        some_of (found_vf n) (sym (sound.named n) ∙ ap (λ (o : Option Device). is_some o) here) in
      pci_address_of n d d' (last_named-OfVf host n _ d' there) (
        ap (attr_of attribute_pci_address) (sym here)
        ∙ (sound.reserved n attribute_pci_address refl ∙ ap (attr_of attribute_pci_address) there))
