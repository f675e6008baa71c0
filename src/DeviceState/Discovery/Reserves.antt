-- ===== src/DeviceState/Discovery/Reserves.antt =====
-- The names and attributes of discovered devices (pkg/devicestate/discovery.go).
use k8snetworkplumbingwg_dra.Common.{
  String, Option, none, some, Bool, true, false, List, [], ◌∷◌, Map, lookup, keys, if◌then◌else◌,
  ◌==◌, eq_string, eq→path, Result, ok, err, panic, ◌≡◌, refl, sym, ◌∙◌, subst,
}
use k8snetworkplumbingwg_dra.Kube.{Device}
use k8snetworkplumbingwg_dra.Consts.{reserved_attributes}
use k8snetworkplumbingwg_dra.Host.Sysfs.{PciDevice, is_ok}
use k8snetworkplumbingwg_dra.Host.Pci.{VfInfo}
use k8snetworkplumbingwg_dra.DeviceState.Discovery.{
  DiscoveryHost, PfInfo, device_name, vf_device, pf_list, add_pfs, with_vfs, add_vfs, discover_in,
  discover_sriov_devices,
}
use k8snetworkplumbingwg_dra.DeviceState.Discovery.Found.{
  last_named, or_earlier, all_vfs, pfs_of, discover_sriov_devices-lookup,
}

module _ (host : DiscoveryHost) where
  -- `d` is the device of a VF named `n`.
  abbrev pub OfVf : String → Device → Type 0
  OfVf n d = (pf : PfInfo) × ((vf : VfInfo) × ((d ≡ vf_device host pf vf) × (device_name vf ≡ n)))

  abbrev OnSome : (Device → Type 0) → Option Device → Type 0
  OnSome P none = Unit
  OnSome P (some d) = P d

  one-OfVf :
      (n : String) (pf : PfInfo) (vf : VfInfo) (b : Bool)
      → (device_name vf == n) ≡ b
      → OnSome (OfVf n) (if b then some (vf_device host pf vf) else none)
  one-OfVf n pf vf true e = (pf, (vf, (refl, eq→path (device_name vf) n e)))
  one-OfVf n pf vf false e = tt

  or_earlier-OnSome :
      (P : Device → Type 0) (o p : Option Device)
      → OnSome P o
      → OnSome P p
      → OnSome P (or_earlier host o p)
  or_earlier-OnSome P none p h k = k
  or_earlier-OnSome P (some d) p h k = h

  last_named-OnSome :
      (n : String) (vfs : List (PfInfo × VfInfo)) → OnSome (OfVf n) (last_named host n vfs)
  unfolding last_named
  last_named-OnSome n [] = tt
  last_named-OnSome n ((pf, vf) ∷ vfs) =
      or_earlier-OnSome (OfVf n) (last_named host n vfs) _ (last_named-OnSome n vfs)
        (one-OfVf n pf vf (device_name vf == n) refl)

  pub last_named-OfVf :
      (n : String) (vfs : List (PfInfo × VfInfo)) (d : Device)
      → last_named host n vfs ≡ some d
      → OfVf n d
  last_named-OfVf n vfs d e = subst (OnSome (OfVf n)) e (last_named-OnSome n vfs)

  OfVf-keys :
      (n : String) (d : Device)
      → OfVf n d
      → (d.name ≡ n) × (keys d.attributes ≡ reserved_attributes)
  unfolding reserved_attributes
  OfVf-keys n d (pf, (vf, (e, named))) =
      subst (λ (x : Device). (x.name ≡ n) × (keys x.attributes ≡ reserved_attributes)) (sym e)
        (named, refl)

  -- When discovery succeeds, every device of the map stands under its own name, and its attributes
  -- are exactly those that policies may not set.
  pub discover_sriov_devices-attributes :
      (found : Map String Device) (n : String) (d : Device)
      → discover_sriov_devices host ≡ ok found
      → lookup n found ≡ some d
      → (d.name ≡ n) × (keys d.attributes ≡ reserved_attributes)
  discover_sriov_devices-attributes found n d e here = OfVf-keys n d (
      last_named-OfVf n (all_vfs host (pfs_of host host.pci)) d
        (sym (discover_sriov_devices-lookup host found n e).1 ∙ here))

  -- The list of VFs of every PF can be read.
  unfoldable pub all_readable : List PfInfo → Bool
  all_readable [] = true
  all_readable (pf ∷ pfs) =
      let rest = all_readable pfs in if is_ok (host.get_vf_list pf.address) then rest else false

  add_pfs-is_ok :
      (pfs : List PfInfo) (m : Map String Device) → is_ok (add_pfs host pfs m) ≡ all_readable pfs
  unfolding add_pfs all_readable
  add_pfs-is_ok [] m = refl
  add_pfs-is_ok (pf ∷ pfs) m =
      with_vfs-is_ok pf pfs m (host.get_vf_list pf.address) (λ m'. add_pfs-is_ok pfs m')
    where
      with_vfs-is_ok :
          (pf : PfInfo) (pfs : List PfInfo) (m : Map String Device) (r : Result (List VfInfo))
          → ((m' : Map String Device) → is_ok (add_pfs host pfs m') ≡ all_readable pfs)
          → is_ok (with_vfs host pf (add_pfs host pfs) m r)
            ≡ (if is_ok r then all_readable pfs else false)
      with_vfs-is_ok pf pfs m (ok vfs) ih = ih (add_vfs host pf vfs m)
      with_vfs-is_ok pf pfs m (err e) ih = refl
      with_vfs-is_ok pf pfs m panic ih = refl

  abbrev pub can_discover : Result (List PciDevice) → Bool
  can_discover (ok []) = false
  can_discover (ok (d ∷ ds)) = all_readable (pf_list host (d ∷ ds))
  can_discover (err e) = false
  can_discover panic = false

  -- Discovery succeeds exactly if the host reports at least one PCI device and the VFs of every PF
  -- among them can be listed: one unreadable PF makes it fail as a whole, while a PF without a name, a
  -- NUMA node, a PCIe root or a link type does not.
  pub discover_sriov_devices-is_ok : is_ok (discover_sriov_devices host) ≡ can_discover host.pci
  unfolding discover_sriov_devices
  discover_sriov_devices-is_ok = go host.pci
    where
      go : (r : Result (List PciDevice)) → is_ok (discover_in host r) ≡ can_discover r
      go (ok []) = refl
      go (ok (d ∷ ds)) = add_pfs-is_ok (pf_list host (d ∷ ds)) []
      go (err e) = refl
      go panic = refl
