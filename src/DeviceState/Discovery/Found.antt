-- ===== src/DeviceState/Discovery/Found.antt =====
-- What DiscoverSriovDevices finds (pkg/devicestate/discovery.go).
use k8snetworkplumbingwg_dra.Common.{
  String, Option, none, some, true, List, [], ◌∷◌, ◌++◌, Map, lookup, insert, keys, contains,
  lookup-insert, if◌then◌else◌, ◌==◌, eq_string, Result, ok, err, panic, ◌≡◌, refl, sym, ap, ◌∙◌,
  arith, if_intro, subst,
}
use k8snetworkplumbingwg_dra.Kube.{Device}
use k8snetworkplumbingwg_dra.Common.Yields.{OnOk, on_ok-map}
use k8snetworkplumbingwg_dra.Host.Sysfs.{PciDevice}
use k8snetworkplumbingwg_dra.Host.Pci.{VfInfo}
use k8snetworkplumbingwg_dra.DeviceState.Advertise.Values.{Distinct}
use k8snetworkplumbingwg_dra.DeviceState.Discovery.{
  DiscoveryHost, PfInfo, device_name, vf_device, pf_list, add_vfs, with_vfs, add_pfs, discover_in,
  discover_sriov_devices,
}

contains-insert :
    {V : Type 0} (name : String) (v : V) (m : Map String V) (k : String)
    → contains (keys (insert name v m)) k ≡ (if name == k then true else contains (keys m) k)
unfolding insert
contains-insert name v [] k = ground (arith, eq_string.beq_iff name k)
contains-insert name v ((own, old) ∷ m) k = ground (
  arith,
  eq_string.beq_iff own name,
  eq_string.beq_iff own k,
  eq_string.beq_iff name k,
  contains-insert name v m k,
)

-- `m[k] = v` keeps the keys distinct.
pub insert-Distinct :
    {V : Type 0} (name : String) (v : V) (m : Map String V)
    → Distinct (keys m)
    → Distinct (keys (insert name v m))
unfolding insert
insert-Distinct name v [] h = (refl, tt)
insert-Distinct {V} name v ((own, old) ∷ m) h =
    if_intro (λ (xs : Map String V). Distinct (keys xs)) (own == name) (λ _. h)
      (λ e. (
        contains-insert name v m own
            ∙ ground (arith, eq_string.beq_iff own name, eq_string.beq_iff name own, e, h.0),
        insert-Distinct name v m h.1,
      ))

-- The VFs that the host lists for a PF, each with its PF.
abbrev pub pairs : PfInfo → List VfInfo → List (PfInfo × VfInfo)
pairs pf [] = []
pairs pf (vf ∷ vfs) = (pf, vf) ∷ pairs pf vfs

abbrev pub listed_vfs : PfInfo → Result (List VfInfo) → List (PfInfo × VfInfo)
listed_vfs pf (ok vfs) = pairs pf vfs
listed_vfs pf (err e) = []
listed_vfs pf panic = []

module _ (host : DiscoveryHost) where
  unfoldable pub all_vfs : List PfInfo → List (PfInfo × VfInfo)
  all_vfs [] = []
  all_vfs (pf ∷ pfs) = listed_vfs pf (host.get_vf_list pf.address) ++ all_vfs pfs

  abbrev pub or_earlier : Option Device → Option Device → Option Device
  or_earlier none earlier = earlier
  or_earlier (some d) earlier = some d

  -- The device of the last VF whose name is `n`.
  unfoldable pub last_named : String → List (PfInfo × VfInfo) → Option Device
  last_named n [] = none
  last_named n ((pf, vf) ∷ rest) =
      or_earlier (last_named n rest)
        (if device_name vf == n then some (vf_device host pf vf) else none)

  or_earlier-none : (o : Option Device) → or_earlier o none ≡ o
  or_earlier-none none = refl
  or_earlier-none (some d) = refl

  or_earlier_assoc :
      (o p q : Option Device) → or_earlier o (or_earlier p q) ≡ or_earlier (or_earlier o p) q
  or_earlier_assoc none p q = refl
  or_earlier_assoc (some d) p q = refl

  last_named-append :
      (n : String) (xs ys : List (PfInfo × VfInfo))
      → last_named n (xs ++ ys) ≡ or_earlier (last_named n ys) (last_named n xs)
  unfolding last_named
  last_named-append n [] ys = sym (or_earlier-none (last_named n ys))
  last_named-append n ((pf, vf) ∷ xs) ys = ground (arith, last_named-append n xs ys)

  lookup-add_vfs :
      (n : String) (pf : PfInfo) (vfs : List VfInfo) (m : Map String Device)
      → lookup n (add_vfs host pf vfs m) ≡ or_earlier (last_named n (pairs pf vfs)) (lookup n m)
  unfolding add_vfs last_named
  lookup-add_vfs n pf [] m = refl
  lookup-add_vfs n pf (vf ∷ vfs) m =
      lookup-add_vfs n pf vfs (insert (device_name vf) (vf_device host pf vf) m)
      ∙ ground (arith, lookup-insert (device_name vf) n (vf_device host pf vf) m)

  add_vfs-Distinct :
      (pf : PfInfo) (vfs : List VfInfo) (m : Map String Device)
      → Distinct (keys m)
      → Distinct (keys (add_vfs host pf vfs m))
  unfolding add_vfs
  add_vfs-Distinct pf [] m h = h
  add_vfs-Distinct pf (vf ∷ vfs) m h =
      add_vfs-Distinct pf vfs (insert (device_name vf) (vf_device host pf vf) m)
        (insert-Distinct (device_name vf) (vf_device host pf vf) m h)

  abbrev Described : List (PfInfo × VfInfo) → Map String Device → Map String Device → Type 0
  Described vfs m found =
      Distinct (keys found)
      × ((n : String) → lookup n found ≡ or_earlier (last_named n vfs) (lookup n m))

  or_earlier-listed :
      (n : String) (pf : PfInfo) (vfs : List VfInfo) (rest : List (PfInfo × VfInfo))
      (m : Map String Device)
      → or_earlier (last_named n rest) (lookup n (add_vfs host pf vfs m))
        ≡ or_earlier (last_named n (pairs pf vfs ++ rest)) (lookup n m)
  or_earlier-listed n pf vfs rest m =
      ap (or_earlier (last_named n rest)) (lookup-add_vfs n pf vfs m)
      ∙ (or_earlier_assoc (last_named n rest) (last_named n (pairs pf vfs)) (lookup n m)
          ∙ ap (λ o. or_earlier o (lookup n m)) (sym (last_named-append n (pairs pf vfs) rest)))

  with_vfs-Described :
      (pf : PfInfo) (pfs : List PfInfo) (m : Map String Device) (r : Result (List VfInfo))
      → Distinct (keys m)
      → ((m' : Map String Device)
          → Distinct (keys m')
          → OnOk (add_pfs host pfs m') (Described (all_vfs pfs) m'))
      → OnOk
          (with_vfs host pf (add_pfs host pfs) m r)
          (Described (listed_vfs pf r ++ all_vfs pfs) m)
  with_vfs-Described pf pfs m (ok vfs) h more =
      on_ok-map (Described (all_vfs pfs) (add_vfs host pf vfs m))
        (Described (pairs pf vfs ++ all_vfs pfs) m) (add_pfs host pfs (add_vfs host pf vfs m))
        (λ found d. (d.0, λ n. d.1 n ∙ or_earlier-listed n pf vfs (all_vfs pfs) m))
        (more (add_vfs host pf vfs m) (add_vfs-Distinct pf vfs m h))
  with_vfs-Described pf pfs m (err x) h more = tt
  with_vfs-Described pf pfs m panic h more = tt

  add_pfs-Described :
      (pfs : List PfInfo) (m : Map String Device)
      → Distinct (keys m)
      → OnOk (add_pfs host pfs m) (Described (all_vfs pfs) m)
  unfolding add_pfs all_vfs last_named
  add_pfs-Described [] m h = (h, λ n. refl)
  add_pfs-Described (pf ∷ pfs) m h =
      with_vfs-Described pf pfs m (host.get_vf_list pf.address) h (add_pfs-Described pfs)

  abbrev devices_of : Result (List PciDevice) → List PciDevice
  devices_of (ok ds) = ds
  devices_of (err e) = []
  devices_of panic = []

  -- The PFs among the devices that the host reports.
  abbrev pub pfs_of : Result (List PciDevice) → List PfInfo
  pfs_of r = pf_list host (devices_of r)

  discover_in-lookup :
      (r : Result (List PciDevice))
      → OnOk (discover_in host r) (λ found.
        Distinct (keys found) × ((n : String) → lookup n found ≡ last_named n (all_vfs (pfs_of r))))
  unfolding lookup
  discover_in-lookup (err e) = tt
  discover_in-lookup panic = tt
  discover_in-lookup (ok []) = tt
  discover_in-lookup (ok (d ∷ ds)) =
      on_ok-map (Described (all_vfs (pf_list host (d ∷ ds))) [])
        (λ found.
          Distinct (keys found)
          × ((n : String) → lookup n found ≡ last_named n (all_vfs (pf_list host (d ∷ ds)))))
        (add_pfs host (pf_list host (d ∷ ds)) [])
        (λ found h.
          (h.0, λ n. h.1 n ∙ or_earlier-none (last_named n (all_vfs (pf_list host (d ∷ ds))))))
        (add_pfs-Described (pf_list host (d ∷ ds)) [] tt)

  pub discover-OnOk : OnOk (discover_sriov_devices host) (λ found.
      Distinct (keys found)
      × ((n : String) → lookup n found ≡ last_named n (all_vfs (pfs_of host.pci))))
  unfolding discover_sriov_devices
  discover-OnOk = discover_in-lookup host.pci

  -- When discovery succeeds, no device name stands twice in the map, and what it holds under a name
  -- is the device of the last VF with that name among the VFs that the host lists for the PFs; under
  -- any other name it holds nothing.
  pub discover_sriov_devices-lookup :
      (found : Map String Device) (n : String)
      → discover_sriov_devices host ≡ ok found
      → Distinct (keys found) × (lookup n found ≡ last_named n (all_vfs (pfs_of host.pci)))
  discover_sriov_devices-lookup found n e =
      let h =
        subst
          (λ r. OnOk r (λ m.
            Distinct (keys m)
            × ((k : String) → lookup k m ≡ last_named k (all_vfs (pfs_of host.pci)))))
          e discover-OnOk in
      (h.0, h.1 n)
