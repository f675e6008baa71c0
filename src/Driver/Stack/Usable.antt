-- ===== src/Driver/Stack/Usable.antt =====
-- The physical functions that discovery lists on a host (pkg/devicestate/discovery.go over
-- pkg/host/host.go).
use k8snetworkplumbingwg_dra.Common.{
  String, Option, none, some, Bool, true, false, List, [], ◌∷◌, ◌==◌, eq_string, nat_eq, Result, ok,
  err, panic, wrap, ◌≡◌, refl, All, ◌||◌, if_intro,
}
use k8snetworkplumbingwg_dra.Kube.{ℤ, pos, negsuc}
use k8snetworkplumbingwg_dra.Text.{parse_int, trim_space}
use k8snetworkplumbingwg_dra.Common.Yields.{OnOk}
use k8snetworkplumbingwg_dra.Host.Sysfs.{Sysfs, Providers, PciDevice, existing, on_value, net_type}
use k8snetworkplumbingwg_dra.Host.Pci.{
  link_type_of, link_type_name, get_link_type, is_sriov_vf, try_get_pf_interface_name,
  get_nic_sriov_mode, legacy_if_empty, value_or_empty,
}
use k8snetworkplumbingwg_dra.DeviceState.Discovery.{
  DiscoveryHost, PfInfo, pf_info, pf_at, pf_list, or_default, is_net_class,
}
use k8snetworkplumbingwg_dra.Driver.Stack.{discovery_host}

abbrev pub is_link_type : String → Bool
is_link_type s = s == "ethernet" || (s == "infiniband" || s == "unknown")

link_type_name-Known : (n : ℤ) → is_link_type (link_type_name n) ≡ true
link_type_name-Known (pos n) =
    let P = λ (s : String). is_link_type s ≡ true in
    if_intro P (nat_eq n 1) (λ _. refl) (λ _. if_intro P (nat_eq n 32) (λ _. refl) (λ _. refl))
link_type_name-Known (negsuc n) = refl

abbrev Known : String → Type 0
Known s = is_link_type s ≡ true

link_type_of-Known : (o : Option ℤ) → OnOk (link_type_of o) Known
link_type_of-Known none = tt
link_type_of-Known (some n) = link_type_name-Known n

or_default-Known : (r : Result String) → OnOk r Known → Known (or_default "unknown" r)
or_default-Known (ok s) h = h
or_default-Known (err e) h = refl
or_default-Known panic h = refl

-- A physical function as discovery describes it on a host.
pub record IsUsable {W : Type 0} (sys : Sysfs W) (w : W) (pf : PfInfo) : Type 0 where
  pub not_vf : is_sriov_vf sys pf.pci_address w ≡ false
  pub has_name : (pf.net_name == "") ≡ false
  pub link_type_known : is_link_type pf.link_type ≡ true
  pub mode_known : (pf.eswitch_mode == "") ≡ false

legacy_not_empty : (mode : String) → (legacy_if_empty mode == "") ≡ false
legacy_not_empty mode =
    if_intro (λ (m : String). (m == "") ≡ false) (mode == "") (λ _. refl) (λ e. e)

module _ {W : Type 0} (sys : Sysfs W) (providers : Providers W) (w : W) where
  abbrev host : DiscoveryHost
  host = discovery_host sys providers w

  get_link_type-Known : (address : String) → OnOk (get_link_type sys providers address w) Known
  unfolding get_link_type
  get_link_type-Known address =
      let name = try_get_pf_interface_name sys providers address w in
      if_intro (λ (r : Result String). OnOk r Known) (name == "") (λ _. tt)
        (λ _. on_value-Known (existing (sys.read_file (net_type name) w)))
    where
      on_value-Known :
          (r : Result String)
          → OnOk
              (on_value
                (wrap "failed to read link type for interface %s: %w")
                r
                (λ content. link_type_of (parse_int 10 (trim_space content))))
              Known
      on_value-Known (ok content) = link_type_of-Known (parse_int 10 (trim_space content))
      on_value-Known (err e) = tt
      on_value-Known panic = tt

  pf_at-IsUsable :
      (d : PciDevice)
      → is_sriov_vf sys d.address w ≡ false
      → (try_get_pf_interface_name sys providers d.address w == "") ≡ false
      → IsUsable sys w (pf_at host d)
  unfolding get_nic_sriov_mode
  pf_at-IsUsable d not_vf named = record {
    not_vf = not_vf;
    has_name = named;
    link_type_known =
        or_default-Known (get_link_type sys providers d.address w) (get_link_type-Known d.address);
    mode_known =
        legacy_not_empty (value_or_empty (providers.get_dev_link_device_eswitch_mode d.address w));
  }

  abbrev OnSome : Option PfInfo → Type 0
  OnSome none = Unit
  OnSome (some pf) = IsUsable sys w pf

  pf_info-IsUsable : (d : PciDevice) → OnSome (pf_info host d)
  unfolding pf_info
  pf_info-IsUsable d =
      if_intro OnSome (is_net_class (parse_int 16 d.class_id))
        (λ _.
          if_intro OnSome (is_sriov_vf sys d.address w) (λ _. tt)
            (λ not_vf.
              if_intro OnSome (try_get_pf_interface_name sys providers d.address w == "") (λ _. tt)
                (λ named. pf_at-IsUsable d not_vf named)))
        (λ _. tt)

  cons-IsUsable :
      (o : Option PfInfo) (pfs : List PfInfo)
      → OnSome o
      → All (IsUsable sys w) pfs
      → All (IsUsable sys w) (elim o [ none ↦ pfs | some pf ↦ pf ∷ pfs ])
  cons-IsUsable none pfs h k = k
  cons-IsUsable (some pf) pfs h k = (h, k)

  -- Every PF that discovery lists on a host is no VF, has an interface name, an eswitch mode, and one
  -- of the three link types, whatever the files and the libraries of the host answer.
  pub pf_list-IsUsable : (ds : List PciDevice) → All (IsUsable sys w) (pf_list host ds)
  unfolding pf_list
  pf_list-IsUsable [] = tt
  pf_list-IsUsable (d ∷ ds) =
      cons-IsUsable (pf_info host d) (pf_list host ds) (pf_info-IsUsable d) (pf_list-IsUsable ds)
