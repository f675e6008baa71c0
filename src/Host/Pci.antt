-- ===== src/Host/Pci.antt =====
-- pkg/host/host.go: what discovery asks of a PCI device, from IsSriovVF to GetPCIeRoot.
use k8snetworkplumbingwg_dra.Common.{
  String, Option, none, some, Bool, List, [], ◌∷◌, if◌then◌else◌, nat_eq, ◌==◌, eq_string, not,
  Result, ok, err, panic, plain, wrap, quote,
}
use k8snetworkplumbingwg_dra.Kube.{ℤ, pos, negsuc}
use k8snetworkplumbingwg_dra.Text.{parse_int, cut_prefix, trim_prefix, trim_space, base}
use k8snetworkplumbingwg_dra.Host.Sysfs.{
  Sysfs, Providers, pci_dir, physfn, virtfn0, net_dir, numa_node, device_file, pci_entry, net_type,
  is_ok, existing, on_value,
}

pub record VfInfo : Type 0 where
  pub pci_address : String
  pub vf_id : ℤ
  pub device_id : String

abbrev pub value_or_empty : Result String → String
value_or_empty (ok s) = s
value_or_empty (err e) = ""
value_or_empty panic = ""

abbrev first_name : List String → String
first_name [] = ""
first_name (name ∷ names) = name

abbrev names_or_none : Result (List String) → List String
names_or_none (ok names) = names
names_or_none (err e) = []
names_or_none panic = []

-- ArphrdEther is 1, ArphrdInfiniband is 32.
abbrev pub link_type_name : ℤ → String
link_type_name (pos n) =
    if nat_eq n 1 then "ethernet" else if nat_eq n 32 then "infiniband" else "unknown"
link_type_name (negsuc n) = "unknown"

abbrev pub link_type_of : Option ℤ → Result String
link_type_of none =
    err (wrap "failed to parse link type value %s for interface %s: %w" (plain "strconv.Atoi"))
link_type_of (some n) = ok (link_type_name n)

abbrev pub legacy_if_empty : String → String
legacy_if_empty mode = if mode == "" then "legacy" else mode

module _ {W : Type 0} (sys : Sysfs W) where
  unfoldable pub is_sriov_vf : String → W → Bool
  is_sriov_vf address w = is_ok (sys.lstat (physfn address) w)

  unfoldable pub is_sriov_pf : String → W → Bool
  is_sriov_pf address w = is_ok (sys.lstat (virtfn0 address) w)

  -- The device ID in the VF's directory, or the empty text.
  abbrev vf_device_id : String → W → String
  vf_device_id address w = elim (existing (sys.read_file (device_file address) w)) [
    | ok content ↦ trim_prefix (trim_space content) "0x"
    | err e ↦ ""
    | panic ↦ ""
  ]

  abbrev vf_at : String → Option ℤ → W → Option VfInfo
  vf_at address none w = none
  vf_at address (some id) w =
      some (record { pci_address = address; vf_id = id; device_id = vf_device_id address w })

  abbrev numbered_entry : String → String → Option String → W → Option VfInfo
  numbered_entry pf name none w = none
  numbered_entry pf name (some number) w = elim (sys.readlink (pci_entry pf name) w) [
    | ok target ↦ vf_at (base target) (parse_int 10 number) w
    | err e ↦ none
    | panic ↦ none
  ]

  -- One round of the loop of GetVFList.
  unfoldable pub vf_entry : String → String → W → Option VfInfo
  vf_entry pf name w = numbered_entry pf name (cut_prefix name "virtfn") w

  unfoldable pub vf_entries : String → List String → W → List VfInfo
  vf_entries pf [] w = []
  vf_entries pf (name ∷ names) w =
      let rest = vf_entries pf names w in
      elim (vf_entry pf name w) [ none ↦ rest | some vf ↦ vf ∷ rest ]

  unfoldable pub get_vf_list : String → W → Result (List VfInfo)
  get_vf_list pf w =
      on_value (quote "failed to read PF directory: %v") (existing (sys.read_dir (pci_dir pf) w))
        (λ names. ok (vf_entries pf names w))

  unfoldable pub get_numa_node : String → W → Result String
  get_numa_node address w = elim (sys.read_file (numa_node address) w) [
    | ok none ↦ ok "-1"
    | ok (some content) ↦ ok (trim_space content)
    | err e ↦ err (quote "failed to read numa_node for %s: %v" e)
    | panic ↦ panic
  ]

  module _ (providers : Providers W) where
    -- The first entry of the device's net directory.
    abbrev pub sysfs_name : String → W → String
    sysfs_name address w =
        if not (is_ok (sys.lstat (net_dir address) w))
        then ""
        else first_name (names_or_none (existing (sys.read_dir (net_dir address) w)))

    unfoldable pub try_get_pf_interface_name : String → W → String
    try_get_pf_interface_name address w = elim (providers.get_uplink_representor address w) [
      | ok name ↦ name
      | err e ↦ if not (providers.is_representor_not_found e) then "" else sysfs_name address w
      | panic ↦ ""
    ]

    unfoldable pub get_nic_sriov_mode : String → W → String
    get_nic_sriov_mode address w =
        legacy_if_empty (value_or_empty (providers.get_dev_link_device_eswitch_mode address w))

    unfoldable pub get_link_type : String → W → Result String
    get_link_type address w =
        let name = try_get_pf_interface_name address w in
        if name == ""
        then err (plain "unable to get interface name for PCI address %s")
        else on_value (wrap "failed to read link type for interface %s: %w")
            (existing (sys.read_file (net_type name) w))
            (λ content. link_type_of (parse_int 10 (trim_space content)))

    unfoldable pub get_pcie_root : String → W → Result String
    get_pcie_root address w =
        on_value (wrap "failed to get PCIe root for %s: %w") (providers.pcie_root address w)
          (λ value. elim value [
            | some root ↦ ok root
            | none ↦ err (plain "PCIe root attribute for %s has no string value")
          ])
