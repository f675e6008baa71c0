-- ===== src/DeviceState/Discovery.antt =====
-- pkg/devicestate/discovery.go: DiscoverSriovDevices.
pub mod Found
pub mod Reserves
use Prim.Native.Char.{Char, char}
use k8snetworkplumbingwg_dra.Common.{
  String, Option, none, some, Bool, true, false, List, [], ◌∷◌, Map, insert, if◌then◌else◌, nat_eq,
  ◌==◌, eq_string, Result, ok, err, panic, Error, plain, quote, ℕ,
}
use k8snetworkplumbingwg_dra.Kube.{ℤ, pos, negsuc, DeviceAttribute, Attributes, Device}
use k8snetworkplumbingwg_dra.Text.{parse_int, replace_all}
use k8snetworkplumbingwg_dra.Consts.{
  attribute_vendor_id, attribute_device_id, attribute_pf_device_id, attribute_pci_address,
  attribute_multus_device_id, attribute_pf_name, attribute_eswitch_mode, attribute_vf_id,
  attribute_pcie_root, attribute_pf_pci_address, attribute_standard_pci_address,
  attribute_link_type, attribute_rdma_capable, attribute_numa_node,
}
use k8snetworkplumbingwg_dra.Host.Sysfs.{PciDevice}
use k8snetworkplumbingwg_dra.Host.Pci.{VfInfo}

-- The methods of host.Interface that discovery calls, on the host as it is during the discovery.
pub record DiscoveryHost : Type 0 where
  pub pci : Result (List PciDevice)
  pub is_sriov_vf : String → Bool
  pub try_get_pf_interface_name : String → String
  pub get_nic_sriov_mode : String → String
  pub get_numa_node : String → Result String
  pub get_pcie_root : String → Result String
  pub get_link_type : String → Result String
  pub get_vf_list : String → Result (List VfInfo)
  pub verify_rdma_capability : String → Bool
  pub is_iommufd_available : Bool

pub record PfInfo : Type 0 where
  pub pci_address : String
  pub net_name : String
  pub vendor_id : String
  pub device_id : String
  pub address : String
  pub eswitch_mode : String
  pub pcie_root : String
  pub link_type : String
  pub numa_node : String

-- consts.NetClass
abbrev pub is_net_class : Option ℤ → Bool
is_net_class none = false
is_net_class (some (pos n)) = nat_eq n 2
is_net_class (some (negsuc n)) = false

-- `if err != nil { v = default }`
abbrev pub or_default : String → Result String → String
or_default default (ok s) = s
or_default default (err e) = default
or_default default panic = default

abbrev pub numa_or_default : Option ℤ → ℤ
numa_or_default none = negsuc 0
numa_or_default (some n) = n

abbrev pub text : String → DeviceAttribute
text s = record { int_value = none; bool_value = none; string_value = some s; version_value = none }

abbrev pub number : ℤ → DeviceAttribute
number n = record {
  int_value = some n;
  bool_value = none;
  string_value = none;
  version_value = none;
}

abbrev pub truth : Bool → DeviceAttribute
truth b = record {
  int_value = none;
  bool_value = some b;
  string_value = none;
  version_value = none;
}

abbrev full_stop : Char
full_stop = char 46 tt

abbrev colon : Char
colon = char 58 tt

abbrev dash : Char
dash = char 45 tt

unfoldable pub device_name : VfInfo → String
device_name vf = replace_all full_stop dash (replace_all colon dash vf.pci_address)

module _ (host : DiscoveryHost) where
  abbrev pub pf_at : PciDevice → PfInfo
  pf_at d = record {
    pci_address = d.address;
    net_name = host.try_get_pf_interface_name d.address;
    vendor_id = d.vendor_id;
    device_id = d.product_id;
    address = d.address;
    eswitch_mode = host.get_nic_sriov_mode d.address;
    pcie_root = or_default "" (host.get_pcie_root d.address);
    link_type = or_default "unknown" (host.get_link_type d.address);
    numa_node = or_default "-1" (host.get_numa_node d.address);
  }

  -- One round of the first loop: the device is a physical function with a name, or it is skipped.
  unfoldable pub pf_info : PciDevice → Option PfInfo
  pf_info d =
      if is_net_class (parse_int 16 d.class_id)
      then (if host.is_sriov_vf d.address
          then none
          else if host.try_get_pf_interface_name d.address == ""
          then none
          else some (pf_at d))
      else none

  unfoldable pub pf_list : List PciDevice → List PfInfo
  pf_list [] = []
  pf_list (d ∷ ds) = let rest = pf_list ds in elim (pf_info d) [ none ↦ rest | some pf ↦ pf ∷ rest ]

  abbrev pub vf_attributes : PfInfo → VfInfo → Attributes
  vf_attributes pf vf =
      (attribute_vendor_id, text pf.vendor_id)
      ∷ (attribute_device_id, text vf.device_id)
      ∷ (attribute_pf_device_id, text pf.device_id)
      ∷ (attribute_pci_address, text vf.pci_address)
      ∷ (attribute_multus_device_id, text vf.pci_address)
      ∷ (attribute_pf_name, text pf.net_name)
      ∷ (attribute_eswitch_mode, text pf.eswitch_mode)
      ∷ (attribute_vf_id, number vf.vf_id)
      ∷ (attribute_pcie_root, text pf.pcie_root)
      ∷ (attribute_pf_pci_address, text pf.pci_address)
      ∷ (attribute_standard_pci_address, text vf.pci_address)
      ∷ (attribute_link_type, text pf.link_type)
      ∷ (attribute_rdma_capable, truth (host.verify_rdma_capability vf.pci_address))
      ∷ (attribute_numa_node, number (numa_or_default (parse_int 10 pf.numa_node)))
      ∷ []

  abbrev pub vf_device : PfInfo → VfInfo → Device
  vf_device pf vf = record { name = device_name vf; attributes = vf_attributes pf vf }

  unfoldable pub add_vfs : PfInfo → List VfInfo → Map String Device → Map String Device
  add_vfs pf [] found = found
  add_vfs pf (vf ∷ vfs) found = add_vfs pf vfs (insert (device_name vf) (vf_device pf vf) found)

  -- One round of the second loop, and the rest of the loop.
  abbrev pub with_vfs :
      PfInfo
      → (Map String Device → Result (Map String Device))
      → Map String Device
      → Result (List VfInfo)
      → Result (Map String Device)
  with_vfs pf rest found (ok vfs) = rest (add_vfs pf vfs found)
  with_vfs pf rest found (err e) = err (quote "error getting VF list: %v" e)
  with_vfs pf rest found panic = panic

  -- The second loop. The first list of VFs that cannot be read ends it.
  unfoldable pub add_pfs : List PfInfo → Map String Device → Result (Map String Device)
  add_pfs [] found = ok found
  add_pfs (pf ∷ pfs) found = with_vfs pf (add_pfs pfs) found (host.get_vf_list pf.address)

  abbrev pub discover_in : Result (List PciDevice) → Result (Map String Device)
  discover_in (err e) = err (quote "error getting PCI info: %v" e)
  discover_in panic = panic
  discover_in (ok []) = err (plain "could not retrieve PCI devices")
  discover_in (ok (d ∷ ds)) = add_pfs (pf_list (d ∷ ds)) []

  unfoldable pub discover_sriov_devices : Result (Map String Device)
  discover_sriov_devices = discover_in host.pci
