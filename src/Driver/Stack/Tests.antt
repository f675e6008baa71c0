-- ===== src/Driver/Stack/Tests.antt =====
-- A host whose only network device has a name and files that cannot be read.
use k8snetworkplumbingwg_dra.Common.{
  String, none, false, List, [], ◌∷◌, ok, err, plain, All, ◌≡◌, refl,
}
use k8snetworkplumbingwg_dra.Host.Sysfs.{Sysfs, Providers}
use k8snetworkplumbingwg_dra.Host.Pci.{is_sriov_vf, try_get_pf_interface_name}
use k8snetworkplumbingwg_dra.Text.{parse_int, digits}
use k8snetworkplumbingwg_dra.DeviceState.Discovery.{pf_list, pf_info, PfInfo}
use k8snetworkplumbingwg_dra.DeviceState.Construct.Sample.{pf_device, disk}
use k8snetworkplumbingwg_dra.Driver.Stack.{discovery_host}
use k8snetworkplumbingwg_dra.Driver.Stack.Usable.{IsUsable, pf_list-IsUsable}

abbrev sys : Sysfs (Unit {0})
sys = record {
  lstat = λ file w. err (plain "no such file");
  stat = λ file w. err (plain "no such file");
  readlink = λ file w. err (plain "no such file");
  eval_symlinks = λ file w. err (plain "no such file");
  read_file = λ file w. err (plain "input/output error");
  read_dir = λ file w. ok none;
}

abbrev providers : Providers (Unit {0})
providers = record {
  pci = λ w. ok (pf_device ∷ disk ∷ []);
  get_uplink_representor = λ address w. ok "ens1f0";
  is_representor_not_found = λ e. false;
  get_dev_link_device_eswitch_mode = λ address w. err (plain "not supported");
  pcie_root = λ address w. ok none;
  get_rdma_devices_for_pcidev = λ address w. [];
  get_rdma_char_devices = λ name w. [];
}

pf_list-IsUsable_example :
    All (IsUsable sys tt) (pf_list (discovery_host sys providers tt) (pf_device ∷ disk ∷ []))
pf_list-IsUsable_example = pf_list-IsUsable sys providers tt (pf_device ∷ disk ∷ [])

abbrev addresses : List PfInfo → List String
addresses [] = []
addresses (pf ∷ pfs) = pf.pci_address ∷ addresses pfs

one_pf :
    addresses (pf_list (discovery_host sys providers tt) (pf_device ∷ disk ∷ []))
    ≡ "0000:01:00.0" ∷ []
unfolding pf_list pf_info is_sriov_vf try_get_pf_interface_name parse_int digits
one_pf = refl
