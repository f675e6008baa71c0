-- ===== src/Host/Sysfs.antt =====
-- pkg/host/host.go: the files that are read to describe a device, and the libraries behind the
-- providers of pkg/host/sriovnet_provider.go, netlink_provider.go and rdma_provider.go.
use k8snetworkplumbingwg_dra.Common.{
  String, Option, none, some, Bool, true, false, List, Result, ok, err, panic, Error, plain,
}

-- The paths that buildSysBusPciPath, buildSysPath and buildDevPath build, with the prefix RootDir:
-- a device's directory, the files and links in it, an entry of the directory, the type file of a
-- network interface, the name file of a resolved IOMMU group, and /dev/iommu.
pub data HostFile : Type 0 where
  pci_dir physfn virtfn0 net_dir numa_node device_file iommu_group vfio_dev : String → HostFile
  pci_entry : String → String → HostFile
  net_type group_name : String → HostFile
  dev_iommu : HostFile

-- `lstat` tells whether the file is a symbolic link; `read_file` and `read_dir` give `none` for a
-- file that does not exist.
pub record Sysfs (W : Type 0) : Type 0 where
  pub lstat : HostFile → W → Result Bool
  pub stat : HostFile → W → Result (Unit {0})
  pub readlink : HostFile → W → Result String
  pub eval_symlinks : HostFile → W → Result String
  pub read_file : HostFile → W → Result (Option String)
  pub read_dir : HostFile → W → Result (Option (List String))

-- A device as the library ghw reports it.
pub record PciDevice : Type 0 where
  pub address : String
  pub class_id : String
  pub vendor_id : String
  pub product_id : String

-- `is_representor_not_found` is errors.Is with sriovnet.ErrRepresentorNotFound; `pcie_root` is the
-- string value of the attribute that the upstream library computes, if it has one.
pub record Providers (W : Type 0) : Type 0 where
  pub pci : W → Result (List PciDevice)
  pub get_uplink_representor : String → W → Result String
  pub is_representor_not_found : Error → Bool
  pub get_dev_link_device_eswitch_mode : String → W → Result String
  pub pcie_root : String → W → Result (Option String)
  pub get_rdma_devices_for_pcidev : String → W → List String
  pub get_rdma_char_devices : String → W → List String

-- `_, err := f(); err == nil`
abbrev pub is_ok {ℓ} : {A : Type ℓ} → Result A → Bool
is_ok (ok a) = true
is_ok (err e) = false
is_ok panic = false

-- A missing file is an error to a caller that does not ask which.
abbrev pub existing : {A : Type 0} → Result (Option A) → Result A
existing (ok (some a)) = ok a
existing (ok none) = err (plain "no such file or directory")
existing (err e) = err e
existing panic = panic

-- `if err != nil { return …, fmt.Errorf(…) }`, and the rest on the value.
abbrev pub on_value : {A B : Type 0} → (Error → Error) → Result A → (A → Result B) → Result B
on_value g (ok a) f = f a
on_value g (err e) f = err (g e)
on_value g panic f = panic
