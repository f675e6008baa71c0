-- ===== src/Host/Vfio.antt =====
-- pkg/host/host.go: the device files of a device that is bound to vfio-pci, and its RDMA devices.
use Prim.Native.String.{◌++◌ as concat}
use k8snetworkplumbingwg_dra.Common.{
  String, none, some, Bool, true, false, List, [], ◌∷◌, if◌then◌else◌, ◌==◌, eq_string, Option,
  Result, ok, err, panic, plain, wrap, quote,
}
use k8snetworkplumbingwg_dra.Text.{trim_space, base}
use k8snetworkplumbingwg_dra.Host.Sysfs.{
  Sysfs, Providers, pci_dir, iommu_group, vfio_dev, group_name, dev_iommu, is_ok, existing,
  on_value,
}

module _ {W : Type 0} (sys : Sysfs W) where
  abbrev pub vfio_path : String → String
  vfio_path name = concat "/dev/vfio/" name

  -- The path on the host of the group whose name file holds the text.
  abbrev pub host_path : String → Result String → String
  host_path link (ok name) =
      if trim_space name == "vfio-noiommu"
      then vfio_path (concat "noiommu-" (base link))
      else vfio_path (base link)
  host_path link (err e) = vfio_path (base link)
  host_path link panic = vfio_path (base link)

  abbrev linked_files : String → Bool → W → Result (String × String)
  linked_files address false w =
      err (plain "GetVFIODeviceFile(): invalid symlink to iommu_group %v")
  linked_files address true w =
      on_value (quote "GetVFIODeviceFile(): error reading symlink to iommu_group %v")
        (sys.eval_symlinks (iommu_group address) w)
        (λ link.
          ok (host_path link (existing (sys.read_file (group_name link) w)), vfio_path (base link)))

  -- The file on the host and that in the container. The path that a symbolic link resolves to is
  -- absolute and clean, so its base is a plain name.
  unfoldable pub get_vfio_device_file : String → W → Result (String × String)
  get_vfio_device_file address w =
      on_value
        (quote "GetVFIODeviceFile(): Could not get directory information for device: %s, Err: %v")
        (sys.lstat (pci_dir address) w)
        (λ _.
          on_value (quote "GetVFIODeviceFile(): unable to find iommu_group %v")
            (sys.lstat (iommu_group address) w) (λ is_link. linked_files address is_link w))

  abbrev pub only_entry : List String → Result String
  only_entry [] = ok ""
  only_entry (name ∷ []) = ok (concat "/dev/vfio/devices/" name)
  only_entry (a ∷ b ∷ rest) =
      err (plain "GetVFIOCdevPath(): unexpected multiple cdev entries for device %s: %v")

  abbrev cdev_in : Result (Option (List String)) → Result String
  cdev_in (ok none) = ok ""
  cdev_in (ok (some names)) = only_entry names
  cdev_in (err e) =
      err (wrap "GetVFIOCdevPath(): failed to read vfio-dev directory for device %s: %w" e)
  cdev_in panic = panic

  unfoldable pub get_vfio_cdev_path : String → W → Result String
  get_vfio_cdev_path address w = cdev_in (sys.read_dir (vfio_dev address) w)

  unfoldable pub is_iommufd_available : W → Bool
  is_iommufd_available w = is_ok (sys.stat dev_iommu w)

module _ {W : Type 0} (providers : Providers W) where
  unfoldable pub get_rdma_devices_for_pci : String → W → List String
  get_rdma_devices_for_pci address w = providers.get_rdma_devices_for_pcidev address w

  abbrev some_device : List String → Bool
  some_device [] = false
  some_device (device ∷ devices) = true

  unfoldable pub verify_rdma_capability : String → W → Bool
  verify_rdma_capability address w = some_device (get_rdma_devices_for_pci address w)

  unfoldable pub get_rdma_char_devices : String → W → Result (List String)
  get_rdma_char_devices name w =
      if name == ""
      then err (plain "rdmaDeviceName cannot be empty")
      else ok (providers.get_rdma_char_devices name w)
