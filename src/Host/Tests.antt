-- ===== src/Host/Tests.antt =====
-- A host with one device, on which every write succeeds, and the theorems at it.
use k8snetworkplumbingwg_dra.Common.{
  true, [], ◌∷◌, eq_string, ok, err, plain, wrap, ◌≡◌, refl, arith,
}
use k8snetworkplumbingwg_dra.Types.Samples.{vfio_config}
use k8snetworkplumbingwg_dra.Host.Sample.{World, os, bound_to, sysfs}
use k8snetworkplumbingwg_dra.Common.Yields.{Yields}
use k8snetworkplumbingwg_dra.Host.Modules.{
  is_dpdk_driver, is_kernel_module_loaded, some_line, ensure_vhost_modules_loaded, modules_to_load,
  load_modules, load_kernel_module,
}
use k8snetworkplumbingwg_dra.Host.Driver.{
  bind_driver_by_bus_and_device, bind_device_driver, restore_device_driver,
}
use k8snetworkplumbingwg_dra.Host.Driver.Restore.{
  bind_driver_by_bus_and_device-refuses, restore_device_driver-bind_device_driver,
}

abbrev world : World
world = record { driver_of = λ d. "iavf"; modules = "vfio" ∷ "vfio_pci" ∷ [] }

abbrev bound_world : World
bound_world = record world { driver_of = λ d. "vfio-pci" }

restore_device_driver-bind_device_driver_example :
    Yields (bind_device_driver os "0000:01:00.1" vfio_config) world (λ original _.
      Yields
        (restore_device_driver os "0000:01:00.1" original)
        bound_world
        (λ _ w'. bound_to w' "0000:01:00.1" ≡ "iavf"))
restore_device_driver-bind_device_driver_example =
    restore_device_driver-bind_device_driver os bound_to sysfs "0000:01:00.1" vfio_config world
      bound_world refl refl

igb_uio_is_dpdk : is_dpdk_driver "igb_uio" ≡ true
unfolding is_dpdk_driver
igb_uio_is_dpdk = refl

bind_driver_by_bus_and_device-refuses_example :
    bind_driver_by_bus_and_device os "0000:01:00.1" "igb_uio" world ≡ (
      err (
          wrap "failed to ensure DPDK module is loaded for driver %s: %w"
            (plain "unknown DPDK driver: %s")),
      world,
    )
bind_driver_by_bus_and_device-refuses_example =
    bind_driver_by_bus_and_device-refuses os "0000:01:00.1" "igb_uio" world igb_uio_is_dpdk
      (λ e. ground (arith, eq_string.beq_iff "igb_uio" "vfio-pci", e))

vhost_runs : (ensure_vhost_modules_loaded os world).0 ≡ ok tt
unfolding ensure_vhost_modules_loaded modules_to_load load_modules load_kernel_module
    is_kernel_module_loaded some_line
vhost_runs = refl
