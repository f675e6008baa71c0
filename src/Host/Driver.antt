-- ===== src/Host/Driver.antt =====
-- pkg/host/host.go: which driver a device is bound to, from BindDeviceDriver down to the writes
-- under /sys.
pub mod Restore
pub mod Frame
use k8snetworkplumbingwg_dra.Common.{
  String, Option, none, some, Bool, true, false, not, if◌then◌else◌, ◌==◌, eq_string, Result, ok,
  err, panic, Error, wrap, Action, ◌>>=◌, ◌>>◌, pure, map_err,
}
use k8snetworkplumbingwg_dra.Api.VfConfig.{VfConfig}
use k8snetworkplumbingwg_dra.Host.Os.{
  Os, SysFile, driver_link, driver_override, bind_file, unbind_file, drivers_probe, reading,
}
use k8snetworkplumbingwg_dra.Host.Modules.{is_dpdk_driver, ensure_dpdk_module_loaded}

module _ {W : Type 0} (os : Os W) where
  abbrev pub driver_name : Option String → String
  driver_name none = ""
  driver_name (some target) = os.base target

  unfoldable pub get_driver_by_bus_and_device : String → Action W String
  get_driver_by_bus_and_device device =
      reading (os.readlink (driver_link device)) >>= λ target. pure (driver_name target)

  unfoldable pub bind_driver : String → String → Action W (Unit {0})
  bind_driver device driver = os.write_file (bind_file driver) device

  unfoldable pub unbind_driver : String → String → Action W (Unit {0})
  unbind_driver device driver = os.write_file (unbind_file driver) device

  unfoldable pub probe_driver : String → Action W (Unit {0})
  probe_driver device = os.write_file drivers_probe device

  -- An empty override is written as a zero byte.
  abbrev pub override_data : String → String
  override_data driver = if not (driver == "") then driver else "\0"

  unfoldable pub set_driver_override : String → String → Action W (Unit {0})
  set_driver_override device driver = reading (os.stat (driver_override device)) >>= λ exists.
      if exists then os.write_file (driver_override device) (override_data driver) else pure tt

  unfoldable pub unbind_driver_by_bus_and_device : String → Action W (Unit {0})
  unbind_driver_by_bus_and_device device = get_driver_by_bus_and_device device >>= λ driver.
      if driver == "" then pure tt else unbind_driver device driver

  abbrev pub override_and_bind : String → String → Action W (Unit {0})
  override_and_bind device driver =
      set_driver_override device driver
      >> (bind_driver device driver >> set_driver_override device "")

  unfoldable pub bind_driver_by_bus_and_device : String → String → Action W (Unit {0})
  bind_driver_by_bus_and_device device driver =
      map_err (wrap "failed to ensure DPDK module is loaded for driver %s: %w")
        (ensure_dpdk_module_loaded os driver)
      >> (get_driver_by_bus_and_device device >>= λ current.
          if not (current == "")
          then (if current == driver
              then pure tt
              else unbind_driver_by_bus_and_device device >> override_and_bind device driver)
          else override_and_bind device driver)

  abbrev pub reset_and_probe : String → Action W (Unit {0})
  reset_and_probe device = set_driver_override device "" >> probe_driver device

  unfoldable pub bind_default_driver : String → Action W (Unit {0})
  bind_default_driver device = get_driver_by_bus_and_device device >>= λ current.
      if not (current == "")
      then (if not (is_dpdk_driver current)
          then pure tt
          else unbind_driver_by_bus_and_device device >> reset_and_probe device)
      else reset_and_probe device

  unfoldable pub bind_device_driver : String → VfConfig → Action W String
  bind_device_driver device config =
      if config.driver == ""
      then pure ""
      else map_err (wrap "failed to get current driver for device %s: %w")
          (get_driver_by_bus_and_device device)
        >>= λ current.
            if config.driver == "default"
            then map_err (wrap "failed to bind device %s to default driver: %w")
                (bind_default_driver device)
              >> pure current
            else map_err (wrap "failed to bind device %s to driver %s: %w")
                (bind_driver_by_bus_and_device device config.driver)
              >> pure current

  unfoldable pub restore_device_driver : String → String → Action W (Unit {0})
  restore_device_driver device original =
      if original == ""
      then bind_default_driver device
      else bind_driver_by_bus_and_device device original
