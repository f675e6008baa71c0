-- ===== src/Host/Driver/Frame.antt =====
-- A change of one device's driver leaves the other devices alone (pkg/host/host.go).
use k8snetworkplumbingwg_dra.Common.{
  String, false, not, List, [], ◌∷◌, ◌==◌, eq_string, Result, Action, ◌>>◌, map_err, ◌≡◌, refl, ◌∙◌,
  All, if_intro,
}
use k8snetworkplumbingwg_dra.Common.Effects.{Preserves, bind-Preserves}
use k8snetworkplumbingwg_dra.Host.Os.{
  Os, driver_link, driver_override, bind_file, unbind_file, drivers_probe, reading,
}
use k8snetworkplumbingwg_dra.Host.Modules.{
  is_dpdk_driver, is_kernel_module_loaded, load_kernel_module, modules_to_load, load_modules,
  ensure_modules, ensure_dpdk_module_loaded,
}
use k8snetworkplumbingwg_dra.Host.Driver.{
  get_driver_by_bus_and_device, bind_driver, unbind_driver, probe_driver, set_driver_override,
  override_data, unbind_driver_by_bus_and_device, override_and_bind, bind_driver_by_bus_and_device,
  bind_default_driver, reset_and_probe, restore_device_driver,
}
use k8snetworkplumbingwg_dra.Host.Driver.Restore.{IsSysfs}

module _ {W : Type 0} (os : Os W) where
  -- What is assumed of sysfs and modprobe besides IsSysfs: a write of a device's address to bind,
  -- unbind or drivers_probe is about that device only, and the modules of vfio-pci, which has no device
  -- IDs of its own, take no device when they are loaded.
  pub record IsFramed (bound_to : W → String → String) : Type 0 where
    pub bind_keeps :
        (d driver e : String) (w : W)
        → (d == e) ≡ false
        → bound_to (os.write_file (bind_file driver) d w).1 e ≡ bound_to w e
    pub unbind_keeps :
        (d driver e : String) (w : W)
        → (d == e) ≡ false
        → bound_to (os.write_file (unbind_file driver) d w).1 e ≡ bound_to w e
    pub probe_keeps :
        (d e : String) (w : W)
        → (d == e) ≡ false
        → bound_to (os.write_file drivers_probe d w).1 e ≡ bound_to w e
    pub loads_keep :
        (e : String)
        → All
            (λ name. (w : W) → bound_to (os.modprobe name w).1 e ≡ bound_to w e)
            ("vfio" ∷ "vfio_pci" ∷ [])

  module _ (bound_to : W → String → String) (sysfs : IsSysfs os bound_to)
      (framed : IsFramed bound_to) (d e : String) (away : (d == e) ≡ false) where
    abbrev seen : W → String
    seen w = bound_to w e

    abbrev Loads : List String → Type 0
    Loads names = All (λ name. (w : W) → seen (os.modprobe name w).1 ≡ seen w) names

    modules_to_load-Loads :
        (names : List String) (w : W) → Loads names → Loads (modules_to_load os names w)
    unfolding modules_to_load
    modules_to_load-Loads [] w h = tt
    modules_to_load-Loads (name ∷ names) w h =
        if_intro Loads (is_kernel_module_loaded os name w) (λ _. modules_to_load-Loads names w h.1)
          (λ _. (h.0, modules_to_load-Loads names w h.1))

    load_modules-keeps :
        (names : List String) (w : W) → Loads names → seen (load_modules os names w).1 ≡ seen w
    unfolding load_modules load_kernel_module
    load_modules-keeps [] w h = refl
    load_modules-keeps (name ∷ names) w h =
        load_modules-keeps names (os.modprobe name w).1 h.1 ∙ h.0 w

    ensure_modules-Preserves :
        (text : String) (names : List String)
        → Loads names
        → Preserves seen (ensure_modules os text names)
    ensure_modules-Preserves text [] h w = refl
    ensure_modules-Preserves text (name ∷ names) h w = load_modules-keeps (name ∷ names) w h

    ensure_dpdk-Preserves : (driver : String) → Preserves seen (ensure_dpdk_module_loaded os driver)
    unfolding ensure_dpdk_module_loaded
    ensure_dpdk-Preserves driver w =
        let Q : Result (Unit {0}) × W → Type 0 = λ x. seen x.1 ≡ seen w in
        if_intro Q (not (is_dpdk_driver driver)) (λ _. refl)
          (λ _.
            if_intro Q (driver == "vfio-pci")
              (λ _.
                ensure_modules-Preserves _ _
                  (modules_to_load-Loads ("vfio" ∷ "vfio_pci" ∷ []) w (framed.loads_keep e)) w)
              (λ _. refl))

    abbrev Kept : {A : Type 0} → Action W A → Type 0
    Kept m = Preserves seen m

    get_driver-Kept : Kept (get_driver_by_bus_and_device os d)
    unfolding get_driver_by_bus_and_device
    get_driver-Kept =
        bind-Preserves seen (reading (os.readlink (driver_link d))) _ (λ w. refl) (λ target w. refl)

    set_override-Kept : (text : String) → Kept (set_driver_override os d text)
    unfolding set_driver_override
    set_override-Kept text =
        bind-Preserves seen (reading (os.stat (driver_override d))) _ (λ w. refl)
          (λ exists.
            if_intro (λ (m : Action W (Unit {0})). Kept m) exists
              (λ _ w. sysfs.override_keeps d (override_data os text) e w) (λ _ w. refl))

    override_and_bind-Kept : (driver : String) → Kept (override_and_bind os d driver)
    unfolding bind_driver
    override_and_bind-Kept driver =
        bind-Preserves seen (set_driver_override os d driver) _ (set_override-Kept driver) (λ _.
          bind-Preserves seen (bind_driver os d driver) _ (λ w. framed.bind_keeps d driver e w away)
            (λ _. set_override-Kept ""))

    unbind-Kept : Kept (unbind_driver_by_bus_and_device os d)
    unfolding unbind_driver_by_bus_and_device unbind_driver
    unbind-Kept =
        bind-Preserves seen (get_driver_by_bus_and_device os d) _ get_driver-Kept (λ driver.
          if_intro (λ (m : Action W (Unit {0})). Kept m) (driver == "") (λ _ w. refl)
            (λ _ w. framed.unbind_keeps d driver e w away))

    rebind-Kept :
        (driver : String)
        → Kept (unbind_driver_by_bus_and_device os d >> override_and_bind os d driver)
    rebind-Kept driver =
        bind-Preserves seen (unbind_driver_by_bus_and_device os d) _ unbind-Kept
          (λ _. override_and_bind-Kept driver)

    bind_driver-Kept : (driver : String) → Kept (bind_driver_by_bus_and_device os d driver)
    unfolding bind_driver_by_bus_and_device
    bind_driver-Kept driver =
        let Q : Action W (Unit {0}) → Type 0 = λ m. Kept m in
        bind-Preserves seen (map_err _ (ensure_dpdk_module_loaded os driver)) _
          (ensure_dpdk-Preserves driver)
          (λ _.
            bind-Preserves seen (get_driver_by_bus_and_device os d) _ get_driver-Kept (λ current.
              if_intro Q (not (current == ""))
                (λ _. if_intro Q (current == driver) (λ _ w. refl) (λ _. rebind-Kept driver))
                (λ _. override_and_bind-Kept driver)))

    reset_and_probe-Kept : Kept (reset_and_probe os d)
    unfolding probe_driver
    reset_and_probe-Kept =
        bind-Preserves seen (set_driver_override os d "") _ (set_override-Kept "")
          (λ _ w. framed.probe_keeps d e w away)

    default-Kept : Kept (bind_default_driver os d)
    unfolding bind_default_driver
    default-Kept =
        let Q : Action W (Unit {0}) → Type 0 = λ m. Kept m in
        bind-Preserves seen (get_driver_by_bus_and_device os d) _ get_driver-Kept (λ current.
          if_intro Q (not (current == ""))
            (λ _.
              if_intro Q (not (is_dpdk_driver current)) (λ _ w. refl)
                (λ _.
                  bind-Preserves seen (unbind_driver_by_bus_and_device os d) _ unbind-Kept
                    (λ _. reset_and_probe-Kept)))
            (λ _. reset_and_probe-Kept))

    -- A restore of the device, with whatever outcome, leaves the driver of another device as it was.
    pub restore_device_driver-keeps :
        (original : String) (w : W)
        → bound_to (restore_device_driver os d original w).1 e ≡ bound_to w e
    unfolding restore_device_driver
    restore_device_driver-keeps original =
        if_intro (λ (m : Action W (Unit {0})). Kept m) (original == "") (λ _. default-Kept)
          (λ _. bind_driver-Kept original)
