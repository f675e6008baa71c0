-- ===== src/Host/Driver/Restore.antt =====
-- What binding and restoring leave a device bound to (pkg/host/host.go).
use k8snetworkplumbingwg_dra.Common.{
  String, true, false, not, if◌then◌else◌, ◌==◌, eq_string, eq→path, err, wrap, plain, Action,
  ◌>>=◌, ◌>>◌, pure, map_err, ◌≡◌, ◌≢◌, refl, ◌∙◌, sym, ap, arith, if_intro,
}
use k8snetworkplumbingwg_dra.Api.VfConfig.{VfConfig}
use k8snetworkplumbingwg_dra.Host.Os.{Os, driver_link, driver_override, bind_file, reading}
use k8snetworkplumbingwg_dra.Common.Yields.{
  OnOk, Yields, yields-bind, on_ok-any, on_ok-map, yields-after, yields-map_err,
}
use k8snetworkplumbingwg_dra.Host.Modules.{is_dpdk_driver, ensure_dpdk_module_loaded}
use k8snetworkplumbingwg_dra.Host.Driver.{
  driver_name, get_driver_by_bus_and_device, bind_driver, set_driver_override, override_data,
  unbind_driver_by_bus_and_device, override_and_bind, bind_driver_by_bus_and_device,
  bind_default_driver, bind_device_driver, restore_device_driver,
}

module _ {W : Type 0} (os : Os W) where
  -- What is assumed of sysfs. `bound_to` is the driver a device is bound to, or "".
  pub record IsSysfs (bound_to : W → String → String) : Type 0 where
    pub link :
        (d : String) (w : W)
        → OnOk (os.readlink (driver_link d) w) (λ target. driver_name os target ≡ bound_to w d)
    pub binds :
        (d driver : String) (w : W)
        → Yields (os.write_file (bind_file driver) d) w (λ _ w'. bound_to w' d ≡ driver)
    pub override_keeps :
        (d text e : String) (w : W)
        → bound_to (os.write_file (driver_override d) text w).1 e ≡ bound_to w e

  module _ (bound_to : W → String → String) (sysfs : IsSysfs bound_to) where
    abbrev IsBound : String → String → W → Type 0
    IsBound d driver w = bound_to w d ≡ driver

    get_driver-bound :
        (d : String) (w : W)
        → Yields
            (get_driver_by_bus_and_device os d)
            w
            (λ current w'. (current ≡ bound_to w d) × (w' ≡ w))
    unfolding get_driver_by_bus_and_device
    get_driver-bound d w =
        yields-bind (λ target. pure (driver_name os target))
          (λ current w'. (current ≡ bound_to w d) × (w' ≡ w))
          (reading (os.readlink (driver_link d))) w
          (on_ok-map (λ target. driver_name os target ≡ bound_to w d)
            (λ target. (driver_name os target ≡ bound_to w d) × (w ≡ w))
            (os.readlink (driver_link d) w) (λ target e. (e, refl)) (sysfs.link d w))

    set_override-keeps :
        (d text driver : String) (w : W)
        → IsBound d driver w
        → Yields (set_driver_override os d text) w (λ _ w'. IsBound d driver w')
    unfolding set_driver_override
    set_override-keeps d text driver w h =
        yields-bind
          (λ exists.
            if exists then os.write_file (driver_override d) (override_data os text) else pure tt)
          (λ _ w'. IsBound d driver w') (reading (os.stat (driver_override d))) w
          (on_ok-any _ (os.stat (driver_override d) w) (λ exists.
            if_intro (λ (m : Action W (Unit {0})). Yields m w (λ _ w'. IsBound d driver w')) exists
              (λ e.
                on_ok-any _ (os.write_file (driver_override d) (override_data os text) w).0
                  (λ _. sysfs.override_keeps d (override_data os text) d w ∙ h))
              (λ e. h)))

    override_and_bind-IsBound :
        (d driver : String) (w : W)
        → Yields (override_and_bind os d driver) w (λ _ w'. IsBound d driver w')
    unfolding bind_driver
    override_and_bind-IsBound d driver w =
        yields-after (λ _. bind_driver os d driver >> set_driver_override os d "")
          (λ _ w'. IsBound d driver w') (set_driver_override os d driver) w
          (λ _ w1.
            yields-bind (λ _. set_driver_override os d "") (λ _ w'. IsBound d driver w')
              (bind_driver os d driver) w1
              (on_ok-map (λ _. IsBound d driver (bind_driver os d driver w1).1) _
                (bind_driver os d driver w1).0
                (λ _ h. set_override-keeps d "" driver (bind_driver os d driver w1).1 h)
                (sysfs.binds d driver w1)))

    abbrev choose : String → String → String → Action W (Unit {0})
    choose d driver current =
        if not (current == "")
        then (if current == driver
            then pure tt
            else unbind_driver_by_bus_and_device os d >> override_and_bind os d driver)
        else override_and_bind os d driver

    choose-IsBound :
        (d driver current : String) (w : W)
        → current ≡ bound_to w d
        → Yields (choose d driver current) w (λ _ w'. IsBound d driver w')
    choose-IsBound d driver current w h =
        let Q : Action W (Unit {0}) → Type 0 = λ m. Yields m w (λ _ w'. IsBound d driver w') in
        if_intro Q (not (current == ""))
          (λ _.
            if_intro Q (current == driver) (λ e. sym h ∙ eq→path current driver e)
              (λ _.
                yields-after (λ _. override_and_bind os d driver) (λ _ w'. IsBound d driver w')
                  (unbind_driver_by_bus_and_device os d) w
                  (λ _ w'. override_and_bind-IsBound d driver w')))
          (λ _. override_and_bind-IsBound d driver w)

    -- When binding reports success, the device is bound to the driver that was asked for.
    pub bind_driver_by_bus_and_device-bound :
        (d driver : String) (w : W)
        → Yields (bind_driver_by_bus_and_device os d driver) w (λ _ w'. bound_to w' d ≡ driver)
    unfolding bind_driver_by_bus_and_device
    bind_driver_by_bus_and_device-bound d driver w =
        yields-after (λ _. get_driver_by_bus_and_device os d >>= choose d driver)
          (λ _ w'. IsBound d driver w')
          (map_err (wrap "failed to ensure DPDK module is loaded for driver %s: %w")
            (ensure_dpdk_module_loaded os driver))
          w
          (λ _ w1.
            yields-bind (choose d driver) (λ _ w'. IsBound d driver w')
              (get_driver_by_bus_and_device os d) w1
              (on_ok-map _ _ (get_driver_by_bus_and_device os d w1).0
                (λ current h.
                  choose-IsBound d driver current (get_driver_by_bus_and_device os d w1).1
                    (h.0 ∙ ap (λ v. bound_to v d) (sym h.1)))
                (get_driver-bound d w1)))

    pub restore-bound :
        (d original : String) (w : W)
        → (original == "") ≡ false
        → Yields (restore_device_driver os d original) w (λ _ w'. bound_to w' d ≡ original)
    unfolding restore_device_driver
    restore-bound d original w h =
        if_intro (λ (m : Action W (Unit {0})). Yields m w (λ _ w'. bound_to w' d ≡ original))
          (original == "") (λ e. ground (arith, e, h))
          (λ _. bind_driver_by_bus_and_device-bound d original w)

    abbrev Restores : String → W → String → Type 0
    Restores d w original =
        (w2 : W)
        → Yields (restore_device_driver os d original) w2 (λ _ w'. bound_to w' d ≡ bound_to w d)

    Restores-current :
        (d : String) (w : W) (current : String)
        → current ≡ bound_to w d
        → (bound_to w d == "") ≡ false
        → Restores d w current
    Restores-current d w current h had w2 =
        on_ok-map _ _ (restore_device_driver os d current w2).0 (λ _ e. e ∙ h)
          (restore-bound d current w2 (ap (λ c. c == "") h ∙ had))

    abbrev bind_as : String → VfConfig → String → Action W String
    bind_as d config current =
        if config.driver == "default"
        then map_err (wrap "failed to bind device %s to default driver: %w")
            (bind_default_driver os d)
          >> pure current
        else map_err (wrap "failed to bind device %s to driver %s: %w")
            (bind_driver_by_bus_and_device os d config.driver)
          >> pure current

    bind_as-Restores :
        (d : String) (config : VfConfig) (w : W) (current : String) (w1 : W)
        → current ≡ bound_to w d
        → (bound_to w d == "") ≡ false
        → Yields (bind_as d config current) w1 (λ original _. Restores d w original)
    bind_as-Restores d config w current w1 h had =
        let done : Restores d w current = Restores-current d w current h had in
        if_intro (λ (m : Action W String). Yields m w1 (λ original _. Restores d w original))
          (config.driver == "default")
          (λ _.
            yields-after (λ _. pure current) (λ original _. Restores d w original)
              (map_err _ (bind_default_driver os d)) w1 (λ _ _. done))
          (λ _.
            yields-after (λ _. pure current) (λ original _. Restores d w original)
              (map_err _ (bind_driver_by_bus_and_device os d config.driver)) w1 (λ _ _. done))

    bind_device_driver-Restores :
        (d : String) (config : VfConfig) (w : W)
        → (config.driver == "") ≡ false
        → (bound_to w d == "") ≡ false
        → Yields (bind_device_driver os d config) w (λ original _. Restores d w original)
    unfolding bind_device_driver
    bind_device_driver-Restores d config w named had =
        if_intro (λ (m : Action W String). Yields m w (λ original _. Restores d w original))
          (config.driver == "") (λ e. ground (arith, e, named))
          (λ _.
            yields-bind (bind_as d config) (λ original _. Restores d w original)
              (map_err (wrap "failed to get current driver for device %s: %w")
                (get_driver_by_bus_and_device os d))
              w
              (yields-map_err _
                (λ current w'.
                  Yields (bind_as d config current) w' (λ original _. Restores d w original))
                (get_driver_by_bus_and_device os d) w
                (on_ok-map _ _ (get_driver_by_bus_and_device os d w).0
                  (λ current h.
                    bind_as-Restores d config w current (get_driver_by_bus_and_device os d w).1 h.0
                      had)
                  (get_driver-bound d w))))

    -- When a config names a driver and the device had one, what BindDeviceDriver returns brings the
    -- device back from any state: a RestoreDeviceDriver with it that reports success leaves the
    -- device bound to the driver it had before.
    pub restore_device_driver-bind_device_driver :
        (d : String) (config : VfConfig) (w w2 : W)
        → (config.driver == "") ≡ false
        → (bound_to w d == "") ≡ false
        → Yields (bind_device_driver os d config) w (λ original _.
          Yields (restore_device_driver os d original) w2 (λ _ w'. bound_to w' d ≡ bound_to w d))
    restore_device_driver-bind_device_driver d config w w2 named had =
        on_ok-map (λ original. Restores d w original) _ (bind_device_driver os d config w).0
          (λ original h. h w2) (bind_device_driver-Restores d config w named had)

  -- A driver that the code counts among the DPDK drivers, but that is not vfio-pci, is never bound:
  -- the call fails before anything is touched.
  pub bind_driver_by_bus_and_device-refuses :
      (d driver : String) (w : W)
      → is_dpdk_driver driver ≡ true
      → driver ≢ "vfio-pci"
      → bind_driver_by_bus_and_device os d driver w ≡ (
        err (
            wrap "failed to ensure DPDK module is loaded for driver %s: %w"
              (plain "unknown DPDK driver: %s")),
        w,
      )
  unfolding bind_driver_by_bus_and_device ensure_dpdk_module_loaded
  bind_driver_by_bus_and_device-refuses d driver w h n =
      ground (arith, eq_string.beq_iff driver "vfio-pci")
