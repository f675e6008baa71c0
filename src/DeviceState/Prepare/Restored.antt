-- ===== src/DeviceState/Prepare/Restored.antt =====
-- What unprepareDevices leaves the devices bound to (pkg/devicestate/state.go).
use k8snetworkplumbingwg_dra.Common.{
  String, Option, none, some, false, not, [], ◌∷◌, ◌++◌, ◌==◌, eq_string, Result, ok, err, panic,
  Action, and_then, ◌≡◌, refl, sym, ◌∙◌, All, arith, subst, if_intro,
}
use k8snetworkplumbingwg_dra.Api.VfConfig.{VfConfig}
use k8snetworkplumbingwg_dra.Types.Prepared.{PreparedDevice, PreparedDevices}
use k8snetworkplumbingwg_dra.Common.Yields.{
  Yields, yields-after, yields-bind, yields-map_err, on_ok-any, on_ok-map,
}
use k8snetworkplumbingwg_dra.DeviceState.Services.{Services}
use k8snetworkplumbingwg_dra.DeviceState.Prepare.Claim.{
  restore_one, restore_changed, unprepare_devices,
}

-- What is used of the host, and shown of pkg/host in Driver.Stack.Restored: a restore that reports success binds the device to the driver it is
-- given, and no restore touches another device.
pub record IsHost {W : Type 0} (services : Services W) (bound_to : W → String → String)
    : Type 0 where
  pub restores :
      (d original : String) (w : W)
      → (original == "") ≡ false
      → Yields (services.host.restore_device_driver d original) w (λ _ w'. bound_to w' d ≡ original)
  pub keeps :
      (d original e : String) (w : W)
      → (d == e) ≡ false
      → bound_to (services.host.restore_device_driver d original w).1 e ≡ bound_to w e

-- The entry is not for the device.
abbrev pub IsAway : String → Option PreparedDevice → Type 0
IsAway e none = Unit
IsAway e (some q) = (q.pci_address == e) ≡ false

module _ {W : Type 0} (services : Services W) (bound_to : W → String → String)
    (host : IsHost services bound_to) where
  changed-keeps :
      (e : String) (q : PreparedDevice) (o : Option VfConfig) (w : W)
      → (q.pci_address == e) ≡ false
      → bound_to (restore_changed services q o w).1 e ≡ bound_to w e
  changed-keeps e q none w away = refl
  changed-keeps e q (some config) w away =
      if_intro (λ (m : Action W (Unit {0})). bound_to (m w).1 e ≡ bound_to w e)
        (not (config.driver == "")) (λ _. host.keeps q.pci_address q.original_driver e w away)
        (λ _. refl)

  restore_one-keeps :
      (e : String) (o : Option PreparedDevice) (w : W)
      → IsAway e o
      → bound_to (restore_one services o w).1 e ≡ bound_to w e
  restore_one-keeps e none w away = refl
  restore_one-keeps e (some q) w away = changed-keeps e q q.config w away

  and_then-keeps :
      (r : Result (Unit {0})) (k : Action W (Unit {0})) (e : String) (w : W)
      → bound_to (k w).1 e ≡ bound_to w e
      → bound_to (and_then r (λ _. k) w).1 e ≡ bound_to w e
  and_then-keeps (ok _) k e w h = h
  and_then-keeps (err x) k e w h = refl
  and_then-keeps panic k e w h = refl

  unprepare_devices-keeps :
      (e : String) (ps : PreparedDevices) (w : W)
      → All (IsAway e) ps
      → bound_to (unprepare_devices services ps w).1 e ≡ bound_to w e
  unfolding unprepare_devices
  unprepare_devices-keeps e [] w away = refl
  unprepare_devices-keeps e (o ∷ ps) w away =
      let first = restore_one services o w in
      and_then-keeps first.0 (unprepare_devices services ps) e first.1
        (unprepare_devices-keeps e ps first.1 away.1)
      ∙ restore_one-keeps e o w away.0

  module _ (p : PreparedDevice) (config : VfConfig) (has : p.config ≡ some config)
      (named : (config.driver == "") ≡ false) (bound : (p.original_driver == "") ≡ false) where
    restore_one-restores :
        (w : W)
        → Yields
            (restore_one services (some p))
            w
            (λ _ w'. bound_to w' p.pci_address ≡ p.original_driver)
    restore_one-restores w =
        subst
          (λ o.
            Yields (restore_changed services p o) w
              (λ _ w'. bound_to w' p.pci_address ≡ p.original_driver))
          (sym has)
          (if_intro
            (λ (m : Action W (Unit {0})).
              Yields m w (λ _ w'. bound_to w' p.pci_address ≡ p.original_driver))
            (not (config.driver == ""))
            (λ _.
              yields-map_err _ (λ _ w'. bound_to w' p.pci_address ≡ p.original_driver)
                (services.host.restore_device_driver p.pci_address p.original_driver) w
                (host.restores p.pci_address p.original_driver w bound))
            (λ e. ground (arith, e, named)))

    -- When unprepareDevices succeeds, a device whose config named a driver, and that had a driver
    -- before it was prepared, is bound to that driver again, wherever it stands in the list, if no
    -- later entry is for the same device.
    pub unprepare_devices-returns :
        (before after : PreparedDevices) (w : W)
        → All (IsAway p.pci_address) after
        → Yields
            (unprepare_devices services (before ++ some p ∷ after))
            w
            (λ _ w'. bound_to w' p.pci_address ≡ p.original_driver)
    unfolding unprepare_devices
    unprepare_devices-returns [] after w away =
        yields-bind (λ _. unprepare_devices services after)
          (λ _ w'. bound_to w' p.pci_address ≡ p.original_driver) (restore_one services (some p)) w
          (on_ok-map
            (λ _. bound_to (restore_one services (some p) w).1 p.pci_address ≡ p.original_driver) _
            (restore_one services (some p) w).0
            (λ _ h.
              on_ok-any _ (unprepare_devices services after (restore_one services (some p) w).1).0
                (λ _.
                  unprepare_devices-keeps p.pci_address after (restore_one services (some p) w).1
                    away
                  ∙ h))
            (restore_one-restores w))
    unprepare_devices-returns (o ∷ before) after w away =
        yields-after (λ _. unprepare_devices services (before ++ some p ∷ after))
          (λ _ w'. bound_to w' p.pci_address ≡ p.original_driver) (restore_one services o) w
          (λ _ w'. unprepare_devices-returns before after w' away)
