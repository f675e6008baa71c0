-- ===== src/Driver/Stack/Restored.antt =====
-- unprepareDevices on the host of pkg/host (pkg/devicestate/state.go, pkg/host/host.go).
mod Tests
use k8snetworkplumbingwg_dra.Common.{
  String, some, none, false, ◌∷◌, ◌++◌, ◌==◌, eq_string, ◌≡◌, All,
}
use k8snetworkplumbingwg_dra.Api.VfConfig.{VfConfig}
use k8snetworkplumbingwg_dra.Types.Prepared.{PreparedDevice, PreparedDevices}
use k8snetworkplumbingwg_dra.Common.Yields.{Yields}
use k8snetworkplumbingwg_dra.Host.Os.{Os}
use k8snetworkplumbingwg_dra.Host.Sysfs.{Sysfs, Providers}
use k8snetworkplumbingwg_dra.Host.Driver.Restore.{IsSysfs, restore-bound}
use k8snetworkplumbingwg_dra.Host.Driver.Frame.{IsFramed, restore_device_driver-keeps}
use k8snetworkplumbingwg_dra.DeviceState.Services.{Services}
use k8snetworkplumbingwg_dra.DeviceState.Prepare.Claim.{unprepare_devices}
use k8snetworkplumbingwg_dra.DeviceState.Prepare.Restored.{
  IsHost, IsAway, unprepare_devices-returns,
}
use k8snetworkplumbingwg_dra.Driver.Stack.{claim_host}

-- The services with the host of pkg/host.
abbrev pub on_claim_host : {W : Type 0} → Os W → Sysfs W → Providers W → Services W → Services W
on_claim_host os sys providers services = record services { host = claim_host os sys providers }

module _ {W : Type 0} (os : Os W) (sys : Sysfs W) (providers : Providers W) (services : Services W)
    (bound_to : W → String → String) (sysfs : IsSysfs os bound_to)
    (framed : IsFramed os bound_to) where
  implementation-IsHost : IsHost (on_claim_host os sys providers services) bound_to
  implementation-IsHost = record {
    restores = restore-bound os bound_to sysfs;
    keeps = λ d original e w away.
        restore_device_driver-keeps os bound_to sysfs framed d e away original w;
  }

  -- When unprepareDevices succeeds on a host that keeps the rules of sysfs, and where no device is
  -- taken when the modules of vfio-pci are loaded: a device whose config named a driver, and that had a
  -- driver before it was prepared, is bound to that driver again, wherever it stands in the list, if no
  -- later entry is for the same device.
  pub unprepare_devices-restores :
      (p : PreparedDevice) (config : VfConfig)
      → p.config ≡ some config
      → (config.driver == "") ≡ false
      → (p.original_driver == "") ≡ false
      → (before after : PreparedDevices) (w : W) → All (IsAway p.pci_address) after
      → Yields
          (unprepare_devices (on_claim_host os sys providers services) (before ++ some p ∷ after))
          w
          (λ _ w'. bound_to w' p.pci_address ≡ p.original_driver)
  unprepare_devices-restores p config has named bound before after w away =
      unprepare_devices-returns (on_claim_host os sys providers services) bound_to
        implementation-IsHost p config has named bound before after w away
