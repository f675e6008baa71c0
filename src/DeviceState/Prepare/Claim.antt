-- ===== src/DeviceState/Prepare/Claim.antt =====
-- pkg/devicestate/state.go: prepareDevices, unprepareDevices, PrepareDevicesForClaim and Unprepare.
use k8snetworkplumbingwg_dra.Common.{
  String, Option, none, some, not, ℕ, suc, List, [], ◌∷◌, ◌++◌, if◌then◌else◌, ◌==◌, eq_string, Map,
  lookup, Result, ok, err, panic, Error, plain, wrap, quote, join_all, Action, ◌>>=◌, ◌>>◌, pure,
  throw, crash, map_err, attempt,
}
use k8snetworkplumbingwg_dra.Kube.{
  AllocatedDeviceStatus, DeviceRequestAllocationResult, ResourceClaim, Allocation,
}
use k8snetworkplumbingwg_dra.Api.VfConfig.{VfConfig, default_vf_config, normalize}
use k8snetworkplumbingwg_dra.Api.Opaque.{
  Decoder, driver_name, get_map_of_opaque_device_config_for_device,
}
use k8snetworkplumbingwg_dra.Types.ClaimStatus.Key.{upsert_device_status}
use k8snetworkplumbingwg_dra.Types.Prepared.{PreparedDevice, PreparedDevices}
use k8snetworkplumbingwg_dra.Cdi.{create_claim_spec_file, delete_spec_file}
use k8snetworkplumbingwg_dra.DeviceState.State.{Manager}
use k8snetworkplumbingwg_dra.DeviceState.Services.{Services}
use k8snetworkplumbingwg_dra.DeviceState.DeviceInfo.{
  collect_error, joined_result, sync_device_info_files_if_needed, clean_device_info_files_if_needed,
}
use k8snetworkplumbingwg_dra.DeviceState.Prepare.{apply_config_on_device, names_itself}

-- What prepareDevices changes besides the host: `*ifNameIndex`, the address of the next object, and
-- claim.Status.Devices.
pub record Progress : Type 0 where
  pub if_name_index : ℕ
  pub next_address : ℕ
  pub devices : List AllocatedDeviceStatus

-- The config of a request, else that of all requests, else the default.
unfoldable pub config_for : Map String VfConfig → String → VfConfig
config_for configs request = normalize (elim (lookup request configs) [
  | some config ↦ config
  | none ↦ elim (lookup "" configs) [ some config ↦ config | none ↦ default_vf_config ]
])

module _ {W : Type 0} (services : Services W) where
  abbrev pub restore_changed : PreparedDevice → Option VfConfig → Action W (Unit {0})
  restore_changed p none = pure tt
  restore_changed p (some config) =
      if not (config.driver == "")
      then map_err (wrap "failed to restore original driver for device %s: %w")
          (services.host.restore_device_driver p.pci_address p.original_driver)
      else pure tt

  abbrev pub restore_one : Option PreparedDevice → Action W (Unit {0})
  restore_one none = pure tt
  restore_one (some p) = restore_changed p p.config

  unfoldable pub unprepare_devices : PreparedDevices → Action W (Unit {0})
  unprepare_devices [] = pure tt
  unprepare_devices (p ∷ ps) = restore_one p >> unprepare_devices ps

  abbrev raw_config : Result String → String
  raw_config (ok raw) = raw
  raw_config (err e) = "{}"
  raw_config panic = "{}"

  abbrev pub status_of : DeviceRequestAllocationResult → VfConfig → AllocatedDeviceStatus
  status_of result config = record {
    driver = result.driver;
    pool = result.pool;
    device = result.device;
    share_id = result.share_id;
    raw_data = some (raw_config (services.marshal config));
    network_data = none;
  }

  module _ (s : Manager) (claim : ResourceClaim) (configs : Map String VfConfig) where
    -- After one device.
    abbrev pub advance : DeviceRequestAllocationResult → Progress → Progress
    advance result progress =
        let config = config_for configs result.request in
        record {
          if_name_index =
              if names_itself services s config
              then suc progress.if_name_index
              else progress.if_name_index;
          next_address = suc progress.next_address;
          devices = upsert_device_status progress.devices (status_of result config);
        }

    abbrev pub undone : Error → Result (Unit {0}) → Result PreparedDevices
    undone e (ok _) = err (quote "error applying config on device: %v" e)
    undone e (err r) = err (quote "error applying config on device: %v; rollback failed: %v" e)
    undone e panic = panic

    abbrev pub roll_back : PreparedDevices → Error → Action (W × Progress) PreparedDevices
    roll_back done e p = let (r, w') = unprepare_devices done p.0 in (undone e r, (w', p.1))

    abbrev pub prepare_next :
        (PreparedDevices → Action (W × Progress) PreparedDevices)
        → DeviceRequestAllocationResult
        → PreparedDevices
        → Result PreparedDevice
        → Action (W × Progress) PreparedDevices
    prepare_next more result done (ok d) p = more (done ++ some d ∷ []) (p.0, advance result p.1)
    prepare_next more result done (err e) p = roll_back done e p
    prepare_next more result done panic p = (panic, p)

    -- The loop over the allocation's results; `done` are the devices prepared so far.
    unfoldable pub prepare_results :
        List DeviceRequestAllocationResult → PreparedDevices → Action (W × Progress) PreparedDevices
    prepare_results [] done p = (ok done, p)
    prepare_results (result ∷ results) done p =
        let config = config_for configs result.request in
        let (r, w') =
          apply_config_on_device services s claim config result p.1.next_address p.1.if_name_index
            p.0 in
        let skip = prepare_results results done p in
        if not (result.driver == driver_name)
        then skip
        else prepare_next (prepare_results results) result done r (w', p.1)

  abbrev pub on_host : {A : Type 0} → Action W A → Action (W × Progress) A
  on_host m p = let (r, w') = m p.0 in (r, (w', p.1))

  abbrev unprepared_error : Result (Unit {0}) → String → List Error
  unprepared_error (err e) text = wrap text e ∷ []
  unprepared_error (ok _) text = []
  unprepared_error panic text = []

  -- What follows when the files of a claim cannot be written.
  abbrev pub undo : Manager → PreparedDevices → Error → String → Action W PreparedDevices
  undo s ps cause text = attempt (clean_device_info_files_if_needed services s ps) >>= λ cleaned.
      attempt (unprepare_devices ps) >>= λ restored w.
      let errs =
        cause
        ∷ (unprepared_error cleaned text ++ unprepared_error restored "rollback failed: %w") in
      (elim (join_all errs) [ some e ↦ err e | none ↦ err cause ], w)

  abbrev pub write_files : Manager → PreparedDevices → Action W PreparedDevices
  write_files s [] = throw (plain "no prepared devices found for claim")
  write_files s (p ∷ ps) =
      attempt (sync_device_info_files_if_needed services s (p ∷ ps)) >>= λ synced. elim synced [
        | err e ↦
            undo s (p ∷ ps) (quote "unable to create device-info files for claim: %v" e)
              "cleanup after device-info sync failure failed: %w"
        | panic ↦ crash
        | ok _ ↦ attempt (create_claim_spec_file services.cache (p ∷ ps)) >>= λ created.
            elim created [
              | err e ↦
                  undo s (p ∷ ps) (quote "unable to create CDI spec file for claim: %v" e)
                    "cleanup after CDI spec failure failed: %w"
              | panic ↦ crash
              | ok _ ↦ pure (p ∷ ps)
            ]
      ]

  abbrev with_configs :
      Manager
      → ResourceClaim
      → Allocation
      → Result (Map String VfConfig)
      → Action (W × Progress) PreparedDevices
  with_configs s claim allocation (err e) =
      throw (quote "error creating map of opaque device config for device: %v" e)
  with_configs s claim allocation panic = crash
  with_configs s claim allocation (ok configs) =
      map_err (quote "prepare failed: %v") (prepare_results s claim configs allocation.results [])
      >>= λ ps. on_host (write_files s ps)

  unfoldable pub prepare_devices_for_claim :
      Decoder → Manager → ResourceClaim → Action (W × Progress) PreparedDevices
  prepare_devices_for_claim decoder s claim = elim claim.allocation [
    | none ↦ crash
    | some allocation ↦
        with_configs s claim allocation
          (get_map_of_opaque_device_config_for_device decoder allocation.config)
  ]

  abbrev delete_pod_spec : PreparedDevices → Action W (Unit {0})
  delete_pod_spec [] = pure tt
  delete_pod_spec (none ∷ ps) = pure tt
  delete_pod_spec (some p ∷ ps) = delete_spec_file services.cache p.pod_uid

  -- Every step is tried, and the errors are joined.
  unfoldable pub unprepare : Manager → String → PreparedDevices → Action W (Unit {0})
  unprepare s claim_uid ps =
      attempt (
        map_err (quote "unable to clean device-info files for claim: %v")
          (clean_device_info_files_if_needed services s ps))
      >>= λ cleaned.
          attempt (map_err (quote "unprepare failed: %v") (unprepare_devices ps)) >>= λ restored.
          attempt (
            map_err (quote "unable to delete CDI spec file for PodUID: %v")
              (delete_spec_file services.cache claim_uid))
          >>= λ claim_spec.
              attempt (
                map_err (quote "unable to delete CDI spec file for PodUID: %v")
                  (delete_pod_spec ps))
              >>= λ pod_spec w. (
                joined_result (
                    collect_error cleaned (
                      collect_error restored
                        (collect_error claim_spec (collect_error pod_spec [])))),
                w,
              )
