-- ===== src/DeviceState/DeviceInfo.antt =====
-- pkg/devicestate/deviceinfo.go: the device-info files of MULTUS mode.
use k8snetworkplumbingwg_dra.Common.{
  String, Option, none, some, Bool, not, List, [], ◌∷◌, if◌then◌else◌, ◌==◌, ◌||◌, eq_string,
  lookup, Result, ok, err, panic, Error, plain, wrap, join_all, Action, ◌>>=◌, ◌>>◌, pure, throw,
  map_err, attempt,
}
use k8snetworkplumbingwg_dra.Kube.{DeviceAttribute, Attributes}
use k8snetworkplumbingwg_dra.Consts.{attribute_multus_resource_name, attribute_multus_device_id}
use k8snetworkplumbingwg_dra.Types.Prepared.{PreparedDevice, PreparedDevices}
use k8snetworkplumbingwg_dra.DeviceState.State.{Manager, is_multus_mode}
use k8snetworkplumbingwg_dra.DeviceState.Services.{Services, DeviceInfo}

abbrev pub string_value : Option DeviceAttribute → Option String
string_value none = none
string_value (some a) = a.string_value

abbrev not_empty : Option String → Option String
not_empty none = none
not_empty (some text) = if text == "" then none else some text

unfoldable pub get_string_device_attribute : Attributes → String → Option String
get_string_device_attribute attributes key = not_empty (string_value (lookup key attributes))

abbrev both : Option String → Option String → Option (String × String)
both (some name) (some id) = some (name, id)
both (some name) none = none
both none _ = none

-- The resource name and the device ID.
unfoldable pub extract_multus_device_info_attrs : Attributes → Option (String × String)
extract_multus_device_info_attrs attributes =
    both (get_string_device_attribute attributes attribute_multus_resource_name)
      (get_string_device_attribute attributes attribute_multus_device_id)

-- The error of one round of a loop that goes on: nil appends nothing.
abbrev pub collect_error {ℓ} : {A : Type ℓ} → Result A → List Error → List Error
collect_error (err e) es = e ∷ es
collect_error (ok _) es = es
collect_error panic es = es

-- `if len(errs) > 0 { return errors.Join(errs...) }; return nil`
abbrev pub joined_result : List Error → Result (Unit {0})
joined_result es = elim (join_all es) [ none ↦ ok tt | some e ↦ err e ]

abbrev skipped : PreparedDevice → Bool
skipped p = p.multus_resource_name == "" || p.multus_device_id == ""

-- A loop that tries `f` on each device and goes on after an error; a panic ends it.
unfoldable pub for_each :
    {W : Type 0}
    → (Option PreparedDevice → Action W (Unit {0}))
    → PreparedDevices
    → Action W (List Error)
for_each f [] = pure []
for_each f (p ∷ ps) = attempt (f p) >>= λ r. for_each f ps >>= λ es. pure (collect_error r es)

module _ {W : Type 0} (services : Services W) where
  abbrev rdma_of : List String → String
  rdma_of [] = ""
  rdma_of (d ∷ ds) = services.join (d ∷ ds)

  unfoldable pub save_device_info_for_prepared_device : PreparedDevice → Action W (Unit {0})
  save_device_info_for_prepared_device p w =
      let info : DeviceInfo = record {
        pci_address = p.pci_address;
        rdma_device = rdma_of (services.host.get_rdma_devices_for_pci p.pci_address w);
      } in
      let save : Action W (Unit {0}) =
        map_err
          (wrap
            "failed to clean stale device-info for device %q (resourceName=%q, deviceID=%q): %w")
          (services.store.clean_device_info_for_dp p.multus_resource_name p.multus_device_id)
        >> map_err
            (wrap "failed to save device-info for device %q (resourceName=%q, deviceID=%q): %w")
            (services.store.save_device_info_for_dp p.multus_resource_name p.multus_device_id
              info) in
      if p.pci_address == ""
      then (err (plain "failed to save device-info for device %q: PCI address is empty"), w)
      else save w

  abbrev sync_one : Option PreparedDevice → Action W (Unit {0})
  sync_one none = throw (plain "prepared device is nil")
  sync_one (some p) = if skipped p then pure tt else save_device_info_for_prepared_device p

  unfoldable pub sync_device_info_files_for_prepared_devices : PreparedDevices → Action W (Unit {0})
  sync_device_info_files_for_prepared_devices ps =
      for_each sync_one ps >>= λ es w. (joined_result es, w)

  abbrev clean_one : Option PreparedDevice → Action W (Unit {0})
  clean_one none = throw (plain "prepared device is nil")
  clean_one (some p) =
      if skipped p
      then pure tt
      else map_err
          (wrap "failed to clean device-info for device %q (resourceName=%q, deviceID=%q): %w")
          (services.store.clean_device_info_for_dp p.multus_resource_name p.multus_device_id)

  unfoldable pub clean_device_info_files_for_prepared_devices :
      PreparedDevices → Action W (Unit {0})
  clean_device_info_files_for_prepared_devices ps =
      for_each clean_one ps >>= λ es w. (joined_result es, w)

  unfoldable pub sync_device_info_files_if_needed : Manager → PreparedDevices → Action W (Unit {0})
  sync_device_info_files_if_needed s ps =
      if not (is_multus_mode s) then pure tt else sync_device_info_files_for_prepared_devices ps

  unfoldable pub clean_device_info_files_if_needed : Manager → PreparedDevices → Action W (Unit {0})
  clean_device_info_files_if_needed s ps =
      if not (is_multus_mode s) then pure tt else clean_device_info_files_for_prepared_devices ps
