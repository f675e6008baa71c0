-- ===== src/Nri/Tests.antt =====
-- Items of one pod, and a status with entries of two drivers.
use k8snetworkplumbingwg_dra.Common.{String, Option, none, some, [], ◌∷◌, ◌≡◌}
use k8snetworkplumbingwg_dra.Kube.{AllocatedDeviceStatus}
use k8snetworkplumbingwg_dra.Api.Opaque.{driver_name}
use k8snetworkplumbingwg_dra.Types.Samples.{sample_device}
use k8snetworkplumbingwg_dra.Types.Prepared.{PreparedDevice}
use k8snetworkplumbingwg_dra.Nri.Updates.{
  NetworkData, eq_key, device_key, refresh, build_claim_status_device_index,
  update_claim_device_status,
}
use k8snetworkplumbingwg_dra.Nri.Status.{change_matching, update_claim_device_status-matching}

abbrev item : NetworkData
item = record {
  prepared_device = some sample_device;
  network_device_data =
      some (record { interface_name = "net0"; ips = "10.0.0.2/24" ∷ []; hardware_address = "" });
  cni_config = "{}";
  cni_result = "{}";
}

abbrev status : String → AllocatedDeviceStatus
status driver = record {
  driver = driver;
  pool = "node1";
  device = "0000-01-00-1";
  share_id = none;
  raw_data = none;
  network_data = none;
}

abbrev marshal : PreparedDevice → String → String → Option String
marshal p config result = some "{}"

update_claim_device_status-matching_example :
    (update_claim_device_status marshal
      (build_claim_status_device_index (status "gpu" ∷ status driver_name ∷ []))
      sample_device
      item
      (status "gpu" ∷ status driver_name ∷ [])).1
    ≡ change_matching
        (device_key sample_device)
        (refresh item.network_device_data (some "{}"))
        (status "gpu" ∷ status driver_name ∷ [])
update_claim_device_status-matching_example =
    update_claim_device_status-matching marshal sample_device item
      (status "gpu" ∷ status driver_name ∷ [])
