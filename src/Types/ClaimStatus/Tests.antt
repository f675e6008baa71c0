-- ===== src/Types/ClaimStatus/Tests.antt =====
-- Runs of the merge on small lists, and the instances of its theorems.
use k8snetworkplumbingwg_dra.Common.{String, none, some, List, [], ◌∷◌, ◌≡◌, refl}
use k8snetworkplumbingwg_dra.Kube.{AllocatedDeviceStatus}
use k8snetworkplumbingwg_dra.Types.ClaimStatus.Merge.{find_status, find-merge_device_statuses}
use k8snetworkplumbingwg_dra.Types.ClaimStatus.Key.{
  DeviceStatusKey, key_of, key_eq, upsert_device_status, foreign, upsert_own, merge_device_statuses,
}
use k8snetworkplumbingwg_dra.Types.ClaimStatus.Unique.{UniqueKeys, merge_device_statuses-UniqueKeys}

abbrev status : String → String → String → AllocatedDeviceStatus
status driver device text = record {
  driver = driver;
  pool = "node";
  device = device;
  share_id = none;
  raw_data = some text;
  network_data = none;
}

abbrev latest : List AllocatedDeviceStatus
latest = status "sriov" "vf0" "old" ∷ status "gpu" "g0" "theirs" ∷ []

abbrev desired : List AllocatedDeviceStatus
desired = status "sriov" "vf0" "a" ∷ status "gpu" "g0" "stale" ∷ status "sriov" "vf0" "b" ∷ []

merge_run :
    merge_device_statuses latest desired "sriov"
    ≡ status "gpu" "g0" "theirs" ∷ status "sriov" "vf0" "b" ∷ []
unfolding merge_device_statuses upsert_own foreign upsert_device_status key_of key_eq
merge_run = refl

merge_device_statuses-UniqueKeys_example : UniqueKeys (merge_device_statuses latest desired "sriov")
unfolding key_of key_eq
merge_device_statuses-UniqueKeys_example =
    merge_device_statuses-UniqueKeys latest desired "sriov" ((refl, tt), (tt, tt))

abbrev gpu_key : DeviceStatusKey
gpu_key = record { driver = "gpu"; pool = "node"; device = "g0"; share_id = "" }

find-merge_device_statuses_example :
    find_status gpu_key (merge_device_statuses latest desired "sriov") ≡ find_status gpu_key latest
find-merge_device_statuses_example = find-merge_device_statuses gpu_key latest desired "sriov"
