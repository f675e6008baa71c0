-- ===== src/Nri/Stored/Tests.antt =====
-- Two updates for one stored device, with a checkpoint that fails.
use k8snetworkplumbingwg_dra.Common.{
  String, none, some, false, ℕ, suc, List, [], ◌∷◌, ok, err, plain, ◌≡◌, refl,
}
use k8snetworkplumbingwg_dra.Kube.{NetworkDeviceData, ResourceClaim}
use k8snetworkplumbingwg_dra.Types.Samples.{sample_device, sample_devices}
use k8snetworkplumbingwg_dra.PodManager.Store.{CheckpointManager}
use k8snetworkplumbingwg_dra.Nri.Updates.{NetworkData, Key}
use k8snetworkplumbingwg_dra.Nri.Plugin.{Plugin, Clients, on_claim}
use k8snetworkplumbingwg_dra.Nri.Stored.{
  map_pods, map_claims, map_devices, last_data, refreshed, on_claim-stores,
}

abbrev clients : Clients ℕ
clients = record {
  attach_network = λ pod ns device w. (ok (none, "{}"), w);
  detach_network = λ pod ns device w. (ok tt, w);
  metadata_updater = none;
  get_claim = λ namespace name w. (err (plain "not found"), w);
  update_claim_status_with_retry = λ claim w. (ok tt, suc w);
  parse = λ text. ok text;
  marshal = λ p config result. some "{}";
}

abbrev checkpoints : CheckpointManager ℕ
checkpoints = record {
  list_checkpoints = λ disk. ok [];
  get_checkpoint = λ name disk. ok [];
  create_checkpoint = λ name claims disk. (err (plain "no space left on device"), disk);
}

abbrev network_data : String → NetworkDeviceData
network_data name = record { interface_name = name; ips = []; hardware_address = "" }

abbrev item : String → NetworkData
item name = record {
  prepared_device = some sample_device;
  network_device_data = some (network_data name);
  cni_config = "{}";
  cni_result = "{}";
}

abbrev items : List NetworkData
items = item "net0" ∷ item "net1" ∷ []

abbrev key : Key
key = record { first = "default"; second = "claim"; third = "claim1" }

abbrev claim : ResourceClaim
claim = record {
  name = "claim";
  namespace = "default";
  uid = "claim1";
  reserved_for = [];
  allocation = none;
  devices = [];
}

abbrev plugin : Plugin ℕ ℕ
plugin = record {
  world = 0;
  pods = record {
    prepared_claims_by_pod_uid = ("pod1", ("claim1", sample_devices) ∷ []) ∷ [];
    disk = 0;
  };
  queue = [];
}

on_claim-stores_example :
    (on_claim checkpoints clients false key items (ok claim) plugin).pods.prepared_claims_by_pod_uid
    ≡ map_pods (refreshed items) plugin.pods.prepared_claims_by_pod_uid
on_claim-stores_example = on_claim-stores checkpoints clients false key items claim plugin refl

last_wins :
    map_pods (refreshed items) plugin.pods.prepared_claims_by_pod_uid
    ≡ (
      "pod1",
      (
        "claim1",
        some (record sample_device { network_device_data = some (network_data "net1") }) ∷ [],
      )
          ∷ [],
    )
      ∷ []
unfolding map_pods map_claims map_devices last_data
last_wins = refl
