-- ===== src/Nri/Runner/Tests.antt =====
-- A batch with an update of a claim that was recreated and one of a claim that was not.
use k8snetworkplumbingwg_dra.Common.{
  String, Option, none, some, true, false, ℕ, zero, suc, List, [], ◌∷◌, lookup, insert,
  if◌then◌else◌, ◌==◌, eq_nat, eq_string, ok, ◌≡◌, refl,
}
use k8snetworkplumbingwg_dra.Kube.{NetworkDeviceData}
use k8snetworkplumbingwg_dra.Types.Prepared.{
  PreparedDevice, PreparedClaimsByPodUid, set_network_device_data,
}
use k8snetworkplumbingwg_dra.Types.Samples.{sample_device}
use k8snetworkplumbingwg_dra.PodManager.Store.{
  CheckpointManager, update_prepared_device_network_data, sync_to_checkpoint, write_pods,
  write_claims, write_devices,
}
use k8snetworkplumbingwg_dra.Nri.Updates.{
  NetworkData, Key, claim_key, key_eq, group_network_data_by_claim, group_into,
  build_claim_status_device_index, index_from, update_claim_device_status,
}
use k8snetworkplumbingwg_dra.Nri.Plugin.{
  Clients, update_network_device_data, update_claims, apply_items,
}
use k8snetworkplumbingwg_dra.Nri.Runner.{
  Runner, Turn, sent, received, cancelled, stopped, turn, run_turns,
}
use k8snetworkplumbingwg_dra.Nri.Runner.Order.{Batch, sent_in, receives}

-- The API server has claims "claim" and "old", the second one recreated.
abbrev uid_at : String → String → String
uid_at namespace name = if name == "claim" then "claim1" else "other"

abbrev clients : Clients ℕ
clients = record {
  attach_network = λ pod ns device w. (ok (none, "{}"), w);
  detach_network = λ pod ns device w. (ok tt, w);
  metadata_updater = none;
  get_claim = λ namespace name w. (
    ok (record {
      name = name;
      namespace = namespace;
      uid = uid_at namespace name;
      reserved_for = [];
      allocation = none;
      devices = [];
    }),
    suc w,
  );
  update_claim_status_with_retry = λ claim w. (ok tt, w);
  parse = λ text. ok text;
  marshal = λ p config result. some "{}";
}

abbrev checkpoints : CheckpointManager ℕ
checkpoints = record {
  list_checkpoints = λ disk. ok [];
  get_checkpoint = λ name disk. ok [];
  create_checkpoint = λ name claims disk. (ok tt, suc disk);
}

abbrev old_device : PreparedDevice
old_device = record sample_device {
  address = 1;
  claim_namespaced_name = record { name = "old"; namespace = "default"; uid = "claim2" };
}

abbrev owner : ℕ → Key
owner zero = claim_key sample_device.claim_namespaced_name
owner (suc a) = claim_key old_device.claim_namespaced_name

abbrev network : String → NetworkDeviceData
network name = record { interface_name = name; ips = []; hardware_address = "" }

abbrev item : PreparedDevice → String → NetworkData
item device name = record {
  prepared_device = some device;
  network_device_data = some (network name);
  cni_config = "{}";
  cni_result = "{}";
}

abbrev batch : Batch
batch = some (item sample_device "net0") ∷ none ∷ some (item old_device "net1") ∷ []

abbrev later_batch : Batch
later_batch = some (item sample_device "net2") ∷ []

abbrev store : PreparedDevice → PreparedClaimsByPodUid
store device = ("pod1", ("claim1", some device ∷ some old_device ∷ []) ∷ []) ∷ []

abbrev start : Runner ℕ ℕ
start = record {
  plugin = record {
    world = 0;
    pods = record { prepared_claims_by_pod_uid = store sample_device; disk = 0 };
    queue = [];
  };
  closed = false;
  done = false;
  running = true;
}

abbrev turns : List Turn
turns = sent batch ∷ received ∷ sent later_batch ∷ stopped ∷ cancelled ∷ []

abbrev or_start : Option (Runner ℕ ℕ) → Runner ℕ ℕ
or_start none = start
or_start (some s) = s

abbrev reached : Runner ℕ ℕ
reached = or_start (run_turns checkpoints clients false turns start)

program : Unit {0}
unfolding turn run_turns update_network_device_data update_claims apply_items
    group_network_data_by_claim group_into build_claim_status_device_index index_from
    update_claim_device_status update_prepared_device_network_data sync_to_checkpoint write_pods
    write_claims write_devices set_network_device_data lookup insert key_eq sent_in receives
program = tt

-- The update of the recreated claim is dropped.
first_batch :
    reached.plugin.pods.prepared_claims_by_pod_uid
    ≡ store (record sample_device { network_device_data = some (network "net0") })
unfolding program
first_batch = refl
