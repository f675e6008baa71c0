-- ===== src/Nri/Hooks/Tests.antt =====
-- A pod with one prepared device, whose network is attached.
use k8snetworkplumbingwg_dra.Common.{
  Option, none, some, false, ℕ, suc, List, [], ◌∷◌, lookup, ◌==◌, eq_string, ok, err, plain, ◌≡◌,
  refl,
}
use k8snetworkplumbingwg_dra.Types.Samples.{sample_devices}
use k8snetworkplumbingwg_dra.PodManager.Store.{
  CheckpointManager, get_devices_by_pod_uid, append_all,
}
use k8snetworkplumbingwg_dra.Nri.Sandbox.{PodSandbox, get_network_namespace, find_network}
use k8snetworkplumbingwg_dra.Nri.Plugin.{Plugin, Clients, run_pod_sandbox}
use k8snetworkplumbingwg_dra.Nri.Updates.{NetworkData}
use k8snetworkplumbingwg_dra.Nri.Hooks.{Queued, run_pod_sandbox-Queued}

-- The state of the clients counts the attachments.
abbrev clients : Clients ℕ
clients = record {
  attach_network = λ pod ns device w. (ok (none, "{}"), suc w);
  detach_network = λ pod ns device w. (ok tt, w);
  metadata_updater = none;
  get_claim = λ namespace name w. (err (plain "not found"), w);
  update_claim_status_with_retry = λ claim w. (ok tt, w);
  parse = λ text. ok text;
  marshal = λ p config result. some "{}";
}

abbrev checkpoints : CheckpointManager ℕ
checkpoints = record {
  list_checkpoints = λ disk. ok [];
  get_checkpoint = λ name disk. ok [];
  create_checkpoint = λ name claims disk. (ok tt, suc disk);
}

abbrev pod : PodSandbox
pod = record {
  id = "sandbox1";
  uid = "pod1";
  name = "pod";
  namespace = "default";
  namespaces = record { kind = "network"; path = "/run/netns/a" } ∷ [];
}

abbrev plugin : List (List (Option NetworkData)) → Plugin ℕ ℕ
plugin queue = record {
  world = 0;
  pods = record {
    prepared_claims_by_pod_uid = ("pod1", ("claim1", sample_devices) ∷ []) ∷ [];
    disk = 0;
  };
  queue = queue;
}

stored : get_devices_by_pod_uid "pod1" (plugin []).pods ≡ some sample_devices
unfolding get_devices_by_pod_uid append_all lookup
stored = refl

has_namespace : (get_network_namespace pod == "") ≡ false
unfolding get_network_namespace find_network
has_namespace = refl

run_pod_sandbox-Queued_example :
    ((run_pod_sandbox checkpoints clients false pod (plugin [])).1.pods ≡ (plugin []).pods)
    × Queued checkpoints clients false sample_devices
        (plugin [])
        (run_pod_sandbox checkpoints clients false pod (plugin [])).0
        (run_pod_sandbox checkpoints clients false pod (plugin [])).1
run_pod_sandbox-Queued_example =
    run_pod_sandbox-Queued checkpoints clients false pod sample_devices (plugin []) stored
      has_namespace
