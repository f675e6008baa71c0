-- ===== src/Cni/Tests.antt =====
-- A library that records requests, and a plugin whose file stays busy.
use k8snetworkplumbingwg_dra.Common.{
  ℕ, suc, ◌≤◌, String, some, true, List, [], ◌∷◌, ok, plain, inl, ◌≡◌, refl, ◌+◌,
}
use k8snetworkplumbingwg_dra.Types.Samples.{sample_device}
use k8snetworkplumbingwg_dra.Nri.Sandbox.{PodSandbox}
use k8snetworkplumbingwg_dra.Cni.Result.{
  CniResult, CniInterface, pointers, cni_result_to_network_data, last_in_sandbox,
  cni_result_to_network_data-value,
}
use k8snetworkplumbingwg_dra.Cni.Runtime.{
  Libcni, RuntimeConf, attach_network, detach_network, detach_network-attach_network,
}
use k8snetworkplumbingwg_dra.Cni.Exec.{
  Command, exec_plugin, run_loop, exec_plugin-runs, exec_plugin-busy,
}

abbrev Requests : Type 0
Requests = List (String × RuntimeConf)

abbrev result : CniResult
result = record { ips = some "10.0.0.2/24" ∷ []; interfaces = [] }

abbrev library : Libcni Requests String CniResult
library = record {
  get_cni_config_from_spec = λ spec. ok spec;
  network_plugin_conf_from_bytes = λ raw. ok raw;
  add_network = λ conf rt w. (ok (some result), (conf, rt) ∷ w);
  del_network = λ conf rt w. (ok tt, (conf, rt) ∷ w);
  convert = λ r. ok r;
  marshal = λ r. ok "{}";
  unmarshal = λ raw. ok raw;
}

abbrev pod : PodSandbox
pod = record { id = "sandbox1"; uid = "pod1"; name = "pod"; namespace = "default"; namespaces = [] }

detach_network-attach_network_example :
    (attach_network library pod "/run/netns/a" (some sample_device) []).1
    ≡ (detach_network library pod "/run/netns/a" (some sample_device) []).1
detach_network-attach_network_example =
    detach_network-attach_network library (λ conf rt w. refl) (λ conf rt w. refl) pod "/run/netns/a"
      (some sample_device) []

-- The state counts the runs.
abbrev busy_command : Command ℕ
busy_command = record {
  run = λ w. (some (plain "text file busy"), suc w);
  is_busy = λ e. true;
  sleep = λ w. w;
  stdout = λ w. "";
  stderr = λ w. "";
  parse_error = λ text. inl (plain text);
  copy_stderr = λ w. w;
}

exec_plugin-runs_example : (exec_plugin busy_command 0).1 ≤ 0 + 11
exec_plugin-runs_example =
    exec_plugin-runs busy_command (λ w. w) (λ w. refl) (λ w. refl) (λ w. refl) 0

exec_plugin-busy_example : (exec_plugin busy_command 0).0 ≡ ok ""
exec_plugin-busy_example = exec_plugin-busy busy_command (λ w. refl) 0

eleven_runs : (exec_plugin busy_command 0).1 ≡ 11
unfolding exec_plugin run_loop
eleven_runs = refl

abbrev on_host : CniInterface
on_host = record { name = "ens1f0"; mac = "aa"; sandbox = "" }

abbrev in_pod : CniInterface
in_pod = record { name = "net0"; mac = "bb"; sandbox = "/run/netns/a" }

value_run :
    cni_result_to_network_data (
      ok (record {
        ips = pointers ("10.0.0.2/24" ∷ []);
        interfaces = pointers (in_pod ∷ on_host ∷ []);
      }))
    ≡ ok (record { interface_name = "net0"; ips = "10.0.0.2/24" ∷ []; hardware_address = "bb" })
unfolding last_in_sandbox
value_run = cni_result_to_network_data-value ("10.0.0.2/24" ∷ []) (in_pod ∷ on_host ∷ [])
