-- ===== src/Main/Tests.antt =====
-- A run on a host without trouble, whose state is whether the kubelet plugin runs.
use k8snetworkplumbingwg_dra.Common.{
  none, some, Bool, true, false, [], ◌∷◌, ok, err, plain, eq_string, ◌≡◌, refl,
}
use k8snetworkplumbingwg_dra.Types.Config.{Flags}
use k8snetworkplumbingwg_dra.Common.Yields.{Yields}
use k8snetworkplumbingwg_dra.Host.Sysfs.{Sysfs, Providers, is_ok}
use k8snetworkplumbingwg_dra.DeviceState.Construct.Sample.{disk, computes}
use k8snetworkplumbingwg_dra.DeviceState.Advertise.{get_advertised_devices, advertise}
use k8snetworkplumbingwg_dra.PodManager.Store.{CheckpointManager, new_pod_manager}
use k8snetworkplumbingwg_dra.Driver.Health.{Paths, Grpc, start_healthcheck}
use k8snetworkplumbingwg_dra.Driver.Publish.{Helper, publish_resources, values}
use k8snetworkplumbingwg_dra.Driver.Start.{
  KubeletPlugin, start, shutdown, build_plugin_options, wait_for_registration,
}
use k8snetworkplumbingwg_dra.Cdi.{new_handler}
use k8snetworkplumbingwg_dra.Nri.Lifecycle.{new_nri_plugin, start_plugin, stop_plugin}
use k8snetworkplumbingwg_dra.Main.{Platform, default_flags, start_nri, run_plugin}
use k8snetworkplumbingwg_dra.Main.Modes.{run_plugin-stops, run_plugin-refuses}

abbrev platform : Platform Bool (Unit {0}) (Unit {0}) (Unit {0}) (Unit {0})
platform = record {
  mkdir_all = λ path w. (ok tt, w);
  is_dir = λ path w. ok none;
  new_cache = λ root w. (ok tt, w);
  new_device_info_store = tt;
  new_checkpoint_manager = λ path d. (ok tt, d);
  rest_config = ok tt;
  new_controller_manager = λ config namespace w. (ok tt, w);
  setup_with_manager = λ w. (ok tt, w);
  start_manager = λ w. w;
  wait_for_cache_sync = λ w. (true, w);
  stub = record {
    create = λ w. (ok tt, w);
    start = λ w. (ok tt, w);
    stop = λ w. w;
    run = λ w. w;
    close = λ w. w;
  };
  serve = λ s callback pods p. p;
}

abbrev sys : Sysfs Bool
sys = record {
  lstat = λ file w. err (plain "no such file");
  stat = λ file w. err (plain "no such file");
  readlink = λ file w. err (plain "no such file");
  eval_symlinks = λ file w. err (plain "no such file");
  read_file = λ file w. ok none;
  read_dir = λ file w. ok none;
}

abbrev providers : Providers Bool
providers = record {
  pci = λ w. ok (disk ∷ []);
  get_uplink_representor = λ address w. err (plain "no devlink");
  is_representor_not_found = λ e. false;
  get_dev_link_device_eswitch_mode = λ address w. err (plain "not supported");
  pcie_root = λ address w. ok none;
  get_rdma_devices_for_pcidev = λ address w. [];
  get_rdma_char_devices = λ name w. [];
}

abbrev paths : Paths
paths = record {
  plugin_file = λ flags name. name;
  plugin_path = λ flags. "/plugin";
  registrar_file = λ flags name. name;
  address = λ port. ":0";
}

abbrev grpc : Grpc Bool
grpc = record {
  listen = λ address w. (ok tt, w);
  connect = λ path w. (ok tt, w);
  serve = λ w. w;
  graceful_stop = λ w. w;
  get_info = λ w. (ok tt, w);
  node_prepare_resources = λ w. (ok tt, w);
}

abbrev plugin : KubeletPlugin Bool
plugin = record {
  start = λ options w. (ok tt, true);
  stop = λ w. false;
  registration = λ w. some (record { plugin_registered = true; error = "" }) ∷ [];
  remove = λ path w. (ok tt, w);
}

abbrev helper : Helper Bool
helper = record {
  publish_resources = λ resources w. (ok tt, w);
  update_request_metadata = λ namespace name uid request devices w. (ok tt, w);
}

abbrev checkpoints : CheckpointManager (Unit {0})
checkpoints = record {
  list_checkpoints = λ d. ok [];
  get_checkpoint = λ name d. ok [];
  create_checkpoint = λ name claims d. (ok tt, d);
}

abbrev flags : Flags
flags = default_flags "/registry" "/plugins"

-- The run reaches its end.
run :
    run_plugin platform sys providers paths grpc plugin helper checkpoints flags (false, tt)
    ≡ (ok tt, (false, tt))
unfolding run_plugin new_handler new_nri_plugin start_plugin stop_plugin computes default_flags
    new_pod_manager start shutdown start_healthcheck publish_resources values get_advertised_devices
    advertise build_plugin_options wait_for_registration start_nri
run = refl

run_plugin-stops_example :
    Yields
      (run_plugin platform sys providers paths grpc plugin helper checkpoints flags)
      (false, tt)
      (λ _ p. p.0 ≡ false)
run_plugin-stops_example =
    run_plugin-stops platform sys providers paths grpc plugin helper checkpoints flags (λ w. w)
      (λ w. refl) (λ path w. refl) false tt

abbrev other_mode : Flags
other_mode = record flags { configuration_mode = "BOTH" }

run_plugin-refuses_example :
    (is_ok
        (run_plugin platform sys providers paths grpc plugin helper checkpoints other_mode
          (false, tt)).0
      ≡ false)
    × ((run_plugin platform sys providers paths grpc plugin helper checkpoints other_mode
          (false, tt)).1.0
        ≡ false)
run_plugin-refuses_example =
    run_plugin-refuses platform sys providers paths grpc plugin helper checkpoints other_mode
      (λ w. w) (λ path w. refl) (λ root w. refl) refl refl refl false tt
