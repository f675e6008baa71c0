-- ===== src/Main.antt =====
-- cmd/dra-driver-sriov/main.go: RunPlugin and the defaults of the flags. The state is the host's with
-- the kubelet's checkpoints. The loggers and the signals are left out.
pub mod Modes
mod Tests
use k8snetworkplumbingwg_dra.Common.{
  String, Option, none, some, Bool, true, false, not, List, [], ◌∷◌, if◌then◌else◌, ◌==◌, eq_string,
  Result, ok, err, panic, Error, plain, wrap, quote, Action, ◌>>=◌, ◌>>◌, pure, throw, crash,
  map_err,
}
use k8snetworkplumbingwg_dra.Kube.{negsuc}
use k8snetworkplumbingwg_dra.Client.{KubeClientConfig, ClientLibrary, new_client_sets}
use k8snetworkplumbingwg_dra.Types.Config.{Flags, Config}
use k8snetworkplumbingwg_dra.Host.Sysfs.{Sysfs, Providers}
use k8snetworkplumbingwg_dra.Cdi.{new_handler}
use k8snetworkplumbingwg_dra.Nri.Lifecycle.{Stub, new_nri_plugin, start_plugin, stop_plugin}
use k8snetworkplumbingwg_dra.DeviceState.State.{Manager}
use k8snetworkplumbingwg_dra.DeviceState.Advertise.{Republish}
use k8snetworkplumbingwg_dra.DeviceState.Construct.{new_manager}
use k8snetworkplumbingwg_dra.PodManager.Store.{CheckpointManager, PodManager, new_pod_manager}
use k8snetworkplumbingwg_dra.Driver.Health.{Paths, Grpc}
use k8snetworkplumbingwg_dra.Driver.Publish.{Helper}
use k8snetworkplumbingwg_dra.Driver.Publish.Current.{publisher}
use k8snetworkplumbingwg_dra.Driver.Start.{KubeletPlugin, Started, start, shutdown}
use k8snetworkplumbingwg_dra.Driver.Stack.{discovery_host}

-- The defaults; the kubelet's two directories are constants of its library.
unfoldable pub default_flags : String → String → Flags
default_flags registry_dir plugins_dir = record {
  node_name = "";
  cdi_root = "/var/run/cdi";
  kubelet_registrar_directory_path = registry_dir;
  kubelet_plugins_directory_path = plugins_dir;
  healthcheck_port = negsuc 0;
  metrics_bind_address = "0";
  default_interface_prefix = "vfnet";
  enable_device_metadata = false;
  namespace = "dra-driver-sriov";
  configuration_mode = "STANDALONE";
}

-- What is checked before the action: there are no arguments, and the logging's options apply.
unfoldable pub before : List String → Result (Unit {0}) → Result (Unit {0})
before [] apply = apply
before (arg ∷ args) apply = err (plain "arguments not supported: %v")

-- What RunPlugin calls of libraries: `C` is a CDI cache, `S` a device-info store and `R` a
-- configuration of clients. `is_dir` is os.Stat, with `none` for a path that does not exist;
-- `rest_config` is what NewClientSetConfig returns for the flags; the three calls for the controller
-- manager create it, register the controller and start its goroutine; `serve` is the time until the
-- context is done, in which the hooks and the controller run and the manager calls back to publish.
pub record Platform (W D C S R : Type 0) : Type 0 where
  pub mkdir_all : String → Action W (Unit {0})
  pub is_dir : String → W → Result (Option Bool)
  pub new_cache : String → Action W C
  pub new_device_info_store : S
  pub new_checkpoint_manager : String → Action D (Unit {0})
  pub rest_config : Result R
  pub new_controller_manager : R → String → Action W (Unit {0})
  pub setup_with_manager : Action W (Unit {0})
  pub start_manager : W → W
  pub wait_for_cache_sync : W → Bool × W
  pub stub : Stub W
  pub serve : Manager → Republish W → PodManager D → W × D → W × D

abbrev pub on_world : {W D A : Type 0} → Action W A → Action (W × D) A
on_world m (w, d) = let (r, w') = m w in (r, (w', d))

abbrev pub on_disk : {W D A : Type 0} → Action D A → Action (W × D) A
on_disk m (w, d) = let (r, d') = m d in (r, (w, d'))

abbrev pub effect : {W : Type 0} → (W → W) → Action W (Unit {0})
effect f w = (ok tt, f w)

module _ {W D C S R : Type 0} (platform : Platform W D C S R) (sys : Sysfs W)
    (providers : Providers W) (paths : Paths) (grpc : Grpc W) (plugin : KubeletPlugin W)
    (helper : Helper W) (checkpoints : CheckpointManager D) (flags : Flags) where
  abbrev pub checked_dir : Result (Option Bool) → Action W (Unit {0})
  checked_dir (ok none) = platform.mkdir_all flags.cdi_root
  checked_dir (ok (some true)) = pure tt
  checked_dir (ok (some false)) =
      throw (plain "path for cdi file generation is not a directory: %q")
  checked_dir (err e) = throw e
  checked_dir panic = crash

  abbrev pub ensure_cdi_root : Action W (Unit {0})
  ensure_cdi_root w = checked_dir (platform.is_dir flags.cdi_root w) w

  abbrev pub make_manager : C → Action W (Manager × (C × S))
  make_manager cdi w = (
    new_manager (discovery_host sys providers w) platform.new_device_info_store
        (some (record { flags = some flags })) (some cdi) (some platform.new_device_info_store),
    w,
  )

  -- NewPodManager
  abbrev pub make_pod_manager : Action D (PodManager D)
  make_pod_manager =
      map_err (quote "unable to create checkpoint manager: %v")
        (platform.new_checkpoint_manager (paths.plugin_path flags))
      >> new_pod_manager checkpoints

  abbrev pub start_controllers : Action W (Unit {0})
  start_controllers =
      map_err (wrap "failed to create REST config: %w") (λ w. (platform.rest_config, w))
      >>= λ config.
          (map_err (wrap "failed to create controller manager: %w")
              (platform.new_controller_manager config flags.namespace)
            >> (map_err (wrap "failed to setup resource policy controller: %w")
                  platform.setup_with_manager
                >> effect platform.start_manager))

  abbrev pub wait_for_cache : Action W (Unit {0})
  wait_for_cache w =
      let (synced, w') = platform.wait_for_cache_sync w in
      if not synced then (err (plain "cache not synced"), w') else (ok tt, w')

  -- Whether the NRI plugin was started.
  unfoldable pub start_nri : Action W Bool
  start_nri =
      if not (flags.configuration_mode == "MULTUS")
      then map_err (wrap "failed to create NRI plugin: %w") (new_nri_plugin platform.stub)
        >> (map_err (wrap "failed to start NRI plugin: %w") (start_plugin platform.stub)
            >> pure true)
      else pure false

  abbrev pub stop_nri : Bool → Action W (Unit {0})
  stop_nri started w = (ok tt, if started then stop_plugin platform.stub w else w)

  -- An error of the shutdown is logged only.
  abbrev pub shut_down : Started → Action W (Unit {0})
  shut_down dvr w = (ok tt, (shutdown paths grpc plugin helper flags dvr w).1)

  abbrev pub closing : Bool → Started → Action (W × D) (Unit {0})
  closing nri dvr = on_world (stop_nri nri >> shut_down dvr)

  abbrev pub until_done : Manager → PodManager D → Started → Bool → Action (W × D) (Unit {0})
  until_done s pods dvr nri =
      effect (platform.serve s (publisher helper flags.node_name) pods) >> closing nri dvr

  abbrev pub before_serving : Action W Bool
  before_serving = start_controllers >> wait_for_cache >> start_nri

  abbrev pub with_driver : Manager → PodManager D → Started → Action (W × D) (Unit {0})
  with_driver s pods dvr = on_world before_serving >>= until_done s pods dvr

  abbrev pub start_driver : Manager → Action W Started
  start_driver s =
      map_err (wrap "failed to start DRA driver: %w") (start paths grpc plugin helper flags s)

  abbrev pub with_pods : Manager → PodManager D → Action (W × D) (Unit {0})
  with_pods s pods = on_world (start_driver s) >>= with_driver s pods

  abbrev pub with_manager : Manager × (C × S) → Action (W × D) (Unit {0})
  with_manager (s, handles) = on_disk make_pod_manager >>= with_pods s

  abbrev pub make_directories : Action W (Unit {0})
  make_directories = platform.mkdir_all (paths.plugin_path flags) >> ensure_cdi_root

  abbrev pub with_cache : C → Action (W × D) (Unit {0})
  with_cache cdi = on_world (make_manager cdi) >>= with_manager

  abbrev pub make_cache : Action W C
  make_cache =
      make_directories
      >> map_err (quote "unable to create CDI handler: %v")
          (new_handler platform.new_cache flags.cdi_root)

  unfoldable pub run_plugin : Action (W × D) (Unit {0})
  run_plugin = on_world make_cache >>= with_cache

  -- The action of the command; the clients that it makes go into the config.
  unfoldable pub action :
      {Q H K L : Type 0} → ClientLibrary Q H K L → KubeClientConfig Q → Action (W × D) (Unit {0})
  action library k =
      map_err (quote "create client: %v") (λ s. (new_client_sets library k, s)) >>= λ clients.
      run_plugin
