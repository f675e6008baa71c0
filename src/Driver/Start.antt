-- ===== src/Driver/Start.antt =====
-- pkg/driver/driver.go: Start, waitForRegistration and Shutdown. The kubelet plugin library is an
-- argument; the ticks of the timer are a list, which ends when the timeout fires.
pub mod Registered
pub mod Stopped
mod Tests
use k8snetworkplumbingwg_dra.Common.{
  String, ℕ, zero, suc, Option, none, some, Bool, true, false, not, List, [], ◌∷◌, ◌++◌,
  if◌then◌else◌, ◌==◌, eq_string, Result, ok, err, panic, Error, plain, wrap, Action, ◌>>=◌, ◌>>◌,
  pure, map_err, throw,
}
use k8snetworkplumbingwg_dra.Types.Config.{Flags}
use k8snetworkplumbingwg_dra.Api.Opaque.{driver_name}
use k8snetworkplumbingwg_dra.DeviceState.State.{Manager}
use k8snetworkplumbingwg_dra.Driver.Health.{Paths, Grpc, Healthcheck, start_healthcheck, stop}
use k8snetworkplumbingwg_dra.Driver.Publish.{Helper, publish_resources}

-- kubeletplugin.Option; the client's and the metadata version's values are left out.
pub data PluginOption : Type 0 where
  kube_client metadata_versions : PluginOption
  node_name driver_name_option : String → PluginOption
  registrar_directory_path plugin_data_directory_path cdi_directory : String → PluginOption
  enable_device_metadata : Bool → PluginOption

unfoldable pub build_plugin_options : Paths → Flags → List PluginOption
build_plugin_options paths flags =
    let options =
      kube_client
      ∷ node_name flags.node_name
      ∷ driver_name_option driver_name
      ∷ registrar_directory_path flags.kubelet_registrar_directory_path
      ∷ plugin_data_directory_path (paths.plugin_path flags)
      ∷ [] in
    if flags.enable_device_metadata
    then options
      ++ enable_device_metadata true ∷ cdi_directory flags.cdi_root ∷ metadata_versions ∷ []
    else options

-- registerapi.RegistrationStatus
pub record RegistrationStatus : Type 0 where
  pub plugin_registered : Bool
  pub error : String

abbrev pub decide : RegistrationStatus → Result (Unit {0}) → Result (Unit {0})
decide status later =
    if status.plugin_registered
    then ok tt
    else if not (status.error == "")
    then err (plain "plugin registration failed: %s")
    else later

-- What the select of a round takes: the timeout, or a tick with the status at that time.
pub data Ready : Type 0 where
  timed_out : Ready
  ticked : Option RegistrationStatus → Ready

-- What follows a round: the end of the loop, or the next round.
abbrev pub after_round : Ready → Option (Result (Unit {0})) → Option (Result (Unit {0}))
after_round timed_out later = some (err (plain "timeout waiting for plugin registration"))
after_round (ticked none) later = later
after_round (ticked (some status)) later =
    if status.plugin_registered
    then some (ok tt)
    else if not (status.error == "")
    then some (err (plain "plugin registration failed: %s"))
    else later

-- The loop, as long as `rounds` last; `ready` is what each round takes.
unfoldable pub wait_rounds : ℕ → (ℕ → Ready) → Option (Result (Unit {0}))
wait_rounds zero ready = none
wait_rounds (suc rounds) ready =
    let later = wait_rounds rounds (λ n. ready (suc n)) in after_round (ready 0) later

-- The same for the statuses at the ticks before the timeout.
unfoldable pub wait_for_registration : List (Option RegistrationStatus) → Result (Unit {0})
wait_for_registration [] = err (plain "timeout waiting for plugin registration")
wait_for_registration (none ∷ ticks) = wait_for_registration ticks
wait_for_registration (some status ∷ ticks) =
    let later = wait_for_registration ticks in decide status later

-- kubeletplugin.Start, and Stop of its helper; `registration` is what the helper reports at the ticks
-- from now on; `remove` is os.Remove, for which a missing file is no error here.
pub record KubeletPlugin (W : Type 0) : Type 0 where
  pub start : List PluginOption → Action W (Unit {0})
  pub stop : W → W
  pub registration : W → List (Option RegistrationStatus)
  pub remove : String → Action W (Unit {0})

-- What Start adds to its arguments.
pub record Started : Type 0 where
  pub healthcheck : Option Healthcheck

module _ {W : Type 0} (paths : Paths) (grpc : Grpc W) (plugin : KubeletPlugin W) (helper : Helper W)
    (flags : Flags) where
  abbrev pub await : Action W (Unit {0})
  await w = (wait_for_registration (plugin.registration w), w)

  unfoldable pub start : Manager → Action W Started
  start s =
      plugin.start (build_plugin_options paths flags)
      >> (await
          >> (map_err (wrap "start healthcheck: %w") (start_healthcheck paths grpc flags)
              >>= λ healthcheck.
                  map_err (wrap "failed to publish resources: %w")
                    (publish_resources helper flags.node_name s)
                  >> pure (record { healthcheck = healthcheck })))

  abbrev pub stop_health : Option Healthcheck → W → W
  stop_health none w = w
  stop_health (some h) w = stop grpc h w

  abbrev pub remove_sockets : Action W (Unit {0})
  remove_sockets =
      map_err (wrap "error removing socket file: %w")
        (plugin.remove (paths.registrar_file flags "sriovnetwork.k8snetworkplumbingwg.io-reg.sock"))
      >> map_err (wrap "error removing socket file: %w")
          (plugin.remove (paths.plugin_file flags "dra.sock"))

  unfoldable pub shutdown : Started → Action W (Unit {0})
  shutdown d w = remove_sockets (plugin.stop (stop_health d.healthcheck w))

-- HandleError of pkg/driver/dra_hook.go: `recoverable` is errors.Is with ErrRecoverable, `cancel` the
-- driver's function that cancels the main context, if it has one.
unfoldable pub handle_error : {W : Type 0} → (Error → Bool) → Option (Error → W → W) → Error → W → W
handle_error recoverable none e w = w
handle_error recoverable (some cancel) e w =
    if not (recoverable e) then cancel (wrap "fatal background error: %w" e) w else w
