-- ===== src/Driver/Health.antt =====
-- pkg/driver/health.go: the health service. The registration and DRA services of the kubelet plugin
-- and the gRPC library are arguments.
use k8snetworkplumbingwg_dra.Common.{
  String, Option, none, some, Bool, true, false, [], ◌∷◌, contains, if◌then◌else◌, Result, ok, err,
  panic, plain, wrap, Action, ◌>>◌, pure, map_err, throw,
}
use k8snetworkplumbingwg_dra.Kube.{ℤ, pos, negsuc}
use k8snetworkplumbingwg_dra.Types.Config.{Flags}

-- `plugin_file` is path.Join(config.DriverPluginPath(), name), `registrar_file` is path.Join of the
-- registrar directory and a name, `address` is net.JoinHostPort of no host and a port.
pub record Paths : Type 0 where
  pub plugin_file : Flags → String → String
  pub plugin_path : Flags → String
  pub registrar_file : Flags → String → String
  pub address : ℤ → String

-- `connect` is grpc.NewClient of a socket's path; `serve` starts the goroutine that serves, and
-- `graceful_stop` ends it and waits for it.
pub record Grpc (W : Type 0) : Type 0 where
  pub listen : String → Action W (Unit {0})
  pub connect : String → Action W (Unit {0})
  pub serve : W → W
  pub graceful_stop : W → W
  pub get_info : Action W (Unit {0})
  pub node_prepare_resources : Action W (Unit {0})

-- The service, when it was started.
pub data Healthcheck : Type 0 where
  serving : Healthcheck

module _ {W : Type 0} (paths : Paths) (grpc : Grpc W) where
  abbrev start_serving : Action W (Option Healthcheck)
  start_serving w = (ok (some serving), grpc.serve w)

  abbrev listen_on : Flags → ℤ → Action W (Option Healthcheck)
  listen_on flags port =
      map_err (wrap "failed to listen for healthcheck service at %s: %w")
        (grpc.listen (paths.address port))
      >> (map_err (wrap "connect to registration socket: %w") (
            grpc.connect
              (paths.registrar_file flags "sriovnetwork.k8snetworkplumbingwg.io-reg.sock"))
          >> (map_err (wrap "connect to DRA socket: %w")
                (grpc.connect (paths.plugin_file flags "dra.sock"))
              >> start_serving))

  -- A negative port turns the service off.
  abbrev on_port : Flags → ℤ → Action W (Option Healthcheck)
  on_port flags (negsuc n) = pure none
  on_port flags (pos n) = listen_on flags (pos n)

  unfoldable pub start_healthcheck : Flags → Action W (Option Healthcheck)
  start_healthcheck flags = on_port flags flags.healthcheck_port

module _ {W : Type 0} (grpc : Grpc W) where
  unfoldable pub stop : Healthcheck → W → W
  stop serving w = grpc.graceful_stop w

  abbrev pub is_serving : Result (Unit {0}) → Bool
  is_serving (ok _) = true
  is_serving (err e) = false
  is_serving panic = false

  abbrev then_prepare : Result (Unit {0}) → W → Result Bool × W
  then_prepare (ok _) w = let (r, w') = grpc.node_prepare_resources w in (ok (is_serving r), w')
  then_prepare (err e) w = (ok false, w)
  then_prepare panic w = (panic, w)

  abbrev probe : Action W Bool
  probe w = let (r, w') = grpc.get_info w in then_prepare r w'

  -- Whether the answer is SERVING.
  unfoldable pub check : String → Action W Bool
  check service =
      if contains ("" ∷ "liveness" ∷ []) service then probe else throw (plain "unknown service")
