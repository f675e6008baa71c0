-- ===== src/Nri/Lifecycle.antt =====
-- pkg/nri/nri.go: NewNRIPlugin, Start and Stop. The NRI stub is an argument.
use k8snetworkplumbingwg_dra.Common.{wrap, Action, ok, map_err, ◌>>◌}

-- `create` is stub.New; `run` starts the goroutine of updateNetworkDeviceDataRunner, and `close` closes its
-- channel.
pub record Stub (W : Type 0) : Type 0 where
  pub create : Action W (Unit {0})
  pub start : Action W (Unit {0})
  pub stop : W → W
  pub run : W → W
  pub close : W → W

module _ {W : Type 0} (stub : Stub W) where
  unfoldable pub new_nri_plugin : Action W (Unit {0})
  new_nri_plugin = map_err (wrap "failed to create plugin stub: %w") stub.create

  unfoldable pub start_plugin : Action W (Unit {0})
  start_plugin =
      map_err (wrap "failed to start NRI plugin: %w") stub.start >> (λ w. (ok tt, stub.run w))

  unfoldable pub stop_plugin : W → W
  stop_plugin w = stub.close (stub.stop w)
