-- ===== src/Driver/Start/Stopped.antt =====
-- What runs after Start and after Shutdown (pkg/driver/driver.go).
use k8snetworkplumbingwg_dra.Common.{
  String, Option, none, some, Bool, true, false, is_some, List, ok, Action, ◌>>=◌, ◌>>◌, map_err,
  wrap, ◌≡◌, refl, ◌∙◌,
}
use k8snetworkplumbingwg_dra.Common.Effects.{Preserves, bind-Preserves, and_then-seen}
use k8snetworkplumbingwg_dra.Kube.{ℤ, pos, negsuc}
use k8snetworkplumbingwg_dra.Types.Config.{Flags}
use k8snetworkplumbingwg_dra.DeviceState.State.{Manager}
use k8snetworkplumbingwg_dra.Driver.Health.{
  Paths, Grpc, Healthcheck, serving, start_healthcheck, stop,
}
use k8snetworkplumbingwg_dra.Driver.Publish.{Helper, publish_resources, DriverResources}
use k8snetworkplumbingwg_dra.Driver.Start.{
  PluginOption, KubeletPlugin, build_plugin_options, Started, start, shutdown, await, stop_health,
  remove_sockets,
}

-- Whether the kubelet plugin runs, and whether the health service does.
pub record IsRunning {W : Type 0} (grpc : Grpc W) (plugin : KubeletPlugin W) (helper : Helper W)
    (running serves : W → Bool) : Type 0 where
  pub starts :
      (options : List PluginOption) (w : W)
      → (plugin.start options w).0 ≡ ok tt
      → running (plugin.start options w).1 ≡ true
  pub listen_keeps : (address : String) → Preserves running (grpc.listen address)
  pub connect_keeps : (path : String) → Preserves running (grpc.connect path)
  pub serve_keeps : (w : W) → running (grpc.serve w) ≡ running w
  pub publish_keeps :
      (resources : DriverResources) → Preserves running (helper.publish_resources resources)
  pub stops : (w : W) → running (plugin.stop w) ≡ false
  pub stop_keeps : (w : W) → serves (plugin.stop w) ≡ serves w
  pub graceful_stops : (w : W) → serves (grpc.graceful_stop w) ≡ false
  pub removes_plugin : (path : String) → Preserves running (plugin.remove path)
  pub removes_health : (path : String) → Preserves serves (plugin.remove path)

module _ {W : Type 0} (paths : Paths) (grpc : Grpc W) (plugin : KubeletPlugin W) (helper : Helper W)
    (flags : Flags) where
  pub remove_sockets-Preserves :
      (seen : W → Bool)
      → ((path : String) → Preserves seen (plugin.remove path))
      → Preserves seen (remove_sockets paths grpc plugin helper flags)
  remove_sockets-Preserves seen removes =
      bind-Preserves seen (map_err _ (plugin.remove _)) _ (removes _) (λ _. removes _)

module _ {W : Type 0} (paths : Paths) (grpc : Grpc W) (plugin : KubeletPlugin W) (helper : Helper W)
    (flags : Flags) (running serves : W → Bool)
    (laws : IsRunning grpc plugin helper running serves) where
  on_port-Preserves :
      (port : ℤ)
      → Preserves running (start_healthcheck paths grpc (record flags { healthcheck_port = port }))
  unfolding start_healthcheck
  on_port-Preserves (negsuc n) w = refl
  on_port-Preserves (pos n) w =
      bind-Preserves running (map_err _ (grpc.listen (paths.address (pos n)))) _
        (laws.listen_keeps (paths.address (pos n)))
        (λ _. bind-Preserves running (map_err _ (grpc.connect _)) _ (laws.connect_keeps _) (λ _.
          bind-Preserves running (map_err _ (grpc.connect _)) _ (laws.connect_keeps _)
            (λ _ v. laws.serve_keeps v)))
        w

  after_plugin : Manager → Unit {0} → Action W Started
  after_plugin s _ =
      await paths grpc plugin helper flags
      >> (map_err (wrap "start healthcheck: %w") (start_healthcheck paths grpc flags)
          >>= λ healthcheck.
              map_err (wrap "failed to publish resources: %w")
                (publish_resources helper flags.node_name s)
              >> (λ w. (ok (record { healthcheck = healthcheck }), w)))

  after_plugin-Preserves : (s : Manager) (u : Unit {0}) → Preserves running (after_plugin s u)
  unfolding after_plugin publish_resources
  after_plugin-Preserves s u =
      bind-Preserves running (await paths grpc plugin helper flags) _ (λ w. refl)
        (λ _.
          bind-Preserves running (map_err _ (start_healthcheck paths grpc flags)) _
            (on_port-Preserves flags.healthcheck_port)
            (λ h.
              bind-Preserves running (map_err _ (publish_resources helper flags.node_name s)) _
                (laws.publish_keeps _) (λ _ w. refl)))

  -- Once the kubelet plugin was started it runs when Start returns, whether Start succeeds or reports
  -- that the registration, the health service or the publication failed.
  pub start-leaves_running :
      (s : Manager) (w : W)
      → (plugin.start (build_plugin_options paths flags) w).0 ≡ ok tt
      → running (start paths grpc plugin helper flags s w).1 ≡ true
  unfolding start after_plugin
  start-leaves_running s w h =
      let (r, w') = plugin.start (build_plugin_options paths flags) w in
      and_then-seen running (after_plugin s) r w' (after_plugin-Preserves s)
      ∙ laws.starts (build_plugin_options paths flags) w h

  health_stopped :
      (d : Started) (w : W)
      → serves w ≡ is_some d.healthcheck
      → serves (stop_health paths grpc plugin helper flags d.healthcheck w) ≡ false
  unfolding stop
  health_stopped d w e = stopped d.healthcheck e
    where
      stopped :
          (o : Option Healthcheck)
          → serves w ≡ is_some o
          → serves (stop_health paths grpc plugin helper flags o w) ≡ false
      stopped none h = h
      stopped (some serving) h = laws.graceful_stops w

  -- After Shutdown neither the kubelet plugin nor the health service runs, also when a socket file
  -- could not be removed, if the health service ran exactly when Start returned one.
  pub shutdown-stops :
      (d : Started) (w : W)
      → serves w ≡ is_some d.healthcheck
      → (running (shutdown paths grpc plugin helper flags d w).1 ≡ false)
        × (serves (shutdown paths grpc plugin helper flags d w).1 ≡ false)
  unfolding shutdown
  shutdown-stops d w e =
      let v = stop_health paths grpc plugin helper flags d.healthcheck w in
      (
        remove_sockets-Preserves paths grpc plugin helper flags running laws.removes_plugin
              (plugin.stop v)
            ∙ laws.stops v,
        remove_sockets-Preserves paths grpc plugin helper flags serves laws.removes_health
              (plugin.stop v)
            ∙ (laws.stop_keeps v ∙ health_stopped d w e),
      )
