-- ===== src/Main/Modes.antt =====
-- How RunPlugin ends (cmd/dra-driver-sriov/main.go).
use k8snetworkplumbingwg_dra.Common.{
  String, Option, none, some, Bool, true, false, ◌==◌, eq_string, Result, ok, err, panic, plain,
  Action, and_then, ◌≡◌, refl, sym, ◌∙◌, arith, subst,
}
use k8snetworkplumbingwg_dra.Common.Effects.{Preserves, bind-Preserves}
use k8snetworkplumbingwg_dra.Types.Config.{Flags}
use k8snetworkplumbingwg_dra.Common.Yields.{Yields, yields-after}
use k8snetworkplumbingwg_dra.Host.Sysfs.{Sysfs, Providers, is_ok}
use k8snetworkplumbingwg_dra.Cdi.{new_handler}
use k8snetworkplumbingwg_dra.DeviceState.State.{Manager}
use k8snetworkplumbingwg_dra.DeviceState.Construct.{
  normalize_configuration_mode, state_of, new_manager,
}
use k8snetworkplumbingwg_dra.PodManager.Store.{CheckpointManager, PodManager}
use k8snetworkplumbingwg_dra.Driver.Health.{Paths, Grpc}
use k8snetworkplumbingwg_dra.Driver.Publish.{Helper}
use k8snetworkplumbingwg_dra.Driver.Publish.Current.{publisher}
use k8snetworkplumbingwg_dra.Driver.Start.{KubeletPlugin, Started, shutdown, stop_health}
use k8snetworkplumbingwg_dra.Driver.Start.Stopped.{remove_sockets-Preserves}
use k8snetworkplumbingwg_dra.Main.{
  Platform, on_world, on_disk, effect, checked_dir, make_directories, make_manager,
  make_pod_manager, stop_nri, shut_down, closing, until_done, before_serving, with_driver,
  start_driver, with_pods, with_manager, make_cache, with_cache, run_plugin,
}

module _ {W D C S R : Type 0} (platform : Platform W D C S R) (sys : Sysfs W)
    (providers : Providers W) (paths : Paths) (grpc : Grpc W) (plugin : KubeletPlugin W)
    (helper : Helper W) (checkpoints : CheckpointManager D) (flags : Flags)
    (running : W → Bool) where
  abbrev run : Action (W × D) (Unit {0})
  run = run_plugin platform sys providers paths grpc plugin helper checkpoints flags

  module _ (stops : (w : W) → running (plugin.stop w) ≡ false)
      (removes : (path : String) → Preserves running (plugin.remove path)) where
    abbrev Ends : Unit {0} → W × D → Type 0
    Ends _ p = running p.0 ≡ false

    shut_down-stops :
        (dvr : Started) (w : W)
        → running
            (shut_down platform sys providers paths grpc plugin helper checkpoints flags dvr w).1
          ≡ false
    unfolding shutdown
    shut_down-stops dvr w =
        let v = stop_health paths grpc plugin helper flags dvr.healthcheck w in
        remove_sockets-Preserves paths grpc plugin helper flags running removes (plugin.stop v)
        ∙ stops v

    until_done-Ends :
        (s : Manager) (pods : PodManager D) (dvr : Started) (nri : Bool) (p : W × D)
        → Yields
            (until_done platform sys providers paths grpc plugin helper checkpoints flags s pods dvr
              nri)
            p
            Ends
    until_done-Ends s pods dvr nri p =
        let serving = effect (platform.serve s (publisher helper flags.node_name) pods) in
        yields-after
          (λ _. closing platform sys providers paths grpc plugin helper checkpoints flags nri dvr)
          Ends serving p
          (λ _ p1.
            shut_down-stops dvr
              (stop_nri platform sys providers paths grpc plugin helper checkpoints flags nri
                p1.0).1)

    with_driver-Ends :
        (s : Manager) (pods : PodManager D) (dvr : Started) (p : W × D)
        → Yields
            (with_driver platform sys providers paths grpc plugin helper checkpoints flags s pods
              dvr)
            p
            Ends
    with_driver-Ends s pods dvr p =
        yields-after
          (until_done platform sys providers paths grpc plugin helper checkpoints flags s pods dvr)
          Ends
          (on_world
            (before_serving platform sys providers paths grpc plugin helper checkpoints flags))
          p (λ nri p1. until_done-Ends s pods dvr nri p1)

    with_pods-Ends :
        (s : Manager) (pods : PodManager D) (p : W × D)
        → Yields
            (with_pods platform sys providers paths grpc plugin helper checkpoints flags s pods)
            p
            Ends
    with_pods-Ends s pods p =
        yields-after
          (with_driver platform sys providers paths grpc plugin helper checkpoints flags s pods)
          Ends
          (on_world
            (start_driver platform sys providers paths grpc plugin helper checkpoints flags s))
          p (λ dvr p1. with_driver-Ends s pods dvr p1)

    with_manager-Ends :
        (made : Manager × (C × S)) (p : W × D)
        → Yields
            (with_manager platform sys providers paths grpc plugin helper checkpoints flags made)
            p
            Ends
    with_manager-Ends (s, handles) p =
        yields-after (with_pods platform sys providers paths grpc plugin helper checkpoints flags s)
          Ends
          (on_disk
            (make_pod_manager platform sys providers paths grpc plugin helper checkpoints flags))
          p (λ pods p1. with_pods-Ends s pods p1)

    with_cache-Ends :
        (cdi : C) (p : W × D)
        → Yields
            (with_cache platform sys providers paths grpc plugin helper checkpoints flags cdi)
            p
            Ends
    with_cache-Ends cdi p =
        yields-after
          (with_manager platform sys providers paths grpc plugin helper checkpoints flags) Ends
          (on_world
            (make_manager platform sys providers paths grpc plugin helper checkpoints flags cdi))
          p with_manager-Ends

    -- RunPlugin returns without an error only after it has stopped the kubelet plugin, where the
    -- library's Stop stops it and the removal of a file does not start it.
    pub run_plugin-stops : (w : W) (d : D) → Yields run (w, d) (λ _ p. running p.0 ≡ false)
    unfolding run_plugin
    run_plugin-stops w d =
        yields-after (with_cache platform sys providers paths grpc plugin helper checkpoints flags)
          Ends
          (on_world (make_cache platform sys providers paths grpc plugin helper checkpoints flags))
          (w, d) with_cache-Ends

  module _ (mkdir_keeps : (path : String) → Preserves running (platform.mkdir_all path))
      (cache_keeps : (root : String) → Preserves running (platform.new_cache root)) where
    checked_dir-Preserves :
        (r : Result (Option Bool))
        → Preserves running
            (checked_dir platform sys providers paths grpc plugin helper checkpoints flags r)
    checked_dir-Preserves (ok none) w = mkdir_keeps flags.cdi_root w
    checked_dir-Preserves (ok (some true)) w = refl
    checked_dir-Preserves (ok (some false)) w = refl
    checked_dir-Preserves (err e) w = refl
    checked_dir-Preserves panic w = refl

    make_cache-Preserves :
        Preserves running
          (make_cache platform sys providers paths grpc plugin helper checkpoints flags)
    unfolding new_handler
    make_cache-Preserves =
        bind-Preserves running
          (make_directories platform sys providers paths grpc plugin helper checkpoints flags) _
          (bind-Preserves running (platform.mkdir_all (paths.plugin_path flags)) _
            (mkdir_keeps (paths.plugin_path flags))
            (λ _ w. checked_dir-Preserves (platform.is_dir flags.cdi_root w) w))
          (λ _. cache_keeps flags.cdi_root)

    module _ (not_empty : (flags.configuration_mode == "") ≡ false)
        (not_standalone : (flags.configuration_mode == "STANDALONE") ≡ false)
        (not_multus : (flags.configuration_mode == "MULTUS") ≡ false) where
      make_manager-refuses :
          (cdi : C) (w : W)
          → make_manager platform sys providers paths grpc plugin helper checkpoints flags cdi w
            ≡ (err (plain "unsupported configuration mode %q, expected %q or %q"), w)
      unfolding new_manager state_of normalize_configuration_mode
      make_manager-refuses cdi w = ground (arith, not_empty, not_standalone, not_multus)

      abbrev Refused : W → Result (Unit {0}) × (W × D) → Type 0
      Refused w x = (is_ok x.0 ≡ false) × (running x.1.0 ≡ running w)

      with_cache-Refused :
          (r : Result C) (w w1 : W) (d : D)
          → running w1 ≡ running w
          → Refused w (
              and_then r
                (with_cache platform sys providers paths grpc plugin helper checkpoints flags)
                (w1, d))
      with_cache-Refused (ok cdi) w w1 d h =
          subst
            (λ (x : Result (Manager × (C × S)) × W). Refused w (
              and_then x.0
                (with_manager platform sys providers paths grpc plugin helper checkpoints flags)
                (x.1, d)))
            (sym (make_manager-refuses cdi w1)) (refl, h)
      with_cache-Refused (err e) w w1 d h = (refl, h)
      with_cache-Refused panic w w1 d h = (refl, h)

      -- With a configuration mode that is neither empty nor one of the two, RunPlugin returns an error
      -- and has not started the kubelet plugin, whatever the host answers, where making a directory and
      -- opening the CDI cache do not start it.
      pub run_plugin-refuses :
          (w : W) (d : D) → (is_ok (run (w, d)).0 ≡ false) × (running (run (w, d)).1.0 ≡ running w)
      unfolding run_plugin
      run_plugin-refuses w d =
          with_cache-Refused
            (make_cache platform sys providers paths grpc plugin helper checkpoints flags w).0 w
            (make_cache platform sys providers paths grpc plugin helper checkpoints flags w).1 d
            (make_cache-Preserves w)
