-- ===== src/Driver/Publish/Tests.antt =====
-- A helper that keeps what was published last, under a reconcile of the sample manager.
use k8snetworkplumbingwg_dra.Common.{Option, none, some, true, [], ok, refl}
use k8snetworkplumbingwg_dra.Common.Yields.{Yields}
use k8snetworkplumbingwg_dra.DeviceState.Construct.Sample.{sample_manager}
use k8snetworkplumbingwg_dra.Controller.Policy.{AsSelector, reconcile}
use k8snetworkplumbingwg_dra.Driver.Publish.{Helper, DriverResources}
use k8snetworkplumbingwg_dra.Driver.Publish.Current.{publisher, IsCurrent, reconcile-IsCurrent}

abbrev helper : Helper (Option DriverResources)
helper = record {
  publish_resources = λ resources w. (ok tt, some resources);
  update_request_metadata = λ namespace name uid request devices w. (ok tt, w);
}

abbrev as_selector : AsSelector
as_selector s = ok (λ labels. true)

abbrev latest : Option DriverResources → Option DriverResources
latest w = w

reconcile-IsCurrent_example :
    Yields
      (reconcile as_selector (publisher helper "node1") (ok []) (ok []) (ok []))
      (sample_manager, none)
      (λ _ p. IsCurrent helper "node1" latest (λ resources w h. refl) none p)
reconcile-IsCurrent_example =
    reconcile-IsCurrent helper "node1" latest (λ resources w h. refl) as_selector (ok []) (ok [])
      (ok []) sample_manager none
