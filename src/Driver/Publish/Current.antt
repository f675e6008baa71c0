-- ===== src/Driver/Publish/Current.antt =====
-- What is published after a reconcile (pkg/driver/driver.go under pkg/devicestate and
-- pkg/controller; pkg/cmd sets PublishResources as the manager's callback).
use k8snetworkplumbingwg_dra.Common.{
  String, Option, some, not, List, Result, ok, err, panic, ◌≡◌, refl, ◌⊎◌, inl, inr, if_intro, wrap,
}
use k8snetworkplumbingwg_dra.Types.Retry.{reason_for_error}
use k8snetworkplumbingwg_dra.Common.Yields.{OnOk, Yields}
use k8snetworkplumbingwg_dra.DeviceState.State.{Manager}
use k8snetworkplumbingwg_dra.DeviceState.Advertise.{
  PolicyDevices, Republish, update_devices, update_policy_devices, get_advertised_devices,
}
use k8snetworkplumbingwg_dra.Controller.Objects.{SriovResourcePolicy, DeviceAttributesObject}
use k8snetworkplumbingwg_dra.Controller.Policy.{
  Labels, AsSelector, reconcile, get_policy_device_map, matching_policies, reconciled, is_not_found,
  Outcome,
}
use k8snetworkplumbingwg_dra.Driver.Publish.{
  Helper, DriverResources, resources_of, values, publish_resources,
}

-- The callback that RunPlugin sets.
abbrev pub publisher : {W : Type 0} → Helper W → String → Republish W
publisher helper node_name = some (publish_resources helper node_name)

module _ {W : Type 0} (helper : Helper W) (node_name : String)
    (published : W → Option DriverResources)
    (records : (r : DriverResources) (w : W)
      → (helper.publish_resources r w).0 ≡ ok tt
      → published (helper.publish_resources r w).1 ≡ some r) where
  -- Nothing was sent, or what the state advertises.
  abbrev pub IsCurrent : W → Manager × W → Type 0
  IsCurrent w p =
      (p.1 ≡ w)
      ⊎ (published p.1 ≡ some (resources_of node_name (values (get_advertised_devices p.0))))

  sent-IsCurrent :
      (s : Manager) (w w' : W) (r : Result (Unit {0}))
      → (r ≡ ok tt
          → published w' ≡ some (resources_of node_name (values (get_advertised_devices s))))
      → OnOk
          (elim r [ err e ↦ err (wrap "failed to republish resources" e) | other ↦ other ])
          (λ _. IsCurrent w (s, w'))
  sent-IsCurrent s w w' (ok _) h = inr (h refl)
  sent-IsCurrent s w w' (err e) h = tt
  sent-IsCurrent s w w' panic h = tt

  update_policy_devices-IsCurrent :
      (policy : PolicyDevices) (s : Manager) (w : W)
      → Yields
          (update_policy_devices (publisher helper node_name) policy)
          (s, w)
          (λ _ p. IsCurrent w p)
  unfolding update_policy_devices publish_resources
  update_policy_devices-IsCurrent policy s w =
      let s' = (update_devices policy s).1 in
      let sent = resources_of node_name (values (get_advertised_devices s')) in
      if_intro (λ (x : Result (Unit {0}) × (Manager × W)). OnOk x.0 (λ _. IsCurrent w x.1))
        (not (update_devices policy s).0) (λ _. inl refl)
        (λ _.
          sent-IsCurrent s' w (helper.publish_resources sent w).1
            (helper.publish_resources sent w).0 (records sent w))

  reconciled-IsCurrent :
      (as_selector : AsSelector) (w : W) (r : Result (Unit {0})) (p : Manager × W)
      → OnOk r (λ _. IsCurrent w p)
      → OnOk (reconciled as_selector (publisher helper node_name) r) (λ _. IsCurrent w p)
  reconciled-IsCurrent as_selector w (ok _) p h = h
  reconciled-IsCurrent as_selector w (err e) p h = tt
  reconciled-IsCurrent as_selector w panic p h = tt

  -- A reconcile that reports no error has published nothing, or the last resources that were
  -- published are exactly the devices that are advertised after it, in the pool of the node.
  pub reconcile-IsCurrent :
      (as_selector : AsSelector) (labels : Result Labels)
      (policies : Result (List SriovResourcePolicy)) (das : Result (List DeviceAttributesObject))
      (s : Manager) (w : W)
      → Yields
          (reconcile as_selector (publisher helper node_name) labels policies das)
          (s, w)
          (λ _ p. IsCurrent w p)
  unfolding reconcile
  reconcile-IsCurrent as_selector (err e) policies das s w =
      if_intro
        (λ (x : Result (Outcome as_selector) × (Manager × W)). OnOk x.0 (λ _. IsCurrent w x.1))
        (is_not_found as_selector (reason_for_error e)) (λ _. inl refl) (λ _. tt)
  reconcile-IsCurrent as_selector panic policies das s w = tt
  reconcile-IsCurrent as_selector (ok labels) (err e) das s w = tt
  reconcile-IsCurrent as_selector (ok labels) panic das s w = tt
  reconcile-IsCurrent as_selector (ok labels) (ok policies) (err e) s w = tt
  reconcile-IsCurrent as_selector (ok labels) (ok policies) panic s w = tt
  reconcile-IsCurrent as_selector (ok labels) (ok policies) (ok das) s w =
      let policy =
        get_policy_device_map as_selector das (matching_policies as_selector labels policies)
          s.allocatable in
      let x = update_policy_devices (publisher helper node_name) policy (s, w) in
      reconciled-IsCurrent as_selector w x.0 x.1 (update_policy_devices-IsCurrent policy s w)
