-- ===== src/Controller/Policy/Advertised.antt =====
-- Which devices are advertised after a reconcile (pkg/controller/resourcepolicycontroller.go and
-- pkg/devicestate/state.go).
use k8snetworkplumbingwg_dra.Common.{
  String, List, lookup, is_some, keys, ok, ◌≡◌, ◌∙◌, ap, arith, eq_string,
}
use k8snetworkplumbingwg_dra.DeviceState.State.{Manager}
use k8snetworkplumbingwg_dra.DeviceState.Advertise.{Republish, get_advertised_devices}
use k8snetworkplumbingwg_dra.DeviceState.Advertise.Inserts.{update_policy_devices-state}
use k8snetworkplumbingwg_dra.DeviceState.Advertise.Names.{update_devices-advertised}
use k8snetworkplumbingwg_dra.DeviceState.Advertise.Values.{Distinct}
use k8snetworkplumbingwg_dra.Controller.Objects.{SriovResourcePolicy, DeviceAttributesObject}
use k8snetworkplumbingwg_dra.Controller.Policy.{
  Labels, AsSelector, sort_by, get_policy_device_map, matching_policies, reconcile,
}
use k8snetworkplumbingwg_dra.Controller.Policy.Match.{
  first_policy, for_device, lookup-get_policy_device_map,
}

module _ (as_selector : AsSelector) {W : Type 0} (callback : Republish W) where
  -- After a reconcile that read the node and both lists, whatever the publication answers, exactly
  -- the existing devices are advertised that pass a config of a policy that selects the node.
  pub reconcile-advertised :
      (labels : Labels) (policies : List SriovResourcePolicy) (das : List DeviceAttributesObject)
      (s : Manager) (w : W) (n : String)
      → Distinct (keys s.allocatable)
      → is_some (
          lookup n (
            get_advertised_devices
              (reconcile as_selector callback (ok labels) (ok policies) (ok das) (s, w)).1.0))
        ≡ is_some (
            for_device as_selector das
              (λ d.
                first_policy as_selector das d
                  (sort_by (λ p. p.name) (matching_policies as_selector labels policies)))
              (lookup n s.allocatable))
  unfolding reconcile
  reconcile-advertised labels policies das s w n distinct =
      let selected = matching_policies as_selector labels policies in
      let policy = get_policy_device_map as_selector das selected s.allocatable in
      ap (λ (m : Manager). is_some (lookup n (get_advertised_devices m)))
        (update_policy_devices-state callback policy s w)
      ∙ ground (
        arith,
        update_devices-advertised policy s n,
        lookup-get_policy_device_map as_selector das selected s.allocatable n distinct,
      )
