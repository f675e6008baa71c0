-- ===== src/Controller/Policy/Discovered.antt =====
-- Which of the VFs that discovery found are advertised (pkg/controller/resourcepolicycontroller.go
-- over pkg/devicestate).
use k8snetworkplumbingwg_dra.Common.{
  String, Option, none, some, true, List, [], ◌∷◌, lookup, is_some, ok, ◌≡◌, refl, ap, ◌∙◌, arith,
  eq_string,
}
use k8snetworkplumbingwg_dra.Kube.{Device, Attributes}
use k8snetworkplumbingwg_dra.Consts.{
  attribute_vendor_id, attribute_device_id, attribute_pci_address, attribute_pf_name,
  attribute_pf_pci_address, attribute_link_type,
}
use k8snetworkplumbingwg_dra.DeviceState.State.{Manager}
use k8snetworkplumbingwg_dra.DeviceState.Advertise.{is_reserved, Republish, get_advertised_devices}
use k8snetworkplumbingwg_dra.DeviceState.Advertise.Reserved.{attr_of}
use k8snetworkplumbingwg_dra.DeviceState.Discovery.{DiscoveryHost}
use k8snetworkplumbingwg_dra.DeviceState.Discovery.Found.{last_named, all_vfs, pfs_of}
use k8snetworkplumbingwg_dra.DeviceState.Construct.Reached.{Reached, Reached-IsSound}
use k8snetworkplumbingwg_dra.Controller.Objects.{
  ResourceFilter, Config, SriovResourcePolicy, DeviceAttributesObject,
}
use k8snetworkplumbingwg_dra.Controller.Filter.{
  value_at, string_value_of, device_matches_filter, some_filter_matches, device_matches_filters,
}
use k8snetworkplumbingwg_dra.Controller.Policy.{
  Labels, AsSelector, sort_by, matching_policies, reconcile,
}
use k8snetworkplumbingwg_dra.Controller.Policy.Match.{first_config, first_policy, for_device}
use k8snetworkplumbingwg_dra.Controller.Policy.Advertised.{reconcile-advertised}

module _ (d d' : Device)
    (same : (k : String)
      → is_reserved k ≡ true
      → lookup k d.attributes ≡ lookup k d'.attributes) where
  value_at-same : (k : String) → is_reserved k ≡ true → value_at d k ≡ value_at d' k
  value_at-same k r = ap string_value_of (same k r)

  -- A filter reads only attributes that policies may not set.
  device_matches_filter-same :
      (f : ResourceFilter) → device_matches_filter d f ≡ device_matches_filter d' f
  unfolding device_matches_filter is_reserved
  device_matches_filter-same f = ground (
    arith,
    value_at-same attribute_vendor_id refl,
    value_at-same attribute_device_id refl,
    value_at-same attribute_pci_address refl,
    value_at-same attribute_pf_name refl,
    value_at-same attribute_pf_pci_address refl,
    value_at-same attribute_link_type refl,
  )

  some_filter_matches-same :
      (fs : List ResourceFilter) → some_filter_matches d fs ≡ some_filter_matches d' fs
  unfolding some_filter_matches
  some_filter_matches-same [] = refl
  some_filter_matches-same (f ∷ fs) =
      ground (arith, device_matches_filter-same f, some_filter_matches-same fs)

  device_matches_filters-same :
      (fs : List ResourceFilter) → device_matches_filters d fs ≡ device_matches_filters d' fs
  unfolding device_matches_filters
  device_matches_filters-same [] = refl
  device_matches_filters-same (f ∷ fs) = some_filter_matches-same (f ∷ fs)

  module _ (as_selector : AsSelector) (das : List DeviceAttributesObject) where
    first_config-same :
        (cs : List Config) → first_config as_selector das d cs ≡ first_config as_selector das d' cs
    unfolding first_config
    first_config-same [] = refl
    first_config-same (c ∷ cs) =
        ground (arith, device_matches_filters-same c.resource_filters, first_config-same cs)

    first_policy-same :
        (ps : List SriovResourcePolicy)
        → first_policy as_selector das d ps ≡ first_policy as_selector das d' ps
    unfolding first_policy
    first_policy-same [] = refl
    first_policy-same (p ∷ ps) = ground (arith, first_config-same p.configs, first_policy-same ps)

for_device-same :
    (as_selector : AsSelector) (das : List DeviceAttributesObject) (ps : List SriovResourcePolicy)
    (o o' : Option Device)
    → is_some o ≡ is_some o'
    → ((k : String) → is_reserved k ≡ true → attr_of k o ≡ attr_of k o')
    → for_device as_selector das (λ d. first_policy as_selector das d ps) o
      ≡ for_device as_selector das (λ d. first_policy as_selector das d ps) o'
for_device-same as_selector das ps none none e h = refl
for_device-same as_selector das ps (some d) (some d') e h =
    first_policy-same d d' h as_selector das ps
for_device-same as_selector das ps none (some d) e h = absurd (ground (arith, e))
for_device-same as_selector das ps (some d) none e h = absurd (ground (arith, e))

-- In every state that the manager can reach, whatever policies it applied before: after a reconcile
-- that read the node and both lists, exactly those VFs are advertised that discovery found and that,
-- as discovery found them, pass a config of a policy that selects the node.
pub reconcile-discovered :
    {C W S : Type 0} (as_selector : AsSelector) (callback : Republish W) (host : DiscoveryHost)
    (store : S) (labels : Labels) (policies : List SriovResourcePolicy)
    (das : List DeviceAttributesObject) (s : Manager) (w : W) (n : String)
    → Reached C W host store s
    → is_some (
        lookup n (
          get_advertised_devices
            (reconcile as_selector callback (ok labels) (ok policies) (ok das) (s, w)).1.0))
      ≡ is_some (
          for_device as_selector das
            (λ d.
              first_policy as_selector das d
                (sort_by (λ p. p.name) (matching_policies as_selector labels policies)))
            (last_named host n (all_vfs host (pfs_of host host.pci))))
reconcile-discovered as_selector callback host store labels policies das s w n r =
    let sound = Reached-IsSound host store s r in
    reconcile-advertised as_selector callback labels policies das s w n sound.distinct
    ∙ ap (λ (o : Option Attributes). is_some o)
        (for_device-same as_selector das
          (sort_by (λ p. p.name) (matching_policies as_selector labels policies))
          (lookup n s.allocatable) (last_named host n (all_vfs host (pfs_of host host.pci)))
          (sound.named n) (λ k k_reserved. sound.reserved n k k_reserved))
