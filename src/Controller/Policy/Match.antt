-- ===== src/Controller/Policy/Match.antt =====
-- Which devices the matching policies select, and with which attributes
-- (pkg/controller/resourcepolicycontroller.go).
use k8snetworkplumbingwg_dra.Common.{
  String, Option, none, some, List, [], ◌∷◌, Map, lookup, lookup-cons, lookup-insert, insert,
  has_key, keys, if◌then◌else◌, ◌==◌, eq_string, ◌≡◌, refl, ◌∙◌, arith,
}
use k8snetworkplumbingwg_dra.Kube.{Device, Attributes}
use k8snetworkplumbingwg_dra.DeviceState.Advertise.{PolicyDevices}
use k8snetworkplumbingwg_dra.DeviceState.Advertise.Reserved.{contains-keys, lookup-nil}
use k8snetworkplumbingwg_dra.DeviceState.Advertise.Values.{Distinct}
use k8snetworkplumbingwg_dra.Controller.Objects.{
  ResourceFilter, Config, SriovResourcePolicy, DeviceAttributesObject,
}
use k8snetworkplumbingwg_dra.Controller.Filter.{device_matches_filters}
use k8snetworkplumbingwg_dra.Controller.Policy.{
  AsSelector, sort_by, resolve_device_attributes, add_devices, add_configs, add_policies,
  get_policy_device_map,
}

abbrev or_else : Option Attributes → Option Attributes → Option Attributes
or_else none p = p
or_else (some a) p = some a

or_else_assoc : (a b c : Option Attributes) → or_else (or_else a b) c ≡ or_else a (or_else b c)
or_else_assoc none b c = refl
or_else_assoc (some x) b c = refl

module _ (as_selector : AsSelector) (all : List DeviceAttributesObject) where
  -- The attributes of the first config that the device passes.
  unfoldable pub first_config : Device → List Config → Option Attributes
  first_config d [] = none
  first_config d (c ∷ cs) =
      let rest = first_config d cs in
      if device_matches_filters d c.resource_filters
      then some (resolve_device_attributes as_selector c.device_attributes_selector all)
      else rest

  unfoldable pub first_policy : Device → List SriovResourcePolicy → Option Attributes
  first_policy d [] = none
  first_policy d (p ∷ ps) = or_else (first_config d p.configs) (first_policy d ps)

  abbrev pub for_device : {V : Type 0} → (Device → Option V) → Option Device → Option V
  for_device f none = none
  for_device f (some d) = f d

  abbrev if_passes : Attributes → List ResourceFilter → Device → Option Attributes
  if_passes attrs filters d = if device_matches_filters d filters then some attrs else none

  -- The loop's body.
  abbrev add_step :
      Attributes → List ResourceFilter → String → Device → PolicyDevices → PolicyDevices
  add_step attrs filters name d pd =
      if has_key name pd
      then pd
      else if device_matches_filters d filters
      then insert name attrs pd
      else pd

  lookup-add_step :
      (attrs : Attributes) (filters : List ResourceFilter) (name : String) (d : Device)
      (pd : PolicyDevices) (n : String)
      → lookup n (add_step attrs filters name d pd)
        ≡ or_else (lookup n pd) (if name == n then if_passes attrs filters d else none)
  lookup-add_step attrs filters name d pd n =
      ground (arith, eq_string.beq_iff name n, lookup-insert name n attrs pd)

  lookup-add_devices :
      (attrs : Attributes) (filters : List ResourceFilter) (alloc : Map String Device)
      (pd : PolicyDevices) (n : String)
      → Distinct (keys alloc)
      → lookup n (add_devices as_selector all attrs filters alloc pd)
        ≡ or_else (lookup n pd) (for_device (if_passes attrs filters) (lookup n alloc))
  unfolding add_devices
  lookup-add_devices attrs filters [] pd n h = ground (arith, lookup-nil {V = Device} n)
  lookup-add_devices attrs filters ((name, d) ∷ alloc) pd n h =
      lookup-add_devices attrs filters alloc (add_step attrs filters name d pd) n h.1
      ∙ ground (
        arith,
        lookup-add_step attrs filters name d pd n,
        lookup-cons n name d alloc,
        eq_string.beq_iff name n,
        contains-keys alloc name,
        h.0,
      )

  lookup-add_configs :
      (configs : List Config) (alloc : Map String Device) (pd : PolicyDevices) (n : String)
      → Distinct (keys alloc)
      → lookup n (add_configs as_selector all configs alloc pd)
        ≡ or_else (lookup n pd) (for_device (λ d. first_config d configs) (lookup n alloc))
  unfolding add_configs first_config
  lookup-add_configs [] alloc pd n h = ground arith
  lookup-add_configs (c ∷ cs) alloc pd n h =
      let attrs = resolve_device_attributes as_selector c.device_attributes_selector all in
      lookup-add_configs cs alloc (add_devices as_selector all attrs c.resource_filters alloc pd) n
        h
      ∙ ground (arith, lookup-add_devices attrs c.resource_filters alloc pd n h)

  lookup-add_policies :
      (policies : List SriovResourcePolicy) (alloc : Map String Device) (pd : PolicyDevices)
      (n : String)
      → Distinct (keys alloc)
      → lookup n (add_policies as_selector all policies alloc pd)
        ≡ or_else (lookup n pd) (for_device (λ d. first_policy d policies) (lookup n alloc))
  unfolding add_policies first_policy
  lookup-add_policies [] alloc pd n h = ground arith
  lookup-add_policies (p ∷ ps) alloc pd n h =
      lookup-add_policies ps alloc (add_configs as_selector all p.configs alloc pd) n h
      ∙ ground (arith, lookup-add_configs p.configs alloc pd n h)

  -- The map names exactly the existing devices that pass some config of some policy, and gives each
  -- the attributes of its first such config, the policies taken in the order of their names.
  pub lookup-get_policy_device_map :
      (policies : List SriovResourcePolicy) (alloc : Map String Device) (n : String)
      → Distinct (keys alloc)
      → lookup n (get_policy_device_map as_selector all policies alloc)
        ≡ for_device (λ d. first_policy d (sort_by (λ p. p.name) policies)) (lookup n alloc)
  unfolding get_policy_device_map sort_by first_policy
  lookup-get_policy_device_map [] alloc n h = ground (arith, lookup-nil {V = Attributes} n)
  lookup-get_policy_device_map (p ∷ ps) alloc n h =
      lookup-add_policies (sort_by (λ q. q.name) (p ∷ ps)) alloc [] n h
      ∙ ground (arith, lookup-nil {V = Attributes} n)
