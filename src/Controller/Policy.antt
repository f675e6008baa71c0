-- ===== src/Controller/Policy.antt =====
-- pkg/controller/resourcepolicycontroller.go: Reconcile, getPolicyDeviceMap,
-- resolveDeviceAttributes and matchesNodeSelector. The API client and the label selectors are
-- arguments. sort.Slice by name is an insertion sort: names are unique within a namespace.
pub mod Match
pub mod Advertised
pub mod Discovered
mod Tests
use Prim.Native.String.{compare}
use Prim.Native.Nat.{Ordering}
use k8snetworkplumbingwg_dra.Common.{
  String, Option, none, some, Bool, true, false, not, List, [], ◌∷◌, Map, lookup, insert, has_key,
  if◌then◌else◌, ◌==◌, eq_string, Result, ok, err, panic, Error, Action, Reason, not_found,
}
use k8snetworkplumbingwg_dra.Kube.{Device, DeviceAttribute, Attributes}
use k8snetworkplumbingwg_dra.Types.Retry.{reason_for_error}
use k8snetworkplumbingwg_dra.DeviceState.State.{Manager}
use k8snetworkplumbingwg_dra.DeviceState.Advertise.{PolicyDevices, Republish, update_policy_devices}
use k8snetworkplumbingwg_dra.Controller.Objects.{
  LabelSelector, NodeSelectorTerm, NodeSelector, ResourceFilter, Config, SriovResourcePolicy,
  DeviceAttributesObject,
}
use k8snetworkplumbingwg_dra.Controller.Filter.{device_matches_filters}

abbrev pub Labels : Type 0
Labels = Map String String

-- metav1.LabelSelectorAsSelector, and the Matches of its result.
abbrev pub AsSelector : Type 0
AsSelector = LabelSelector → Result (Labels → Bool)

abbrev pub name_lt : String → String → Bool
name_lt a b = elim (compare a b) [ Ordering.lt ↦ true | _ ↦ false ]

-- Insertion by name into a sorted list.
unfoldable pub insert_by : {A : Type 0} → (A → String) → A → List A → List A
insert_by name x [] = x ∷ []
insert_by name x (y ∷ ys) =
    if name_lt (name y) (name x) then y ∷ insert_by name x ys else x ∷ y ∷ ys

unfoldable pub sort_by : {A : Type 0} → (A → String) → List A → List A
sort_by name [] = []
sort_by name (x ∷ xs) = insert_by name x (sort_by name xs)

unfoldable pub node_selector_term_to_label_selector : NodeSelectorTerm → LabelSelector
node_selector_term_to_label_selector term = record {
  match_labels = [];
  match_expressions = term.match_expressions;
}

-- `for key, val := range attrs { merged[key] = val }`
unfoldable pub merge_into : Attributes → Attributes → Attributes
merge_into merged [] = merged
merge_into merged ((key, val) ∷ attrs) = merge_into (insert key val merged) attrs

unfoldable pub merge_all : Attributes → List DeviceAttributesObject → Attributes
merge_all merged [] = merged
merge_all merged (da ∷ das) = merge_all (merge_into merged da.attributes) das

module _ (as_selector : AsSelector) where
  -- A term whose selector cannot be built is passed over.
  abbrev pub passes : Result (Labels → Bool) → Labels → Bool
  passes (ok selects) labels = selects labels
  passes (err e) labels = false
  passes panic labels = false

  unfoldable pub some_term_matches : Labels → List NodeSelectorTerm → Bool
  some_term_matches labels [] = false
  some_term_matches labels (term ∷ terms) =
      let rest = some_term_matches labels terms in
      if passes (as_selector (node_selector_term_to_label_selector term)) labels then true else rest

  unfoldable pub matches_node_selector : Labels → Option NodeSelector → Bool
  matches_node_selector labels none = true
  matches_node_selector labels (some selector) = elim selector.node_selector_terms [
    | [] ↦ true
    | term ∷ terms ↦ some_term_matches labels (term ∷ terms)
  ]

  unfoldable pub matching_objects :
      (Labels → Bool) → List DeviceAttributesObject → List DeviceAttributesObject
  matching_objects selects [] = []
  matching_objects selects (da ∷ das) =
      let rest = matching_objects selects das in if selects da.labels then da ∷ rest else rest

  abbrev pub resolve_by : Result (Labels → Bool) → List DeviceAttributesObject → Attributes
  resolve_by (ok selects) all =
      merge_all [] (sort_by (λ da. da.name) (matching_objects selects all))
  resolve_by (err e) all = []
  resolve_by panic all = []

  -- A nil map is the empty one.
  unfoldable pub resolve_device_attributes :
      Option LabelSelector → List DeviceAttributesObject → Attributes
  resolve_device_attributes none all = []
  resolve_device_attributes (some selector) all = resolve_by (as_selector selector) all

  module _ (all : List DeviceAttributesObject) where
    -- The loop over the devices, for one config.
    unfoldable pub add_devices :
        Attributes → List ResourceFilter → Map String Device → PolicyDevices → PolicyDevices
    add_devices attrs filters [] policy_devices = policy_devices
    add_devices attrs filters ((name, device) ∷ allocatable) policy_devices =
        add_devices attrs filters allocatable (
          if has_key name policy_devices
          then policy_devices
          else if device_matches_filters device filters
          then insert name attrs policy_devices
          else policy_devices)

    unfoldable pub add_configs : List Config → Map String Device → PolicyDevices → PolicyDevices
    add_configs [] allocatable policy_devices = policy_devices
    add_configs (config ∷ configs) allocatable policy_devices = add_configs configs allocatable (
        add_devices (resolve_device_attributes config.device_attributes_selector all)
          config.resource_filters allocatable policy_devices)

    unfoldable pub add_policies :
        List SriovResourcePolicy → Map String Device → PolicyDevices → PolicyDevices
    add_policies [] allocatable policy_devices = policy_devices
    add_policies (policy ∷ policies) allocatable policy_devices =
        add_policies policies allocatable (add_configs policy.configs allocatable policy_devices)

    unfoldable pub get_policy_device_map :
        List SriovResourcePolicy → Map String Device → PolicyDevices
    get_policy_device_map [] allocatable = []
    get_policy_device_map (policy ∷ policies) allocatable =
        add_policies (sort_by (λ p. p.name) (policy ∷ policies)) allocatable []

  -- The policies for a node.
  unfoldable pub matching_policies : Labels → List SriovResourcePolicy → List SriovResourcePolicy
  matching_policies labels [] = []
  matching_policies labels (policy ∷ policies) =
      let rest = matching_policies labels policies in
      if matches_node_selector labels policy.node_selector then policy ∷ rest else rest

  -- ctrl.Result: whether the request is queued again after 30 seconds.
  pub record Outcome : Type 0 where
    pub requeue_after_30s : Bool

  abbrev done : Outcome
  done = record { requeue_after_30s = false }

  abbrev pub is_not_found : Reason → Bool
  is_not_found not_found = true
  is_not_found _ = false

  module _ {W : Type 0} (callback : Republish W) where
    abbrev pub reconciled : Result (Unit {0}) → Result Outcome
    reconciled (ok _) = ok done
    reconciled (err e) = err e
    reconciled panic = panic

    abbrev with_objects :
        Labels
        → Result (List SriovResourcePolicy)
        → Result (List DeviceAttributesObject)
        → Action (Manager × W) Outcome
    with_objects labels (err e) das p = (err e, p)
    with_objects labels panic das p = (panic, p)
    with_objects labels (ok policies) (err e) p = (err e, p)
    with_objects labels (ok policies) panic p = (panic, p)
    with_objects labels (ok policies) (ok das) p =
        let (r, p') =
          update_policy_devices callback
            (get_policy_device_map das (matching_policies labels policies) p.0.allocatable) p in
        (reconciled r, p')

    -- The answers of the API server are arguments: the node's labels, and the two lists.
    unfoldable pub reconcile :
        Result Labels
        → Result (List SriovResourcePolicy)
        → Result (List DeviceAttributesObject)
        → Action (Manager × W) Outcome
    reconcile (err e) policies das p =
        if is_not_found (reason_for_error e)
        then (ok (record { requeue_after_30s = true }), p)
        else (err e, p)
    reconcile panic policies das p = (panic, p)
    reconcile (ok labels) policies das p = with_objects labels policies das p
