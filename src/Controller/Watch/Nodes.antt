-- ===== src/Controller/Watch/Nodes.antt =====
-- Events of nodes (pkg/controller/resourcepolicycontroller.go: SetupWithManager).
mod Tests
use k8snetworkplumbingwg_dra.Common.{
  String, Bool, true, false, List, [], ◌∷◌, ◌==◌, eq_string, ◌≡◌, refl, ap, ◌∙◌, arith,
}
use k8snetworkplumbingwg_dra.Controller.Watch.{
  ObjectMeta, Event, create, delete, generic, update, Watched, sriov_resource_policy,
  device_attributes, node, Queued, Builder, namespace_predicate, on_event,
}

-- The object that NewPredicateFuncs tests: of an update the new one.
abbrev pub tested : Event → ObjectMeta
tested (create object) = object
tested (delete object) = object
tested (generic object) = object
tested (update before after) = after

module _ (builder : Builder) (node_name namespace : String)
    (filters : (p : ObjectMeta → Bool) (h : Event → List Queued) (e : Event)
      → p (tested e) ≡ false
      → builder.filtered p h e ≡ []) where
  -- Where the builder drops the events whose object fails the filter's predicate: an event of an
  -- object without a namespace, as nodes are, queues no reconcile by the watch of nodes when the
  -- driver's namespace is not empty, not even a change of the labels of the driver's own node.
  pub on_event-ignores_nodes :
      (e : Event)
      → (tested e).namespace ≡ ""
      → (namespace == "") ≡ false
      → on_event builder node_name namespace node e ≡ []
  unfolding on_event namespace_predicate
  on_event-ignores_nodes e cluster_scoped named =
      filters (namespace_predicate builder node_name namespace) _ e (
        ap (λ s. s == namespace) cluster_scoped
        ∙ ground (arith, named, eq_string.beq_iff namespace "", eq_string.beq_iff "" namespace))
