-- ===== src/Controller/Watch/Nodes/Tests.antt =====
-- Events of a node, and of the driver's own resources.
use k8snetworkplumbingwg_dra.Common.{
  Bool, true, false, List, [], ◌∷◌, if◌then◌else◌, ◌==◌, eq_string, Map, String, ◌≡◌, refl, ap,
}
use k8snetworkplumbingwg_dra.Controller.Watch.{
  ObjectMeta, Event, create, update, sriov_resource_policy, node, Queued, at_once, after_a_second,
  Builder, on_event, delayed_event_handler, node_event_handler, namespace_predicate,
  initial_requests,
}
use k8snetworkplumbingwg_dra.Controller.Watch.Nodes.{tested, on_event-ignores_nodes}

abbrev same_labels : Map String String → Map String String → Bool
same_labels [] [] = true
same_labels ((k, v) ∷ m) ((k', v') ∷ m') = if (k == k') then v == v' else false
same_labels m m' = false

abbrev enqueue_object : Event → List Queued
enqueue_object e = at_once (tested e).namespace (tested e).name ∷ []

abbrev builder : Builder
builder = record {
  filtered = λ p h e. if p (tested e) then h e else [];
  enqueue = enqueue_object;
  equals = same_labels;
}

abbrev node_with : String → ObjectMeta
node_with role = record { name = "worker"; namespace = ""; labels = ("role", role) ∷ [] }

abbrev relabelled : Event
relabelled = update (node_with "a") (node_with "b")

-- The handler would queue a reconcile, were it not for the filter.
handled :
    node_event_handler builder "worker" "dra" relabelled
    ≡ after_a_second "dra" "resource-policy-sync" ∷ []
unfolding node_event_handler
handled = refl

-- An event of a policy queues two requests.
policy_event :
    on_event builder "worker" "dra" sriov_resource_policy
      (create (record { name = "all"; namespace = "dra"; labels = [] }))
    ≡ at_once "dra" "all" ∷ after_a_second "dra" "resource-policy-sync" ∷ []
unfolding on_event namespace_predicate delayed_event_handler
policy_event = refl

started : initial_requests builder "worker" "dra" ≡ at_once "dra" "resource-policy-sync" ∷ []
unfolding initial_requests
started = refl

on_event-ignores_nodes_example : on_event builder "worker" "dra" node relabelled ≡ []
on_event-ignores_nodes_example =
    on_event-ignores_nodes builder "worker" "dra"
      (λ p h e no. ap (λ (b : Bool). if b then h e else []) no) relabelled refl refl
