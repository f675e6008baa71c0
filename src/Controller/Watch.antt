-- ===== src/Controller/Watch.antt =====
-- pkg/controller/resourcepolicycontroller.go: SetupWithManager, that is which events queue a
-- reconcile. The library's builder is an argument.
pub mod Nodes
use k8snetworkplumbingwg_dra.Common.{
  String, Bool, true, false, not, List, [], ◌∷◌, ◌++◌, Map, if◌then◌else◌, ◌==◌, eq_string,
}

-- An object's metadata.
pub record ObjectMeta : Type 0 where
  pub name : String
  pub namespace : String
  pub labels : Map String String

pub data Event : Type 0 where
  create delete generic : ObjectMeta → Event
  update : ObjectMeta → ObjectMeta → Event

pub data Watched : Type 0 where
  sriov_resource_policy device_attributes node : Watched

-- A request that is queued at once or after a second.
pub data Queued : Type 0 where
  at_once after_a_second : String → String → Queued

-- `filtered` is how the builder combines the predicate of WithEventFilter, given as
-- predicate.NewPredicateFuncs makes it, with a handler; `enqueue` is the handler of For, and
-- `equals` is labels.Equals.
pub record Builder : Type 0 where
  pub filtered : (ObjectMeta → Bool) → (Event → List Queued) → Event → List Queued
  pub enqueue : Event → List Queued
  pub equals : Map String String → Map String String → Bool

abbrev pub sync_event_name : String
sync_event_name = "resource-policy-sync"

module _ (builder : Builder) (node_name namespace : String) where
  abbrev q_handler : List Queued
  q_handler = after_a_second namespace sync_event_name ∷ []

  unfoldable pub delayed_event_handler : Event → List Queued
  delayed_event_handler e = q_handler

  abbrev if_own : ObjectMeta → List Queued → List Queued
  if_own object requests = if object.name == node_name then requests else []

  unfoldable pub node_event_handler : Event → List Queued
  node_event_handler (create object) = if_own object q_handler
  node_event_handler (update before after) =
      if_own after (if not (builder.equals before.labels after.labels) then q_handler else [])
  node_event_handler (delete object) = if_own object q_handler
  node_event_handler (generic object) = []

  unfoldable pub namespace_predicate : ObjectMeta → Bool
  namespace_predicate object = object.namespace == namespace

  abbrev handler_of : Watched → Event → List Queued
  handler_of sriov_resource_policy e = builder.enqueue e ++ delayed_event_handler e
  handler_of device_attributes e = delayed_event_handler e
  handler_of node e = node_event_handler e

  -- What an event of a watched kind queues.
  unfoldable pub on_event : Watched → Event → List Queued
  on_event kind e = builder.filtered namespace_predicate (handler_of kind) e

  -- What the source that is watched without the filter queues when the controller starts.
  unfoldable pub initial_requests : List Queued
  initial_requests =
      builder.enqueue
        (generic (record { name = sync_event_name; namespace = namespace; labels = [] }))
