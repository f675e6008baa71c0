-- ===== src/Nri/Runner.antt =====
-- pkg/nri/nri.go: updateNetworkDeviceDataRunner, with what happens to its channel and its context.
pub mod Batches
pub mod Handled
pub mod Queue
pub mod Order
mod Tests
use k8snetworkplumbingwg_dra.Common.{
  Option, none, some, Bool, true, false, List, [], ◌∷◌, ◌++◌, if◌then◌else◌, ◌&&◌,
}
use k8snetworkplumbingwg_dra.PodManager.Store.{CheckpointManager}
use k8snetworkplumbingwg_dra.Nri.Updates.{NetworkData}
use k8snetworkplumbingwg_dra.Nri.Plugin.{Plugin, Clients, update_network_device_data}

-- `closed` is that of the channel, `done` that of the context; `running` ends when the goroutine
-- returns.
pub record Runner (W D : Type 0) : Type 0 where
  pub plugin : Plugin W D
  pub closed : Bool
  pub done : Bool
  pub running : Bool

-- What happens next: a batch is sent, the select takes the channel or the context, the context is
-- cancelled, or Stop closes the channel.
pub data Turn : Type 0 where
  sent : List (Option NetworkData) → Turn
  received cancelled exited stopped : Turn

module _ {W D : Type 0} (checkpoints : CheckpointManager D) (clients : Clients W)
    (enable_device_metadata : Bool) where
  abbrev pub with_plugin : Runner W D → Plugin W D → Runner W D
  with_plugin s plugin = record s { plugin = plugin }

  abbrev pub handle : List (Option NetworkData) → Plugin W D → Plugin W D
  handle items = update_network_device_data checkpoints clients enable_device_metadata items

  -- A receive from an empty channel blocks, or yields nil when the channel is closed.
  abbrev pub receive : List (List (Option NetworkData)) → Runner W D → Option (Runner W D)
  receive [] s = if s.closed then some (with_plugin s (handle [] s.plugin)) else none
  receive (items ∷ rest) s = some (with_plugin s (handle items (record s.plugin { queue = rest })))

  abbrev pub enqueue : List (Option NetworkData) → Plugin W D → Plugin W D
  enqueue items p = record p { queue = p.queue ++ items ∷ [] }

  -- The state after a turn; none where it cannot happen: the goroutine has returned, no case of the
  -- select is ready, or the channel is closed and Go panics at a send or at another close.
  unfoldable pub turn : Turn → Runner W D → Option (Runner W D)
  turn (sent items) s = if s.closed then none else some (with_plugin s (enqueue items s.plugin))
  turn received s = if s.running then receive s.plugin.queue s else none
  turn cancelled s = some (record s { done = true })
  turn exited s = if s.running && s.done then some (record s { running = false }) else none
  turn stopped s = if s.closed then none else some (record s { closed = true })

  unfoldable pub run_turns : List Turn → Runner W D → Option (Runner W D)
  run_turns [] s = some s
  run_turns (t ∷ ts) s = elim (turn t s) [ none ↦ none | some next ↦ run_turns ts next ]
