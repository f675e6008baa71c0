-- ===== src/Nri/Runner/Order.antt =====
-- What the runner has done after any sequence of turns (pkg/nri/nri.go: updateNetworkDeviceDataRunner).
use k8snetworkplumbingwg_dra.Common.{
  String, Option, none, some, Bool, ℕ, zero, suc, List, [], ◌∷◌, ◌++◌, eq_string, ◌≡◌, ap, All,
}
use k8snetworkplumbingwg_dra.Types.Prepared.{PreparedClaimsByPodUid}
use k8snetworkplumbingwg_dra.PodManager.Store.{CheckpointManager}
use k8snetworkplumbingwg_dra.Nri.Updates.{NetworkData, Key}
use k8snetworkplumbingwg_dra.Nri.Plugin.{Plugin, Clients}
use k8snetworkplumbingwg_dra.Nri.Stored.{map_pods}
use k8snetworkplumbingwg_dra.Nri.Runner.{
  Runner, Turn, sent, received, cancelled, exited, stopped, run_turns,
}
use k8snetworkplumbingwg_dra.Nri.Runner.Batches.{updated, IsOwned}
use k8snetworkplumbingwg_dra.Nri.Runner.Handled.{Serves}

abbrev pub Batch : Type 0
Batch = List (Option NetworkData)

-- The batches that are sent, in order.
unfoldable pub sent_in : List Turn → List Batch
sent_in [] = []
sent_in (sent items ∷ turns) = items ∷ sent_in turns
sent_in (received ∷ turns) = sent_in turns
sent_in (cancelled ∷ turns) = sent_in turns
sent_in (exited ∷ turns) = sent_in turns
sent_in (stopped ∷ turns) = sent_in turns

unfoldable pub receives : ℕ → List Turn
receives zero = []
receives (suc n) = received ∷ receives n

pub some_value : {A : Type 0} (x y : A) → some x ≡ some y → x ≡ y
some_value x y h = ap (λ o. elim o [ none ↦ x | some v ↦ v ]) h

module _ {W D : Type 0} (checkpoints : CheckpointManager D) (clients : Clients W)
    (enable_device_metadata : Bool) where
  abbrev run_from : List Turn → Option (Runner W D) → Option (Runner W D)
  run_from turns o = elim o [
    | none ↦ none
    | some next ↦ run_turns checkpoints clients enable_device_metadata turns next
  ]

  module _ (uid_at : String → String → String) (owner : ℕ → Key) where
    -- The store after the batches.
    unfoldable pub stored_after : List Batch → PreparedClaimsByPodUid → PreparedClaimsByPodUid
    stored_after [] pods = pods
    stored_after (items ∷ batches) pods =
        stored_after batches (map_pods (updated uid_at owner items) pods)

    abbrev pods_of : Runner W D → PreparedClaimsByPodUid
    pods_of s = s.plugin.pods.prepared_claims_by_pod_uid

    abbrev Owned : List Batch → Type 0
    Owned batches = All (λ items. All (IsOwned uid_at owner) items) batches

    module _ (serves : Serves uid_at owner checkpoints clients enable_device_metadata) where
      -- What the batches `total` of the queue and the later sends come to.
      abbrev Delivers : List Batch → Runner W D → Runner W D → Type 0
      Delivers total s t =
          (handled : List Batch) × ((total ≡ handled ++ t.plugin.queue)
            × (pods_of t ≡ stored_after handled (pods_of s)))

      abbrev Owns : Batch → Type 0
      Owns items = All (IsOwned uid_at owner) items
