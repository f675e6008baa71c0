-- ===== src/PodManager/Restart.antt =====
-- What a new PodManager reads back from the checkpoint (pkg/podmanager/podmanager.go).
use k8snetworkplumbingwg_dra.Common.{
  String, Option, none, some, true, List, [], ◌∷◌, eq_string, ◌≡◌, refl, arith, Result, ok, err,
  panic, delete,
}
use k8snetworkplumbingwg_dra.Kube.{NamespacedObject, NetworkDeviceData}
use k8snetworkplumbingwg_dra.Types.Prepared.{
  PreparedDevice, PreparedDevices, PreparedClaimsByPodUid, set_network_device_data,
}
use k8snetworkplumbingwg_dra.PodManager.Store.{
  CheckpointManager, PodManager, sync_to_checkpoint, put, delete_pod, delete_claim, delete_found,
  pod_to_delete, lists_file, checkpoint_file, write_pods, with_devices,
  update_prepared_device_network_data, new_pod_manager, explain,
}

-- The operations that change the state.
pub data Op : Type 0 where
  put_op : String → String → PreparedDevices → Op
  delete_pod_op : String → Op
  delete_claim_op : NamespacedObject → Op
  update_op : Option PreparedDevice → Option NetworkDeviceData → Op

module _ {D : Type 0} (checkpoints : CheckpointManager D) where
  -- The checkpoint on the disk, where there is one that can be read.
  pub record HasCheckpoint (claims : PreparedClaimsByPodUid) (disk : D) : Type 0 where
    pub names : List String
    pub listed : checkpoints.list_checkpoints disk ≡ ok names
    pub has_file : lists_file checkpoints names ≡ true
    pub got : checkpoints.get_checkpoint checkpoint_file disk ≡ ok claims

  -- What is assumed of the checkpoint manager: a checkpoint that was created can be listed and read.
  abbrev pub IsDurable : Type 0
  IsDurable =
      (claims : PreparedClaimsByPodUid) (disk : D)
      → (checkpoints.create_checkpoint checkpoint_file claims disk).0 ≡ ok tt
      → HasCheckpoint claims (checkpoints.create_checkpoint checkpoint_file claims disk).1

  abbrev pub IsSaved : PodManager D → Type 0
  IsSaved s = HasCheckpoint s.prepared_claims_by_pod_uid s.disk

  unfoldable pub run : Op → PodManager D → Result (Unit {0}) × PodManager D
  run (put_op pod claim devices) s = put checkpoints pod claim devices s
  run (delete_pod_op pod) s = delete_pod checkpoints pod s
  run (delete_claim_op claim) s = delete_claim checkpoints claim s
  run (update_op device network_data) s =
      update_prepared_device_network_data checkpoints device network_data s

  abbrev carry_on :
      Result (Unit {0})
      → Result (Unit {0}) × PodManager D
      → PodManager D
      → Result (Unit {0}) × PodManager D
  carry_on (ok _) rest s = rest
  carry_on (err e) rest s = (err e, s)
  carry_on panic rest s = (panic, s)

  unfoldable pub run_all : List Op → PodManager D → Result (Unit {0}) × PodManager D
  run_all [] s = (ok tt, s)
  run_all (op ∷ ops) s = carry_on (run op s).0 (run_all ops (run op s).1) (run op s).1

  explain-ok : (text : String) (r : Result (Unit {0})) → explain text r ≡ ok tt → r ≡ ok tt
  explain-ok text (ok _) h = refl
  explain-ok text (err e) h = ground arith
  explain-ok text panic h = ground arith

  sync-IsSaved :
      IsDurable
      → (s : PodManager D) → (sync_to_checkpoint checkpoints s).0 ≡ ok tt
      → IsSaved (sync_to_checkpoint checkpoints s).1
  unfolding sync_to_checkpoint
  sync-IsSaved durable s h = durable s.prepared_claims_by_pod_uid s.disk (
      explain-ok "unable to sync to checkpoint: %v"
        (checkpoints.create_checkpoint checkpoint_file s.prepared_claims_by_pod_uid s.disk).0 h)

  delete_found-IsSaved :
      IsDurable
      → (o : Option String) (s : PodManager D) → IsSaved s
      → (delete_found checkpoints o s).0 ≡ ok tt
      → IsSaved (delete_found checkpoints o s).1
  delete_found-IsSaved durable none s saved h = saved
  delete_found-IsSaved durable (some pod) s saved h =
      sync-IsSaved durable
        (record s { prepared_claims_by_pod_uid = delete pod s.prepared_claims_by_pod_uid }) h

  -- Every operation that reports success leaves a state that is saved.
  pub run-IsSaved :
      IsDurable
      → (op : Op) (s : PodManager D) → IsSaved s
      → (run op s).0 ≡ ok tt
      → IsSaved (run op s).1
  unfolding run put delete_pod delete_claim update_prepared_device_network_data
  run-IsSaved durable (put_op pod claim devices) s saved h =
      sync-IsSaved durable
        (record s {
          prepared_claims_by_pod_uid =
              with_devices checkpoints pod claim devices s.prepared_claims_by_pod_uid;
        })
        h
  run-IsSaved durable (delete_pod_op pod) s saved h =
      sync-IsSaved durable
        (record s { prepared_claims_by_pod_uid = delete pod s.prepared_claims_by_pod_uid }) h
  run-IsSaved durable (delete_claim_op claim) s saved h =
      delete_found-IsSaved durable (pod_to_delete claim.uid s.prepared_claims_by_pod_uid) s saved h
  run-IsSaved durable (update_op none network_data) s saved h = saved
  run-IsSaved durable (update_op (some p) network_data) s saved h =
      sync-IsSaved durable
        (record s {
          prepared_claims_by_pod_uid =
              write_pods p.address (set_network_device_data network_data)
                s.prepared_claims_by_pod_uid;
        })
        h

  carried :
      IsDurable
      → (r : Result (Unit {0})) (rest : Result (Unit {0}) × PodManager D) (s : PodManager D)
      → (r ≡ ok tt → IsSaved s)
      → (IsSaved s → rest.0 ≡ ok tt → IsSaved rest.1)
      → (carry_on r rest s).0 ≡ ok tt
      → IsSaved (carry_on r rest s).1
  carried durable (ok tt) rest s now later h = later (now refl) h
  carried durable (err e) rest s now later h = ground arith
  carried durable panic rest s now later h = ground arith

  run_all-IsSaved :
      IsDurable
      → (ops : List Op) (s : PodManager D) → IsSaved s
      → (run_all ops s).0 ≡ ok tt
      → IsSaved (run_all ops s).1
  unfolding run_all
  run_all-IsSaved durable [] s saved h = saved
  run_all-IsSaved durable (op ∷ ops) s saved h =
      carried durable (run op s).0 (run_all ops (run op s).1) (run op s).1
        (λ done. run-IsSaved durable op s saved done)
        (λ saved' h'. run_all-IsSaved durable ops (run op s).1 saved' h') h

  restart-saved :
      (s : PodManager D) → IsSaved s → new_pod_manager checkpoints s.disk ≡ (ok s, s.disk)
  unfolding new_pod_manager
  restart-saved s saved = ground (arith, saved.listed, saved.has_file, saved.got)

  -- A restart after any run of operations that all report success, from a state that is saved,
  -- rebuilds exactly the state that the run left.
  pub restart-run_all :
      IsDurable
      → (ops : List Op) (s : PodManager D) → IsSaved s
      → (run_all ops s).0 ≡ ok tt
      → new_pod_manager checkpoints (run_all ops s).1.disk
        ≡ (ok (run_all ops s).1, (run_all ops s).1.disk)
  restart-run_all durable ops s saved h =
      restart-saved (run_all ops s).1 (run_all-IsSaved durable ops s saved h)
