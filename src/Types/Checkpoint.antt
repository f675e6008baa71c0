-- ===== src/Types/Checkpoint.antt =====
-- pkg/types/types.go: the checkpoint and its checksum. JSON and the kubelet's checksum package are
-- arguments.
mod Tests
use k8snetworkplumbingwg_dra.Common.{
  String, ℕ, List, [], Result, ok, err, panic, ◌≡◌, refl, ap, ◌∙◌, arith,
}
use k8snetworkplumbingwg_dra.Types.Prepared.{PreparedClaimsByPodUid}

pub record CheckpointV1 : Type 0 where
  pub prepared_claims_by_pod_uid : PreparedClaimsByPodUid

pub record Checkpoint : Type 0 where
  pub checksum : ℕ
  pub v1 : CheckpointV1

unfoldable pub new_checkpoint : Checkpoint
new_checkpoint = record { checksum = 0; v1 = record { prepared_claims_by_pod_uid = [] } }

-- `unmarshal` is json.Unmarshal into a given checkpoint, `new_checksum` is checksum.New, `verify` is
-- the method Verify of a checksum.
pub record Codec : Type 0 where
  pub marshal : Checkpoint → Result String
  pub unmarshal : String → Checkpoint → Result Checkpoint
  pub new_checksum : String → ℕ
  pub verify : ℕ → String → Result (Unit {0})

module _ (codec : Codec) where
  abbrev sealed : Checkpoint → Result String → Result String × Checkpoint
  sealed cp (ok out) =
      let cp' = record cp { checksum = codec.new_checksum out } in (codec.marshal cp', cp')
  sealed cp (err e) = (err e, cp)
  sealed cp panic = (panic, cp)

  -- The receiver is changed: the second result is what it holds afterwards.
  unfoldable pub marshal_checkpoint : Checkpoint → Result String × Checkpoint
  marshal_checkpoint cp =
      let zeroed = record cp { checksum = 0 } in sealed zeroed (codec.marshal zeroed)

  unfoldable pub unmarshal_checkpoint : String → Checkpoint → Result Checkpoint
  unmarshal_checkpoint bytes cp = codec.unmarshal bytes cp

  abbrev checked : ℕ → Result String → Result (Unit {0})
  checked ck (ok out) = codec.verify ck out
  checked ck (err e) = err e
  checked ck panic = panic

  -- The checksum that is set to zero for the marshalling is restored at the end.
  unfoldable pub verify_checksum : Checkpoint → Result (Unit {0})
  verify_checksum cp = checked cp.checksum (codec.marshal (record cp { checksum = 0 }))

  module _
      (reads : (cp : Checkpoint) (bytes : String)
        → codec.marshal cp ≡ ok bytes
        → codec.unmarshal bytes new_checkpoint ≡ ok cp)
      (verifies : (bytes : String) → codec.verify (codec.new_checksum bytes) bytes ≡ ok tt) where
    sealed-verifies :
        (cp : Checkpoint) (r : Result String) (bytes : String)
        → codec.marshal (record cp { checksum = 0 }) ≡ r
        → (sealed (record cp { checksum = 0 }) r).0 ≡ ok bytes
        → (read : Checkpoint) × ((unmarshal_checkpoint bytes new_checkpoint ≡ ok read)
            × ((read.v1 ≡ cp.v1) × (verify_checksum read ≡ ok tt)))
    unfolding unmarshal_checkpoint verify_checksum
    sealed-verifies cp (ok out) bytes e h = (
      record cp { checksum = codec.new_checksum out },
      (
        reads (record cp { checksum = codec.new_checksum out }) bytes h,
        (refl, ap (checked (codec.new_checksum out)) e ∙ verifies out),
      ),
    )
    sealed-verifies cp (err x) bytes e h = absurd (ground (arith, h))
    sealed-verifies cp panic bytes e h = absurd (ground (arith, h))

    -- What MarshalCheckpoint writes is read into a new checkpoint with the same claims, and its
    -- checksum is accepted.
    pub verify_checksum-marshal_checkpoint :
        (cp : Checkpoint) (bytes : String)
        → (marshal_checkpoint cp).0 ≡ ok bytes
        → (read : Checkpoint) × ((unmarshal_checkpoint bytes new_checkpoint ≡ ok read)
            × ((read.v1 ≡ cp.v1) × (verify_checksum read ≡ ok tt)))
    unfolding marshal_checkpoint
    verify_checksum-marshal_checkpoint cp bytes h =
        sealed-verifies cp (codec.marshal (record cp { checksum = 0 })) bytes refl h
