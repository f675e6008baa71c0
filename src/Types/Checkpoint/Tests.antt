-- ===== src/Types/Checkpoint/Tests.antt =====
-- A checkpoint without claims, in a format that has checksums of one bit.
use k8snetworkplumbingwg_dra.Common.{
  String, ℕ, zero, suc, [], if◌then◌else◌, ◌==◌, eq_string, Result, ok, err, plain, ◌≡◌, refl,
}
use k8snetworkplumbingwg_dra.Types.Prepared.{PreparedClaimsByPodUid}
use k8snetworkplumbingwg_dra.Types.Checkpoint.{
  Checkpoint, Codec, new_checkpoint, marshal_checkpoint, verify_checksum,
}

abbrev encode : ℕ → PreparedClaimsByPodUid → Result String
encode zero [] = ok "plain"
encode (suc zero) [] = ok "sealed"
encode ck claims = err (plain "too large")

abbrev decode : String → Checkpoint → Result Checkpoint
decode s cp = ok (record {
  checksum = if s == "plain" then 0 else 1;
  v1 = record { prepared_claims_by_pod_uid = [] };
})

abbrev accept : ℕ → String → Result (Unit {0})
accept (suc zero) s = ok tt
accept ck s = err (plain "checkpoint is corrupted")

abbrev codec : Codec
codec = record {
  marshal = λ cp. encode cp.checksum cp.v1.prepared_claims_by_pod_uid;
  unmarshal = decode;
  new_checksum = λ s. 1;
  verify = accept;
}

-- A checkpoint without a checksum is refused.
unsealed : verify_checksum codec new_checkpoint ≡ err (plain "checkpoint is corrupted")
unfolding verify_checksum new_checkpoint
unsealed = refl

-- What is written for it is read with a checksum that is accepted.
sealed : (marshal_checkpoint codec new_checkpoint).0 ≡ ok "sealed"
unfolding marshal_checkpoint new_checkpoint
sealed = refl

accepted : verify_checksum codec (record new_checkpoint { checksum = 1 }) ≡ ok tt
unfolding verify_checksum new_checkpoint
accepted = refl
