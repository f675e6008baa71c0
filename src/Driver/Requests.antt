-- ===== src/Driver/Requests.antt =====
-- pkg/driver/dra_hook.go: PrepareResourceClaims with its rollback, and UnprepareResourceClaims.
mod Tests
use k8snetworkplumbingwg_dra.Common.{
  String, Option, none, some, List, [], ◌∷◌, if◌then◌else◌, ◌==◌, eq_string, Map, lookup, insert,
  Result, ok, err, panic, Error, plain, wrap, join, joined, join_all, Action, ◌>>=◌, pure, throw,
  crash, attempt,
}
use k8snetworkplumbingwg_dra.Kube.{ResourceClaim, NamespacedObject}
use k8snetworkplumbingwg_dra.Consts.{attribute_pci_address}
use k8snetworkplumbingwg_dra.Types.Prepared.{PreparedDevices, KubeletPluginDevice}
use k8snetworkplumbingwg_dra.PodManager.Store.{CheckpointManager, get_devices_by_pod_uid}
use k8snetworkplumbingwg_dra.DeviceState.DeviceInfo.{string_value}
use k8snetworkplumbingwg_dra.Driver.Hook.{
  Driver, DeviceState, object_of, prepare_resource_claim, unprepare_resource_claim, on_world,
}

unfoldable pub first_pod_uid : List ResourceClaim → String
first_pod_uid [] = ""
first_pod_uid (claim ∷ claims) =
    let rest = first_pod_uid claims in elim claim.reserved_for [ [] ↦ rest | uid ∷ _ ↦ uid ]

module _ {W D : Type 0} (checkpoints : CheckpointManager D) (state : DeviceState W) where
  -- A map from claim UIDs to results.
  unfoldable pub unprepare_each :
      List NamespacedObject
      → Map String (Result (Unit {0}))
      → Action (Driver W D) (Map String (Result (Unit {0})))
  unprepare_each [] result = pure result
  unprepare_each (claim ∷ claims) result =
      attempt (unprepare_resource_claim checkpoints state claim) >>= λ r.
      unprepare_each claims (insert claim.uid r result)

  unfoldable pub unprepare_resource_claims :
      List NamespacedObject → Action (Driver W D) (Map String (Result (Unit {0})))
  unprepare_resource_claims claims = unprepare_each claims []

  abbrev failed_rollback : Result (Unit {0}) → List Error → List Error
  failed_rollback (err e) es = wrap "failed to rollback claim %s: %w" e ∷ es
  failed_rollback (ok _) es = es
  failed_rollback panic es = es

  unfoldable pub rollback_each : List ResourceClaim → Action (Driver W D) (List Error)
  rollback_each [] = pure []
  rollback_each (claim ∷ claims) =
      attempt (unprepare_resource_claim checkpoints state (object_of claim)) >>= λ r.
      rollback_each claims >>= λ es. pure (failed_rollback r es)

  abbrev rollback_result : List Error → Action (Driver W D) (Unit {0})
  rollback_result es s = (elim (join_all es) [ none ↦ ok tt | some e ↦ err e ], s)

  unfoldable pub rollback_prepared_claims : List ResourceClaim → Action (Driver W D) (Unit {0})
  rollback_prepared_claims claims = rollback_each claims >>= rollback_result

  unfoldable pub prepare_each :
      List ResourceClaim
      → Map String (Result (List KubeletPluginDevice))
      → Action (Driver W D) (Map String (Result (List KubeletPluginDevice)))
  prepare_each [] result = pure result
  prepare_each (claim ∷ claims) result =
      attempt (prepare_resource_claim checkpoints state claim) >>= λ r.
      prepare_each claims (insert claim.uid r result)

  abbrev joined_with : String → Error → Result (Unit {0}) → Error
  joined_with text base (err e) = join base (joined (wrap text e))
  joined_with text base (ok _) = base
  joined_with text base panic = base

  -- The error of the call as a whole, after a rollback.
  abbrev pub fail_after_rollback :
      {A : Type 0} → List ResourceClaim → String → Error → Action (Driver W D) A
  fail_after_rollback claims text base =
      attempt (rollback_prepared_claims claims) >>= λ r. throw (joined_with text base r)

  -- The loop over the pod's devices.
  unfoldable pub pci_addresses : PreparedDevices → Result (List String)
  pci_addresses [] = ok []
  pci_addresses (none ∷ ps) = panic
  pci_addresses (some p ∷ ps) =
      let rest = pci_addresses ps in
      elim (state.get_allocatable_device_by_name p.device.device_name) [
        | none ↦ err (plain "device not found for device name %s")
        | some device ↦ elim (string_value (lookup attribute_pci_address device.attributes)) [
          | none ↦ panic
          | some address ↦ elim rest [
            | ok more ↦ ok (address ∷ more)
            | err e ↦ err e
            | panic ↦ panic
          ]
        ]
      ]

  abbrev pub after_spec : List ResourceClaim → Result (Unit {0}) → Action (Driver W D) (Unit {0})
  after_spec claims (err e) =
      fail_after_rollback claims "cleanup failed after global spec error: %w"
        (wrap "error creating global spec file for pod: %w" e)
  after_spec claims panic = crash
  after_spec claims (ok _) = pure tt

  abbrev pub write_pod_spec :
      List ResourceClaim → String → Result (List String) → Action (Driver W D) (Unit {0})
  write_pod_spec claims pod panic = crash
  write_pod_spec claims pod (err e) =
      fail_after_rollback claims "cleanup failed after prepare error: %w" e
  write_pod_spec claims pod (ok addresses) =
      attempt (on_world checkpoints state (state.create_global_pod_spec_file pod addresses))
      >>= after_spec claims

  -- The second part of PrepareResourceClaims.
  abbrev pub finish_devices :
      List ResourceClaim → String → Option PreparedDevices → Action (Driver W D) (Unit {0})
  finish_devices claims pod none = throw (plain "no prepared devices found for pod %s")
  finish_devices claims pod (some ps) = write_pod_spec claims pod (pci_addresses ps)

  abbrev pub finish_pod : List ResourceClaim → String → Action (Driver W D) (Unit {0})
  finish_pod claims pod s =
      if pod == ""
      then (err (plain "no pod info found for prepared claims"), s)
      else finish_devices claims pod (get_devices_by_pod_uid pod s.pods) s

  -- The results of the claims, and the error of the call as a whole.
  unfoldable pub prepare_resource_claims :
      List ResourceClaim
      → Action (Driver W D) (Map String (Result (List KubeletPluginDevice)) × Result (Unit {0}))
  prepare_resource_claims [] s = (ok ([], ok tt), s)
  prepare_resource_claims (claim ∷ claims) s =
      (prepare_each (claim ∷ claims) [] >>= λ result.
      attempt (finish_pod (claim ∷ claims) (first_pod_uid (claim ∷ claims))) >>= λ r.
      pure (result, r))
        (record s { if_name_index = 0 })
