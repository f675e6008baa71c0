-- ===== src/Api/Opaque.antt =====
-- pkg/devicestate/statehelpers.go: the map from request names to configs that a claim's opaque
-- configs describe. The decoder is the API machinery's.
pub mod Spec
mod Tests
use k8snetworkplumbingwg_dra.Common.{
  String, Option, none, some, Bool, true, false, not, List, [], ◌∷◌, ◌++◌, ◌==◌, eq_string,
  if◌then◌else◌, Error, plain, wrap, Result, ok, err, panic, Map, lookup, insert,
}
use k8snetworkplumbingwg_dra.Kube.{DeviceAllocationConfiguration, OpaqueConfiguration}
use k8snetworkplumbingwg_dra.Api.VfConfig.{VfConfig, default_vf_config, override}

abbrev pub driver_name : String
driver_name = "sriovnetwork.k8snetworkplumbingwg.io"

-- What a decoded object is, as the type assertion sees it.
pub data Decoded : Type 0 where
  vf_config : VfConfig → Decoded
  other_object : Decoded

abbrev pub Decoder : Type 0
Decoder = String → Result Decoded

pub data Source : Type 0 where
  from_class from_claim : Source

unfoldable pub source_of : String → Option Source
source_of s =
    if s == "FromClass" then some from_class else if s == "FromClaim" then some from_claim else none

-- The first loop, and the candidate list after it: class configs, then claim configs.
unfoldable pub collect :
    List DeviceAllocationConfiguration
    → List DeviceAllocationConfiguration
    → List DeviceAllocationConfiguration
    → Result (List DeviceAllocationConfiguration)
collect class_configs claim_configs [] = ok (class_configs ++ claim_configs)
collect class_configs claim_configs (config ∷ configs) = elim (source_of config.source) [
  | none ↦ err (plain "invalid config source")
  | some from_class ↦ collect (class_configs ++ config ∷ []) claim_configs configs
  | some from_claim ↦ collect class_configs (claim_configs ++ config ∷ []) configs
]

-- An empty list of requests stands for all requests, under the name "".
abbrev pub requests_of : List String → List String
requests_of [] = "" ∷ []
requests_of (r ∷ rs) = r ∷ rs

abbrev pub or_default : Option VfConfig → VfConfig
or_default none = default_vf_config
or_default (some c) = c

-- The innermost loop.
unfoldable pub override_requests :
    VfConfig → List String → Map String VfConfig → Map String VfConfig
override_requests vf [] m = m
override_requests vf (request ∷ requests) m =
    override_requests vf requests (insert request (override (or_default (lookup request m)) vf) m)

abbrev pub and_apply :
    Result (Map String VfConfig)
    → (Map String VfConfig → Result (Map String VfConfig))
    → Result (Map String VfConfig)
and_apply (ok m) rest = rest m
and_apply (err e) rest = err e
and_apply panic rest = panic

module _ (decoder : Decoder) where
  abbrev pub apply_decoded :
      List String → Result Decoded → Map String VfConfig → Result (Map String VfConfig)
  apply_decoded requests (err e) m = err (wrap "error decoding config parameters" e)
  apply_decoded requests panic m = panic
  apply_decoded requests (ok other_object) m = err (plain "decoded config is not a VfConfig")
  apply_decoded requests (ok (vf_config vf)) m = ok (override_requests vf (requests_of requests) m)

  abbrev pub apply_opaque :
      List String → Option OpaqueConfiguration → Map String VfConfig → Result (Map String VfConfig)
  apply_opaque requests none m = err (plain "only opaque parameters are supported by this driver")
  apply_opaque requests (some opaque) m =
      if not (opaque.driver == driver_name)
      then ok m
      else apply_decoded requests (decoder opaque.parameters) m

  -- One round of the second loop.
  unfoldable pub apply_config :
      DeviceAllocationConfiguration → Map String VfConfig → Result (Map String VfConfig)
  apply_config config m = apply_opaque config.requests config.opaque m

  unfoldable pub apply_configs :
      List DeviceAllocationConfiguration → Map String VfConfig → Result (Map String VfConfig)
  apply_configs [] m = ok m
  apply_configs (config ∷ configs) m = and_apply (apply_config config m) (apply_configs configs)

  abbrev pub apply_collected :
      Result (List DeviceAllocationConfiguration) → Result (Map String VfConfig)
  apply_collected (ok candidates) = apply_configs candidates []
  apply_collected (err e) = err e
  apply_collected panic = panic

  unfoldable pub get_map_of_opaque_device_config_for_device :
      List DeviceAllocationConfiguration → Result (Map String VfConfig)
  get_map_of_opaque_device_config_for_device possible_configs =
      apply_collected (collect [] [] possible_configs)
