-- ===== src/Api/Opaque/Spec.antt =====
-- What the map of opaque device configs holds (pkg/devicestate/statehelpers.go), said without
-- loops and without Override.
use k8snetworkplumbingwg_dra.Common.{
  String, Option, none, some, false, List, [], ◌∷◌, ◌++◌, ◌==◌, eq_string, if◌then◌else◌, Result,
  ok, err, panic, Map, lookup, insert, lookup-insert, ◌≡◌, refl, ◌∙◌, sym, ap, arith, contains,
  Bool-cases, inl, inr, map, ◌⊎◌, append-nil, append_assoc,
}
use k8snetworkplumbingwg_dra.Kube.{DeviceAllocationConfiguration, OpaqueConfiguration}
use k8snetworkplumbingwg_dra.Api.VfConfig.{VfConfig, default_vf_config, override, unless_empty}
use k8snetworkplumbingwg_dra.Api.Opaque.{
  driver_name, Decoded, vf_config, other_object, Decoder, Source, from_class, from_claim, source_of,
  collect, requests_of, or_default, override_requests, apply_decoded, apply_config, apply_configs,
  and_apply, apply_collected, apply_opaque, get_map_of_opaque_device_config_for_device,
}

-- The last text that is not empty.
unfoldable pub last_set : List String → String
last_set [] = ""
last_set (x ∷ xs) = unless_empty x (last_set xs)

-- The configs of a source, in order.
abbrev pick :
    Source
    → Option Source
    → DeviceAllocationConfiguration
    → List DeviceAllocationConfiguration
    → List DeviceAllocationConfiguration
pick from_class (some from_class) c rest = c ∷ rest
pick from_claim (some from_claim) c rest = c ∷ rest
pick s o c rest = rest

unfoldable pub of_source :
    Source → List DeviceAllocationConfiguration → List DeviceAllocationConfiguration
of_source s [] = []
of_source s (c ∷ cs) = pick s (source_of c.source) c (of_source s cs)

-- The configs that name the request, among those of this driver.
module _ (decoder : Decoder) (request : String) where
  abbrev decoded_for : List String → Result Decoded → List VfConfig → List VfConfig
  decoded_for requests (ok (vf_config vf)) rest =
      if contains (requests_of requests) request then vf ∷ rest else rest
  decoded_for requests (ok other_object) rest = rest
  decoded_for requests (err e) rest = rest
  decoded_for requests panic rest = rest

  abbrev named_by : List String → Option OpaqueConfiguration → List VfConfig → List VfConfig
  named_by requests none rest = rest
  named_by requests (some o) rest =
      if o.driver == driver_name then decoded_for requests (decoder o.parameters) rest else rest

  unfoldable pub requested : List DeviceAllocationConfiguration → List VfConfig
  requested [] = []
  requested (c ∷ cs) = named_by c.requests c.opaque (requested cs)

-- The config of a request, from the configs that name it.
unfoldable pub settled : List VfConfig → Option VfConfig
settled [] = none
settled (v ∷ vs) = some (record default_vf_config {
  driver = last_set (map (λ c. c.driver) (v ∷ vs));
  if_name = last_set (map (λ c. c.if_name) (v ∷ vs));
  net_attach_def_name = last_set (map (λ c. c.net_attach_def_name) (v ∷ vs));
})

source_cases : (o : Option Source) → (o ≡ none) ⊎ (o ≡ some from_class) ⊎ (o ≡ some from_claim)
source_cases none = inl refl
source_cases (some from_class) = inr (inl refl)
source_cases (some from_claim) = inr (inr refl)

collect-eq :
    (a b cs : List DeviceAllocationConfiguration) {l : List DeviceAllocationConfiguration}
    → collect a b cs ≡ ok l
    → l ≡ (a ++ of_source from_class cs) ++ (b ++ of_source from_claim cs)
unfolding collect of_source
collect-eq a b [] e = rw (append-nil, append-nil) (cc)
collect-eq a b (c ∷ cs) e = elim (source_cases (source_of c.source)) [
  | inl bad ↦ cc (rw (bad, collect) at e)
  | inr (inl class) ↦
      rw class (collect-eq (a ++ c ∷ []) b cs (rw (class, collect) at e) ∙ simp append_assoc)
  | inr (inr claim) ↦
      rw claim (collect-eq a (b ++ c ∷ []) cs (rw (claim, collect) at e) ∙ simp append_assoc)
]

-- What the configs `vs` make of the config of a request.
continue : Option VfConfig → List VfConfig → Option VfConfig
continue o [] = o
continue o (v ∷ vs) = continue (some (override (or_default o) v)) vs

unless_empty_idem : (x y : String) → unless_empty (unless_empty x y) y ≡ unless_empty x y
unless_empty_idem x y = ground arith

unless_empty_assoc :
    (x y z : String) → unless_empty (unless_empty x y) z ≡ unless_empty x (unless_empty y z)
unless_empty_assoc x y z = ground arith

override_idem : (c v : VfConfig) → override (override c v) v ≡ override c v
unfolding override
override_idem c v = cc (
  unless_empty_idem c.driver v.driver,
  unless_empty_idem c.if_name v.if_name,
  unless_empty_idem c.net_attach_def_name v.net_attach_def_name,
)

lookup-override_requests :
    (vf : VfConfig) (requests : List String) (m : Map String VfConfig) (r : String)
    → lookup r (override_requests vf requests m)
      ≡ (if contains requests r then some (override (or_default (lookup r m)) vf) else lookup r m)
unfolding override_requests
lookup-override_requests vf [] m r = refl
lookup-override_requests vf (q ∷ qs) m r =
    let v = override (or_default (lookup q m)) vf in
    ground (
      arith,
      lookup-override_requests vf qs (insert q v m) r,
      lookup-insert q r v m,
      eq_string.beq_iff q r,
      override_idem (or_default (lookup r m)) vf,
    )

and_apply-eq-ok :
    (res : Result (Map String VfConfig)) (f : Map String VfConfig → Result (Map String VfConfig))
    {m : Map String VfConfig}
    → and_apply res f ≡ ok m
    → (m₁ : Map String VfConfig) × (res ≡ ok m₁) × (f m₁ ≡ ok m)
and_apply-eq-ok (ok a) f e = (a, refl, e)
and_apply-eq-ok (err d) f e = cc
and_apply-eq-ok panic f e = cc

module _ (decoder : Decoder) (r : String) where
  apply_decoded-lookup :
      (requests : List String) (d : Result Decoded) (m : Map String VfConfig)
      {m' : Map String VfConfig} (vs : List VfConfig)
      → apply_decoded decoder requests d m ≡ ok m'
      → continue (lookup r m') vs ≡ continue (lookup r m) (decoded_for decoder r requests d vs)
  unfolding continue
  apply_decoded-lookup requests (err d) m vs e = cc
  apply_decoded-lookup requests panic m vs e = cc
  apply_decoded-lookup requests (ok other_object) m vs e = cc
  apply_decoded-lookup requests (ok (vf_config vf)) m vs e =
      let found = lookup-override_requests vf (requests_of requests) m r in
      elim (Bool-cases (contains (requests_of requests) r)) [
        | inl named ↦ let now = rw named at found in rw named (cc now)
        | inr other ↦ let now = rw other at found in rw other (cc now)
      ]

  -- One config of the candidate list, as seen from request `r`.
  apply_opaque-lookup :
      (requests : List String) (o : Option OpaqueConfiguration) (m : Map String VfConfig)
      {m' : Map String VfConfig} (vs : List VfConfig)
      → apply_opaque decoder requests o m ≡ ok m'
      → continue (lookup r m') vs ≡ continue (lookup r m) (named_by decoder r requests o vs)
  apply_opaque-lookup requests none m vs e = cc
  apply_opaque-lookup requests (some o) m vs e = elim (Bool-cases (o.driver == driver_name)) [
    | inl own ↦ rw own (apply_decoded-lookup requests (decoder o.parameters) m vs (rw own at e))
    | inr other ↦ let same = rw other at e in rw other (cc same)
  ]

  apply_configs-lookup :
      (cs : List DeviceAllocationConfiguration) (m : Map String VfConfig) {m' : Map String VfConfig}
      → apply_configs decoder cs m ≡ ok m'
      → lookup r m' ≡ continue (lookup r m) (requested decoder r cs)
  unfolding apply_configs apply_config requested continue
  apply_configs-lookup [] m e = cc
  apply_configs-lookup (c ∷ cs) m e =
      let (m₁, first, rest) = and_apply-eq-ok (apply_opaque decoder c.requests c.opaque m) _ e in
      apply_configs-lookup cs m₁ rest
      ∙ apply_opaque-lookup c.requests c.opaque m (requested decoder r cs) first

-- A running Override keeps the last text that is not empty.
continue-settled :
    (c : VfConfig) (vs : List VfConfig)
    → continue (some c) vs
      ≡ some (record c {
        driver = unless_empty c.driver (last_set (map (λ v. v.driver) vs));
        if_name = unless_empty c.if_name (last_set (map (λ v. v.if_name) vs));
        net_attach_def_name =
            unless_empty c.net_attach_def_name (last_set (map (λ v. v.net_attach_def_name) vs));
      })
unfolding continue last_set override
continue-settled c [] = refl
continue-settled c (v ∷ vs) =
    continue-settled (override c v) vs
    ∙ cc (
      unless_empty_assoc c.driver v.driver (last_set (map (λ x. x.driver) vs)),
      unless_empty_assoc c.if_name v.if_name (last_set (map (λ x. x.if_name) vs)),
      unless_empty_assoc c.net_attach_def_name v.net_attach_def_name
          (last_set (map (λ x. x.net_attach_def_name) vs)),
    )

unless_empty-nil : (x : String) → unless_empty "" x ≡ x
unless_empty-nil x = ground (arith, eq_string.beq_iff x "")

continue-none : (vs : List VfConfig) → continue none vs ≡ settled vs
unfolding continue settled override last_set
continue-none [] = refl
continue-none (v ∷ vs) =
    continue-settled (override default_vf_config v) vs ∙ simp (unless_empty-nil)

apply_collected-eq-ok :
    (decoder : Decoder) (res : Result (List DeviceAllocationConfiguration))
    {m : Map String VfConfig}
    → apply_collected decoder res ≡ ok m
    → (l : List DeviceAllocationConfiguration) × (res ≡ ok l) × (apply_configs decoder l [] ≡ ok m)
apply_collected-eq-ok decoder (ok l) e = (l, refl, e)
apply_collected-eq-ok decoder (err d) e = cc
apply_collected-eq-ok decoder panic e = cc

-- If the configs of a claim are accepted, a request has a config exactly when some config of this
-- driver names it (one without requests names the request ""), and then its driver, interface
-- name and network attachment are the last ones that are not empty, class configs counting before
-- claim configs; everything else is the default.
pub get_map-settled :
    (decoder : Decoder) (configs : List DeviceAllocationConfiguration) (request : String)
    {m : Map String VfConfig}
    → get_map_of_opaque_device_config_for_device decoder configs ≡ ok m
    → lookup request m
      ≡ settled
          (requested decoder request (of_source from_class configs ++ of_source from_claim configs))
unfolding get_map_of_opaque_device_config_for_device lookup
get_map-settled decoder configs request e =
    let (l, collected, applied) = apply_collected-eq-ok decoder (collect [] [] configs) e in
    apply_configs-lookup decoder request l [] applied
    ∙ continue-none (requested decoder request l)
    ∙ ap (λ cs. settled (requested decoder request cs)) (collect-eq [] [] configs collected)

settled-drops :
    (vs : List VfConfig) {c : VfConfig}
    → settled vs ≡ some c
    → (c.add_vhost_mount ≡ false) × (c.net_attach_def_namespace ≡ "")
unfolding settled
settled-drops [] e = cc
settled-drops (v ∷ vs) e = (cc, cc)

-- No config that the map holds asks for the vhost mount or names a namespace for the network
-- attachment, whatever the claim's configs say: Override does not take these two fields over.
pub get_map-drops :
    (decoder : Decoder) (configs : List DeviceAllocationConfiguration) (request : String)
    {m : Map String VfConfig} {c : VfConfig}
    → get_map_of_opaque_device_config_for_device decoder configs ≡ ok m
    → lookup request m ≡ some c
    → (c.add_vhost_mount ≡ false) × (c.net_attach_def_namespace ≡ "")
get_map-drops decoder configs request e found =
    settled-drops _ (sym (get_map-settled decoder configs request e) ∙ found)
