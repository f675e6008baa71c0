-- ===== src/Controller/Filter/Spec.antt =====
-- What a resource filter asks of a device (pkg/controller/resourcepolicycontroller.go).
use k8snetworkplumbingwg_dra.Common.{
  String, Option, none, some, true, false, List, [], ◌∷◌, contains, eq_string, ◌≡◌, refl, ◌↔◌, ◌⊎◌,
  inl, inr, arith, Bool-cases,
}
use k8snetworkplumbingwg_dra.Kube.{Device}
use k8snetworkplumbingwg_dra.Consts.{
  attribute_vendor_id, attribute_device_id, attribute_pci_address, attribute_pf_name,
  attribute_pf_pci_address, attribute_link_type,
}
use k8snetworkplumbingwg_dra.Controller.Objects.{ResourceFilter, normalize_link_type}
use k8snetworkplumbingwg_dra.Controller.Filter.{
  blocked, link_blocked, value_at, device_matches_filter, some_filter_matches,
  device_matches_filters,
}

-- An empty list asks nothing; else the value is there and is listed.
abbrev pub Listed : List String → Option String → Type 0
Listed [] v = Unit
Listed (w ∷ ws) none = ⊥
Listed (w ∷ ws) (some x) = contains (w ∷ ws) x ≡ true

-- An empty link type asks nothing; else the value is its normal form.
abbrev pub HasLink : String → Option String → Type 0
HasLink wanted v = (wanted ≡ "") ⊎ (v ≡ some (normalize_link_type wanted))

-- The six criteria that the code checks. README.md documents a filter's list of drivers as a seventh,
-- which the code does not read.
pub record Satisfies (device : Device) (filter : ResourceFilter) : Type 0 where
  pub vendor : Listed filter.vendors (value_at device attribute_vendor_id)
  pub id : Listed filter.devices (value_at device attribute_device_id)
  pub pci : Listed filter.pci_addresses (value_at device attribute_pci_address)
  pub pf_name : Listed filter.pf_names (value_at device attribute_pf_name)
  pub pf_pci : Listed filter.pf_pci_addresses (value_at device attribute_pf_pci_address)
  pub link : HasLink filter.link_type (value_at device attribute_link_type)

blocked_iff :
    (wanted : List String) (v : Option String) → (blocked wanted v ≡ false) ↔ Listed wanted v
unfolding blocked
blocked_iff [] v = (λ _. tt, λ _. refl)
blocked_iff (w ∷ ws) none = (λ e. cc, λ h. elim h [ ])
blocked_iff (w ∷ ws) (some x) = (λ e. ground arith, λ e. rw e)

link_blocked_iff :
    (wanted : String) (v : Option String) → (link_blocked wanted v ≡ false) ↔ HasLink wanted v
unfolding link_blocked
link_blocked_iff wanted none = ground (arith, eq_string.beq_iff wanted "")
link_blocked_iff wanted (some x) =
    ground (arith, eq_string.beq_iff wanted "", eq_string.beq_iff (normalize_link_type wanted) x)

-- A device passes a filter exactly when it meets the six criteria: each non-empty list of wanted
-- values contains the device's string value of the attribute, and a link type, if one is given,
-- has the device's as its normal form.
pub device_matches_filter_iff :
    (device : Device) (filter : ResourceFilter)
    → (device_matches_filter device filter ≡ true) ↔ Satisfies device filter
unfolding device_matches_filter
device_matches_filter_iff device filter =
    let vendor = blocked_iff filter.vendors (value_at device attribute_vendor_id) in
    let id = blocked_iff filter.devices (value_at device attribute_device_id) in
    let pci = blocked_iff filter.pci_addresses (value_at device attribute_pci_address) in
    let pf_name = blocked_iff filter.pf_names (value_at device attribute_pf_name) in
    let pf_pci = blocked_iff filter.pf_pci_addresses (value_at device attribute_pf_pci_address) in
    let link = link_blocked_iff filter.link_type (value_at device attribute_link_type) in
    (
      λ e. record {
        vendor = vendor.0 (ground arith);
        id = id.0 (ground arith);
        pci = pci.0 (ground arith);
        pf_name = pf_name.0 (ground arith);
        pf_pci = pf_pci.0 (ground arith);
        link = link.0 (ground arith);
      },
      λ h. rw (vendor.1 h.vendor) (
          rw (id.1 h.id) (
            rw (pci.1 h.pci)
              (rw (pf_name.1 h.pf_name) (rw (pf_pci.1 h.pf_pci) (rw (link.1 h.link)))))),
    )

-- Whether some filter of the list is met.
abbrev pub MeetsSome : Device → List ResourceFilter → Type 0
MeetsSome device [] = ⊥
MeetsSome device (f ∷ fs) = Satisfies device f ⊎ MeetsSome device fs

some_filter_matches_iff :
    (device : Device) (filters : List ResourceFilter)
    → (some_filter_matches device filters ≡ true) ↔ MeetsSome device filters
unfolding some_filter_matches
some_filter_matches_iff device [] = (λ e. cc, λ h. elim h [ ])
some_filter_matches_iff device (f ∷ fs) =
    let here = device_matches_filter_iff device f in
    let there = some_filter_matches_iff device fs in
    elim (Bool-cases (device_matches_filter device f)) [
      | inl matched ↦ rw matched (λ e. inl (here.0 matched), λ h. refl)
      | inr missed ↦
          rw missed
            (λ e. inr (there.0 e), λ h. elim h [ inl s ↦ cc (here.1 s) | inr m ↦ there.1 m ])
    ]

-- A device passes a list of filters exactly when the list is empty or it meets the six criteria of some
-- filter of it, whatever drivers the filter lists.
pub device_matches_filters_iff :
    (device : Device) (filters : List ResourceFilter)
    → (device_matches_filters device filters ≡ true) ↔ ((filters ≡ []) ⊎ MeetsSome device filters)
unfolding device_matches_filters
device_matches_filters_iff device [] = (λ e. inl refl, λ h. refl)
device_matches_filters_iff device (f ∷ fs) =
    let some_matches = some_filter_matches_iff device (f ∷ fs) in
    (λ e. inr (some_matches.0 e), λ h. elim h [ inl e ↦ cc | inr m ↦ some_matches.1 m ])
