-- ===== src/Nri/Groups.antt =====
-- Which items a claim's group holds (pkg/nri/nri.go: groupNetworkDataByClaim).
use k8snetworkplumbingwg_dra.Common.{
  Option, none, some, Bool, true, false, List, [], ◌∷◌, ◌++◌, if◌then◌else◌, ◌==◌, Map, lookup,
  lookup-insert, ◌≡◌, refl, sym, ◌∙◌, ap, append-nil, append_assoc, Bool-cases, inl, inr, eq→path,
}
use k8snetworkplumbingwg_dra.Types.Prepared.{PreparedDevice}
use k8snetworkplumbingwg_dra.Nri.Updates.{
  NetworkData, Key, eq_key, or_nil, append_at, claim_key, add_item, group_into,
  group_network_data_by_claim,
}

abbrev is_for : Key → Option PreparedDevice → Bool
is_for k none = false
is_for k (some p) = claim_key p.claim_namespaced_name == k

-- The items of a claim: those whose prepared device is there and belongs to it, in order.
unfoldable pub items_of : Key → List (Option NetworkData) → List NetworkData
items_of k [] = []
items_of k (none ∷ items) = items_of k items
items_of k (some item ∷ items) =
    let rest = items_of k items in if is_for k item.prepared_device then item ∷ rest else rest

abbrev pub singleton_if : {A : Type 0} → Bool → A → List A
singleton_if true x = x ∷ []
singleton_if false x = []

pub lookup-append_at :
    {A : Type 0} (key k : Key) (x : A) (m : Map Key (List A))
    → or_nil (lookup k (append_at key x m)) ≡ or_nil (lookup k m) ++ singleton_if (key == k) x
lookup-append_at key k x m = elim (Bool-cases (key == k)) [
  | inl e ↦
      ap or_nil (lookup-insert key k (or_nil (lookup key m) ++ x ∷ []) m)
      ∙ (ap (λ b. or_nil (if b then some (or_nil (lookup key m) ++ x ∷ []) else lookup k m)) e
          ∙ (ap (λ j. or_nil (lookup j m) ++ x ∷ []) (eq→path key k e)
              ∙ ap (λ b. or_nil (lookup k m) ++ singleton_if b x) (sym e)))
  | inr e ↦
      ap or_nil (lookup-insert key k (or_nil (lookup key m) ++ x ∷ []) m)
      ∙ (ap (λ b. or_nil (if b then some (or_nil (lookup key m) ++ x ∷ []) else lookup k m)) e
          ∙ (sym (append-nil (or_nil (lookup k m)))
              ∙ ap (λ b. or_nil (lookup k m) ++ singleton_if b x) (sym e)))
]

lookup-add_item :
    (k : Key) (o : Option PreparedDevice) (item : NetworkData) (m : Map Key (List NetworkData))
    → or_nil (lookup k (add_item o item m)) ≡ or_nil (lookup k m) ++ singleton_if (is_for k o) item
lookup-add_item k none item m = sym (append-nil (or_nil (lookup k m)))
lookup-add_item k (some p) item m = lookup-append_at (claim_key p.claim_namespaced_name) k item m

singleton_if-append :
    {A : Type 0} (b : Bool) (x : A) (xs : List A)
    → singleton_if b x ++ xs ≡ (if b then x ∷ xs else xs)
singleton_if-append true x xs = refl
singleton_if-append false x xs = refl

lookup-group_into :
    (k : Key) (items : List (Option NetworkData)) (m : Map Key (List NetworkData))
    → or_nil (lookup k (group_into items m)) ≡ or_nil (lookup k m) ++ items_of k items
unfolding group_into items_of
lookup-group_into k [] m = sym (append-nil (or_nil (lookup k m)))
lookup-group_into k (none ∷ items) m = lookup-group_into k items m
lookup-group_into k (some item ∷ items) m =
    lookup-group_into k items (add_item item.prepared_device item m)
    ∙ (ap (λ xs. xs ++ items_of k items) (lookup-add_item k item.prepared_device item m)
        ∙ (append_assoc (or_nil (lookup k m)) (singleton_if (is_for k item.prepared_device) item)
              (items_of k items)
            ∙ ap (λ xs. or_nil (lookup k m) ++ xs)
                (singleton_if-append (is_for k item.prepared_device) item (items_of k items))))

pub lookup-no_key : {V : Type 0} (k : Key) → lookup {V = V} k [] ≡ none
unfolding lookup
lookup-no_key k = refl

-- A claim's group holds exactly the items of its prepared devices, in their order; items that are
-- nil or have no prepared device are in no group.
pub lookup-group_network_data_by_claim :
    (k : Key) (items : List (Option NetworkData))
    → or_nil (lookup k (group_network_data_by_claim items)) ≡ items_of k items
unfolding group_network_data_by_claim
lookup-group_network_data_by_claim k items =
    lookup-group_into k items []
    ∙ ap (λ o. or_nil o ++ items_of k items) (lookup-no_key {V = List NetworkData} k)
