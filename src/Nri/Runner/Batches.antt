-- ===== src/Nri/Runner/Batches.antt =====
-- What the groups of a batch come to for one device (pkg/nri/nri.go: groupNetworkDataByClaim and the
-- loop of updateNetworkDeviceData).
use k8snetworkplumbingwg_dra.Common.{
  String, Option, none, some, Bool, true, false, not, ℕ, List, [], ◌∷◌, ◌++◌, Map, lookup, insert,
  lookup-insert, lookup-cons, if◌then◌else◌, ◌==◌, ◌&&◌, eq_nat, eq_string, eq→path, ==_refl,
  Bool-cases, inl, inr, ◌≡◌, refl, sym, ap, ◌∙◌, subst, arith, if_intro, All,
}
use k8snetworkplumbingwg_dra.Kube.{NetworkDeviceData}
use k8snetworkplumbingwg_dra.Types.Prepared.{PreparedDevice}
use k8snetworkplumbingwg_dra.Nri.Updates.{
  NetworkData, Key, eq_key, or_nil, claim_key, add_item, group_into, group_network_data_by_claim,
}
use k8snetworkplumbingwg_dra.Nri.Groups.{
  items_of, lookup-group_network_data_by_claim, lookup-no_key,
}
use k8snetworkplumbingwg_dra.Nri.Stored.{
  is_at, last_data, with_data, refreshed, or_this, last_data-cons,
}

-- `uid_at` are the UIDs of the claims that the API server has, by namespace and name; `owner` is the
-- claim of the object at each address.
module _ (uid_at : String → String → String) (owner : ℕ → Key) where
  -- The update is for the claim that the API server has.
  abbrev pub is_current : Key → Bool
  is_current key = not (not (key.third == "") && not (uid_at key.first key.second == key.third))

  -- The effect of the groups, one after the other.
  unfoldable pub by_groups : Map Key (List NetworkData) → PreparedDevice → PreparedDevice
  by_groups [] p = p
  by_groups ((key, items) ∷ groups) p =
      by_groups groups (if is_current key then refreshed items p else p)

  abbrev pub if_current :
      Key → Option (Option NetworkDeviceData) → Option (Option NetworkDeviceData)
  if_current key held = if is_current key then held else none

  -- The device with the last data that the batch has for it, if its claim is current.
  abbrev pub updated : List (Option NetworkData) → PreparedDevice → PreparedDevice
  updated items p =
      with_data
        (if_current (owner p.address) (last_data p.address (items_of (owner p.address) items))) p

  -- The groups are a map, and an update stands in the group of the claim that owns its object.
  abbrev Foreign : Key → List NetworkData → Type 0
  Foreign key items = (a : ℕ) → (key == owner a) ≡ false → last_data a items ≡ none

  abbrev Grouped : Map Key (List NetworkData) → Type 0
  Grouped [] = Unit
  Grouped ((key, items) ∷ groups) =
      (lookup key groups ≡ none) × (Foreign key items × Grouped groups)

  if_current-none : (key : Key) → if_current key none ≡ none
  if_current-none key =
      if_intro (λ (d : Option (Option NetworkDeviceData)). d ≡ none) (is_current key) (λ _. refl)
        (λ _. refl)

  abbrev group_data : Map Key (List NetworkData) → ℕ → Option (Option NetworkDeviceData)
  group_data groups a = if_current (owner a) (last_data a (or_nil (lookup (owner a) groups)))

  group_data-none :
      (groups : Map Key (List NetworkData)) (a : ℕ)
      → lookup (owner a) groups ≡ none
      → group_data groups a ≡ none
  unfolding last_data
  group_data-none groups a e =
      ap (λ o. if_current (owner a) (last_data a (or_nil o))) e ∙ if_current-none (owner a)

  same_address :
      (b : Bool) (held : Option (Option NetworkDeviceData)) (p : PreparedDevice)
      → (if b then with_data held p else p).address ≡ p.address
  same_address true none p = refl
  same_address true (some d) p = refl
  same_address false held p = refl

  if-with_data :
      (b : Bool) (held : Option (Option NetworkDeviceData)) (p : PreparedDevice)
      → (if b then with_data held p else p) ≡ with_data (if b then held else none) p
  if-with_data true held p = refl
  if-with_data false held p = refl

  by_groups-value :
      (groups : Map Key (List NetworkData)) (p : PreparedDevice)
      → Grouped groups
      → by_groups groups p ≡ with_data (group_data groups p.address) p
  unfolding by_groups
  by_groups-value [] p h =
      ap (λ d. with_data d p) (sym (group_data-none [] p.address (lookup-no_key (owner p.address))))
  by_groups-value ((key, items) ∷ groups) p (fresh, (foreign, rest)) =
      let q = if is_current key then refreshed items p else p in
      let a = p.address in
      elim (Bool-cases (key == owner a)) [
        | inl own ↦
            let same = eq→path key (owner a) own in
            by_groups-value groups q rest
            ∙ (ap (λ d. with_data d q)
                  (group_data-none groups q.address (
                    ap (λ b. lookup (owner b) groups)
                      (same_address (is_current key) (last_data a items) p)
                    ∙ (ap (λ k. lookup k groups) (sym same) ∙ fresh)))
                ∙ (if-with_data (is_current key) (last_data a items) p
                    ∙ (ap (λ k. with_data (if_current k (last_data a items)) p) same
                        ∙ ap (λ o. with_data (if_current (owner a) (last_data a (or_nil o))) p)
                            (sym (
                              lookup-cons (owner a) key items groups
                              ∙ ap (λ b. if b then some items else lookup (owner a) groups) own)))))
        | inr other ↦
            ap (by_groups groups) (
              if-with_data (is_current key) (last_data a items) p
              ∙ (ap (λ d. with_data (if_current key d) p) (foreign a other)
                  ∙ ap (λ d. with_data d p) (if_current-none key)))
            ∙ (by_groups-value groups p rest
                ∙ ap (λ o. with_data (if_current (owner a) (last_data a (or_nil o))) p)
                    (sym (
                      lookup-cons (owner a) key items groups
                      ∙ ap (λ b. if b then some items else lookup (owner a) groups) other)))
      ]

  insert-Grouped :
      (key : Key) (items : List NetworkData) (groups : Map Key (List NetworkData))
      → Foreign key items
      → Grouped groups
      → Grouped (insert key items groups)
  unfolding insert
  insert-Grouped key items [] f h = (lookup-no_key key, (f, tt))
  insert-Grouped key items ((own, old) ∷ groups) f (fresh, (foreign, rest)) =
      if_intro Grouped (own == key)
        (λ e. (fresh, (subst (λ k. Foreign k items) (sym (eq→path own key e)) f, rest)))
        (λ e. (
          lookup-insert key own items groups
              ∙ ground (arith, e, fresh, eq_key.beq_iff own key, eq_key.beq_iff key own),
          (foreign, insert-Grouped key items groups f rest),
        ))

  or_this-none :
      (b : Bool) (d : Option NetworkDeviceData) (later : Option (Option NetworkDeviceData))
      → or_this b d later ≡ none
      → (later ≡ none) × (b ≡ false)
  or_this-none true d none h = absurd (ground (arith, h))
  or_this-none false d none h = (refl, refl)
  or_this-none b d (some l) h = absurd (ground (arith, h))

  last_data-append :
      (a : ℕ) (xs ys : List NetworkData)
      → last_data a xs ≡ none
      → last_data a ys ≡ none
      → last_data a (xs ++ ys) ≡ none
  last_data-append a [] ys hx hy = hy
  last_data-append a (x ∷ xs) ys hx hy =
      let (later, away) =
        or_this-none (is_at a x.prepared_device) x.network_device_data (last_data a xs)
          (sym (last_data-cons a x xs) ∙ hx) in
      last_data-cons a x (xs ++ ys)
      ∙ (ap (or_this (is_at a x.prepared_device) x.network_device_data)
            (last_data-append a xs ys later hy)
          ∙ ap (λ b. or_this b x.network_device_data none) away)

  lookup-Foreign :
      (key : Key) (groups : Map Key (List NetworkData))
      → Grouped groups
      → Foreign key (or_nil (lookup key groups))
  unfolding last_data
  lookup-Foreign key [] h a e =
      ap (λ o. last_data a (or_nil o)) (lookup-no_key {V = List NetworkData} key)
  lookup-Foreign key ((own, items) ∷ groups) (fresh, (foreign, rest)) a e =
      ap (λ o. last_data a (or_nil o)) (lookup-cons key own items groups)
      ∙ if_intro (λ (o : Option (List NetworkData)). last_data a (or_nil o) ≡ none) (own == key)
          (λ same. foreign a (ap (λ k. k == owner a) (eq→path own key same) ∙ e))
          (λ _. lookup-Foreign key groups rest a e)

  -- The update's object belongs to the claim that its device names.
  abbrev pub IsOwned : Option NetworkData → Type 0
  IsOwned none = Unit
  IsOwned (some item) =
      (p : PreparedDevice)
      → item.prepared_device ≡ some p
      → claim_key p.claim_namespaced_name ≡ owner p.address

  elsewhere : (key : Key) (a b : ℕ) → key ≡ owner b → (key == owner a) ≡ false → (a == b) ≡ false
  elsewhere key a b owns other = elim (Bool-cases (a == b)) [
    | inl same ↦ absurd (
        ground (
          arith,
          other,
          ap (λ k. k == owner a) (owns ∙ ap owner (sym (eq→path a b same))) ∙ ==_refl (owner a),
        ))
    | inr differs ↦ differs
  ]

  one-Foreign :
      (item : NetworkData) (p : PreparedDevice)
      → item.prepared_device ≡ some p
      → claim_key p.claim_namespaced_name ≡ owner p.address
      → Foreign (claim_key p.claim_namespaced_name) (item ∷ [])
  unfolding last_data
  one-Foreign item p e owns a other =
      ap (λ o. or_this (is_at a o) item.network_device_data none) e
      ∙ ap (λ b. or_this b item.network_device_data none)
          (elsewhere (claim_key p.claim_namespaced_name) a p.address owns other)

  add_item-Grouped :
      (o : Option PreparedDevice) (item : NetworkData) (groups : Map Key (List NetworkData))
      → item.prepared_device ≡ o
      → IsOwned (some item)
      → Grouped groups
      → Grouped (add_item o item groups)
  add_item-Grouped none item groups e owns h = h
  add_item-Grouped (some p) item groups e owns h =
      let key = claim_key p.claim_namespaced_name in
      insert-Grouped key (or_nil (lookup key groups) ++ item ∷ []) groups
        (λ a other.
          last_data-append a (or_nil (lookup key groups)) (item ∷ [])
            (lookup-Foreign key groups h a other) (one-Foreign item p e (owns p e) a other))
        h

  group_into-Grouped :
      (items : List (Option NetworkData)) (groups : Map Key (List NetworkData))
      → All IsOwned items
      → Grouped groups
      → Grouped (group_into items groups)
  unfolding group_into
  group_into-Grouped [] groups owns h = h
  group_into-Grouped (none ∷ items) groups owns h = group_into-Grouped items groups owns.1 h
  group_into-Grouped (some item ∷ items) groups owns h =
      group_into-Grouped items (add_item item.prepared_device item groups) owns.1
        (add_item-Grouped item.prepared_device item groups refl owns.0 h)

  -- Grouping a batch and handling its groups one by one is what `updated` says.
  pub by_groups-updated :
      (items : List (Option NetworkData)) (p : PreparedDevice)
      → All IsOwned items
      → by_groups (group_network_data_by_claim items) p ≡ updated items p
  unfolding group_network_data_by_claim
  by_groups-updated items p owns =
      by_groups-value (group_into items []) p (group_into-Grouped items [] owns tt)
      ∙ ap (λ xs. with_data (if_current (owner p.address) (last_data p.address xs)) p)
          (lookup-group_network_data_by_claim (owner p.address) items)
