-- ===== src/Common/GoMap.antt =====
-- A Go map as an association list. The order of the list stands for the order of one iteration,
-- which Go leaves open: what is proved of every list is proved of every order.
use mathlib.Core.Path.{◌≡◌, refl}
use mathlib.Core.Bool.{Bool}
use mathlib.Core.Option.{Option, none, some}
use mathlib.Core.List.{List, [], ◌∷◌}
use native.Mathlib.Omega.{arith}
use k8snetworkplumbingwg_dra.Common.Tests.{Eq, ◌==◌, if◌then◌else◌, is_some}

abbrev pub Map : Type 0 → Type 0 → Type 0
Map K V = List (K × V)

module _ {K V : Type 0} ⦃e : Eq K⦄ where
  -- `v, ok := m[k]`
  unfoldable pub lookup : K → Map K V → Option V
  lookup key [] = none
  lookup key ((own, value) ∷ rest) = if own == key then some value else lookup key rest

  -- `_, ok := m[k]`
  abbrev pub has_key : K → Map K V → Bool
  has_key k m = is_some (lookup k m)

  -- `m[k] = v`
  unfoldable pub insert : K → V → Map K V → Map K V
  insert key value [] = (key, value) ∷ []
  insert key value ((own, old) ∷ rest) =
      if own == key then (own, value) ∷ rest else (own, old) ∷ insert key value rest

  -- `delete(m, k)`
  unfoldable pub delete : K → Map K V → Map K V
  delete k [] = []
  delete k ((j, w) ∷ m) = let rest = delete k m in if j == k then rest else (j, w) ∷ rest

  pub lookup-cons :
      (k j : K) (v : V) (m : Map K V)
      → lookup k ((j, v) ∷ m) ≡ (if j == k then some v else lookup k m)
  unfolding lookup
  lookup-cons k j v m = refl

  pub lookup-insert :
      (key wanted : K) (value : V) (entries : Map K V)
      → lookup wanted (insert key value entries)
        ≡ (if key == wanted then some value else lookup wanted entries)
  unfolding insert lookup
  lookup-insert key wanted value [] = refl
  lookup-insert key wanted value ((own, old) ∷ entries) = ground (
    arith,
    lookup-insert key wanted value entries,
    e.beq_iff own key,
    e.beq_iff own wanted,
    e.beq_iff key wanted,
  )

  pub lookup-delete :
      (k j : K) (m : Map K V) → lookup j (delete k m) ≡ (if k == j then none else lookup j m)
  unfolding lookup delete
  lookup-delete k j [] = ground arith
  lookup-delete k j ((i, w) ∷ m) =
      ground (arith, e.beq_iff k j, e.beq_iff i k, e.beq_iff i j, lookup-delete k j m)

-- The keys, in the order of the iteration.
abbrev pub keys : {K V : Type 0} → Map K V → List K
keys [] = []
keys ((k, v) ∷ m) = k ∷ keys m
