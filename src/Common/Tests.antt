-- ===== src/Common/Tests.antt =====
-- Conditionals, Boolean equality as an interface, case lemmas, and lengths over the native numbers.
use Prim.Native.Nat.{ℕ, suc, compare, Ordering}
use Prim.Native.String.{String}
use mathlib.Core.Path.{◌≡◌, refl}
use mathlib.Core.Logic.{◌↔◌, ◌⊎◌, inl, inr}
use mathlib.Core.Bool.{Bool, true, false}
use mathlib.Core.Option.{Option, none, some}
use mathlib.Core.List.{List, [], ◌∷◌}
use native.Mathlib.Omega.{arith}
use text.Mathlib.Text.{◌==◌ as str_eq}
use text.Mathlib.TextEquality.{eq_iff}

infix 1 if◌then◌else◌
abbrev pub if◌then◌else◌ {ℓ} : {A : Type ℓ} → Bool → A → A → A
if true then x else y = x
if false then x else y = y

abbrev pub nat_eq : ℕ → ℕ → Bool
nat_eq a b = elim (compare a b) [ Ordering.eq ↦ true | _ ↦ false ]

pub nat_eq_iff : (a b : ℕ) → (nat_eq a b ≡ true) ↔ (a ≡ b)
nat_eq_iff a b = ground arith

abbrev pub ltb : ℕ → ℕ → Bool
ltb a b = elim (compare a b) [ Ordering.lt ↦ true | _ ↦ false ]

-- Go's `==` on a comparable type.
pub record Eq (A : Type 0) : Type 0 where
  pub beq : A → A → Bool
  pub beq_iff : (a b : A) → (beq a b ≡ true) ↔ (a ≡ b)

infix 50 ◌==◌
abbrev pub ◌==◌ : {A : Type 0} ⦃e : Eq A⦄ → A → A → Bool
◌==◌ ⦃e⦄ = e.beq

instance abbrev pub eq_nat : Eq ℕ
eq_nat = record { beq = nat_eq; beq_iff = nat_eq_iff }

instance abbrev pub eq_string : Eq String
eq_string = record { beq = str_eq; beq_iff = eq_iff }

module _ {A : Type 0} ⦃e : Eq A⦄ where
  pub eq→path : (a b : A) → (a == b) ≡ true → a ≡ b
  eq→path a b h = (e.beq_iff a b).0 h

  pub path→eq : (a b : A) → a ≡ b → (a == b) ≡ true
  path→eq a b h = (e.beq_iff a b).1 h

  pub ==_refl : (a : A) → (a == a) ≡ true
  ==_refl a = (e.beq_iff a a).1 refl

-- To split on a computed value and keep the equation.
pub Bool-cases : (b : Bool) → (b ≡ true) ⊎ (b ≡ false)
Bool-cases true = inl refl
Bool-cases false = inr refl

pub if_intro {ℓ κ} :
    {A : Type ℓ} (P : A → Type κ) (b : Bool) {x y : A}
    → (b ≡ true → P x)
    → (b ≡ false → P y)
    → P (if b then x else y)
if_intro P true px py = px refl
if_intro P false px py = py refl

pub Option-cases {ℓ} : {A : Type ℓ} (o : Option A) → (o ≡ none) ⊎ ((a : A) × (o ≡ some a))
Option-cases none = inl refl
Option-cases (some a) = inr (a, refl)

abbrev pub is_some {ℓ} : {A : Type ℓ} → Option A → Bool
is_some none = false
is_some (some _) = true

abbrev pub length {ℓ} : {A : Type ℓ} → List A → ℕ
length [] = 0
length (x ∷ xs) = suc (length xs)

-- `P` of every element; computes to tuples.
abbrev pub All {ℓ κ} : {A : Type ℓ} → (A → Type κ) → List A → Type κ
All P [] = Unit
All P (x ∷ xs) = P x × All P xs

-- A loop that returns `true` at the first element that passes.
abbrev pub contains : List String → String → Bool
contains [] a = false
contains (x ∷ xs) a = if str_eq x a then true else contains xs a

unfoldable pub option_eq : {A : Type 0} → (A → A → Bool) → Option A → Option A → Bool
option_eq eq none none = true
option_eq eq (some a) (some b) = eq a b
option_eq eq _ _ = false

pub option_eq_iff :
    {A : Type 0} (eq : A → A → Bool)
    → ((a b : A) → (eq a b ≡ true) ↔ (a ≡ b))
    → (o p : Option A) → (option_eq eq o p ≡ true) ↔ (o ≡ p)
unfolding option_eq
option_eq_iff eq iff none none = ground arith
option_eq_iff eq iff (some a) (some b) = ground (arith, iff a b)
option_eq_iff eq iff none (some b) = ground arith
option_eq_iff eq iff (some a) none = ground arith
