-- ===== src/Common/Outcome.antt =====
-- Go errors, the outcome of a call (a value, an error or a panic), and actions on a state.
use mathlib.Core.Option.{Option, none, some}
use mathlib.Core.List.{List, [], ◌∷◌}
use Prim.Native.String.{String}

-- The reasons of an API status error that the code tells apart.
pub data Reason : Type 0 where
  conflict invalid forbidden not_found unclassified : Reason

-- `plain` is a new error, `api` one that the API server returned, `wrap` is `fmt.Errorf` with %w,
-- `quote` is `fmt.Errorf` with %v (the cause is text only), `join` is `errors.Join`.
-- Arguments that only fill the message are left out.
pub data Error : Type 0 where
  plain : String → Error
  api : Reason → Error
  wrap : String → Error → Error
  quote : String → Error → Error
  join : Error → Error → Error
  joined : Error → Error

-- `if len(errs) > 0 { return errors.Join(errs...) }; return nil`
abbrev pub join_all : List Error → Option Error
join_all [] = none
join_all (e ∷ rest) = elim (join_all rest) [ none ↦ some (joined e) | some j ↦ some (join e j) ]

pub data Result {ℓ} (A : Type ℓ) : Type ℓ where
  ok : A → Result A
  err : Error → Result A
  panic : Result A

abbrev pub Action : Type 0 → Type 0 → Type 0
Action S A = S → Result A × S

abbrev pub and_then {ℓ} : {S B : Type 0} {A : Type ℓ} → Result A → (A → Action S B) → Action S B
and_then (ok a) f s = f a s
and_then (err e) f s = (err e, s)
and_then panic f s = (panic, s)

infixl 5 ◌>>=◌ ◌>>◌
abbrev pub ◌>>=◌ : {S A B : Type 0} → Action S A → (A → Action S B) → Action S B
◌>>=◌ m f s = let (r, s') = m s in and_then r f s'

abbrev pub ◌>>◌ : {S A B : Type 0} → Action S A → Action S B → Action S B
m >> k = m >>= λ _. k

module _ {S A : Type 0} where
  abbrev pub pure : A → Action S A
  pure a s = (ok a, s)

  abbrev pub throw : Error → Action S A
  throw e s = (err e, s)

  abbrev pub crash : Action S A
  crash s = (panic, s)

  -- `if err != nil { return …, g(err) }`
  abbrev pub map_err : (Error → Error) → Action S A → Action S A
  map_err g m s = let (r, s') = m s in (elim r [ err e ↦ err (g e) | other ↦ other ], s')

  -- A call whose error the caller looks at: the error is a value.
  abbrev pub attempt : Action S A → Action S (Result A)
  attempt m s = let (r, s') = m s in (elim r [ panic ↦ panic | other ↦ ok other ], s')

-- Dereference of a pointer.
abbrev pub deref : {S A : Type 0} → Option A → Action S A
deref none = crash
deref (some a) = pure a
