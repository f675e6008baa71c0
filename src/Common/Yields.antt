-- ===== src/Common/Yields.antt =====
-- What an action yields when it returns a value.
use mathlib.Core.Path.{◌≡◌, refl}
use k8snetworkplumbingwg_dra.Common.Outcome.{
  Result, ok, err, panic, Error, Action, ◌>>=◌, and_then, map_err, attempt,
}

abbrev pub OnOk : {A : Type 0} → Result A → (A → Type 0) → Type 0
OnOk (ok a) P = P a
OnOk (err e) P = Unit
OnOk panic P = Unit

-- If the action returns a value, then the value and the state satisfy Q.
abbrev pub Yields : {W A : Type 0} → Action W A → W → (A → W → Type 0) → Type 0
Yields m w Q = OnOk (m w).0 (λ a. Q a (m w).1)

module _ {W A B : Type 0} (f : A → Action W B) (Q : B → W → Type 0) where
  yields-and_then :
      (r : Result A) (w : W)
      → OnOk r (λ a. Yields (f a) w Q)
      → OnOk (and_then r f w).0 (λ b. Q b (and_then r f w).1)
  yields-and_then (ok a) w h = h
  yields-and_then (err e) w h = tt
  yields-and_then panic w h = tt

  pub yields-bind :
      (m : Action W A) (w : W) → Yields m w (λ a w'. Yields (f a) w' Q) → Yields (m >>= f) w Q
  yields-bind m w h = yields-and_then (m w).0 (m w).1 h

pub on_ok-any : {A : Type 0} (P : A → Type 0) (r : Result A) → ((a : A) → P a) → OnOk r P
on_ok-any P (ok a) h = h a
on_ok-any P (err e) h = tt
on_ok-any P panic h = tt

pub on_ok-map :
    {A : Type 0} (P Q : A → Type 0) (r : Result A) → ((a : A) → P a → Q a) → OnOk r P → OnOk r Q
on_ok-map P Q (ok a) f h = f a h
on_ok-map P Q (err e) f h = tt
on_ok-map P Q panic f h = tt

-- After an action of which nothing is needed.
pub yields-after :
    {W A B : Type 0} (f : A → Action W B) (Q : B → W → Type 0) (m : Action W A) (w : W)
    → ((a : A) (w' : W) → Yields (f a) w' Q)
    → Yields (m >>= f) w Q
yields-after f Q m w h =
    yields-bind f Q m w (on_ok-any (λ a. Yields (f a) (m w).1 Q) (m w).0 (λ a. h a (m w).1))

mapped :
    {A : Type 0} (g : Error → Error) (P : A → Type 0) (r : Result A)
    → OnOk r P
    → OnOk (elim r [ err e ↦ err (g e) | other ↦ other ]) P
mapped g P (ok a) h = h
mapped g P (err e) h = tt
mapped g P panic h = tt

pub yields-map_err :
    {W A : Type 0} (g : Error → Error) (Q : A → W → Type 0) (m : Action W A) (w : W)
    → Yields m w Q
    → Yields (map_err g m) w Q
yields-map_err g Q m w h = mapped g (λ a. Q a (m w).1) (m w).0 h

attempted :
    {A : Type 0} (Q : Result A → Type 0) (r : Result A)
    → ((x : Result A) → r ≡ x → Q x)
    → OnOk (elim r [ panic ↦ panic | other ↦ ok other ]) Q
attempted Q (ok a) h = h (ok a) refl
attempted Q (err e) h = h (err e) refl
attempted Q panic h = tt

-- An attempt yields what the action returned.
pub yields-attempt :
    {S A : Type 0} (Q : Result A → S → Type 0) (m : Action S A) (s : S)
    → ((x : Result A) → (m s).0 ≡ x → Q x (m s).1)
    → Yields (attempt m) s Q
yields-attempt Q m s h = attempted (λ x. Q x (m s).1) (m s).0 h
