-- ===== src/Common/Effects.antt =====
-- The state after a chain of actions.
use mathlib.Core.Path.{◌≡◌, refl, ◌∙◌}
use k8snetworkplumbingwg_dra.Common.Outcome.{Result, ok, err, panic, Action, ◌>>=◌, and_then}

-- The action leaves the state as it is.
abbrev pub Keeps : {S A : Type 0} → Action S A → Type 0
Keeps {S} m = (s : S) → (m s).1 ≡ s

module _ {S A B : Type 0} where
  and_then-state :
      (f : A → Action S B) (r : Result A) (s : S) → ((a : A) → Keeps (f a)) → (and_then r f s).1 ≡ s
  and_then-state f (ok a) s h = h a s
  and_then-state f (err e) s h = refl
  and_then-state f panic s h = refl

  -- What follows an action and keeps its state.
  pub bind-state :
      (m : Action S A) (f : A → Action S B) (s : S)
      → ((a : A) → Keeps (f a))
      → ((m >>= f) s).1 ≡ (m s).1
  bind-state m f s h = and_then-state f (m s).0 (m s).1 h

  pub bind-Keeps :
      (m : Action S A) (f : A → Action S B) → Keeps m → ((a : A) → Keeps (f a)) → Keeps (m >>= f)
  bind-Keeps m f k h s = bind-state m f s h ∙ k s

module _ {S A B C : Type 0} where
  and_then-same :
      (f : A → Action S B) (g : A → Action S C) (r : Result A) (s : S)
      → ((a : A) (t : S) → (f a t).1 ≡ (g a t).1)
      → (and_then r f s).1 ≡ (and_then r g s).1
  and_then-same f g (ok a) s h = h a s
  and_then-same f g (err e) s h = refl
  and_then-same f g panic s h = refl

  -- Two continuations that end in the same state.
  pub bind-same :
      (m : Action S A) (f : A → Action S B) (g : A → Action S C) (s : S)
      → ((a : A) (t : S) → (f a t).1 ≡ (g a t).1)
      → ((m >>= f) s).1 ≡ ((m >>= g) s).1
  bind-same m f g s h = and_then-same f g (m s).0 (m s).1 h

-- What is seen of the state does not change.
module _ {S X : Type 0} (seen : S → X) where
  abbrev pub Preserves : {A : Type 0} → Action S A → Type 0
  Preserves m = (s : S) → seen (m s).1 ≡ seen s

  pub and_then-seen :
      {A B : Type 0} (f : A → Action S B) (r : Result A) (s : S)
      → ((a : A) → Preserves (f a))
      → seen (and_then r f s).1 ≡ seen s
  and_then-seen f (ok a) s h = h a s
  and_then-seen f (err e) s h = refl
  and_then-seen f panic s h = refl

  pub bind-Preserves :
      {A B : Type 0} (m : Action S A) (f : A → Action S B)
      → Preserves m
      → ((a : A) → Preserves (f a))
      → Preserves (m >>= f)
  bind-Preserves m f k h s = and_then-seen f (m s).0 (m s).1 h ∙ k s
