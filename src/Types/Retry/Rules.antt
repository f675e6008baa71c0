-- ===== src/Types/Retry/Rules.antt =====
-- Rules for a run of attempts (pkg/types/statusretry.go).
use k8snetworkplumbingwg_dra.Common.{
  Bool, true, false, ◌≡◌, refl, ℕ, suc, zero, Error, Result, ok, err, panic, Action,
}
use k8snetworkplumbingwg_dra.Types.Retry.{resume, attempts}

module _ {S : Type 0} (P : S → Type 0) where
  resume_inv :
      (r : Result Bool) (more : Action S (Unit {0})) (s : S)
      → P s
      → (P s → P (more s).1)
      → P (resume r more s).1
  resume_inv (ok true) more s h next = h
  resume_inv (ok false) more s h next = next h
  resume_inv (err e) more s h next = h
  resume_inv panic more s h next = h

module _ {S : Type 0} (attempt : Action S Bool) (P : S → Type 0)
    (keep : (s : S) → P s → P (attempt s).1) where
  -- What every attempt keeps holds after the run.
  pub attempts_inv : (n : ℕ) (timeout : Error) (s : S) → P s → P (attempts n timeout attempt s).1
  unfolding attempts
  attempts_inv zero timeout s h = h
  attempts_inv (suc n) timeout s h =
      let (r, s') = attempt s in
      resume_inv P r (attempts n timeout attempt) s' (keep s h) (attempts_inv n timeout s')

  module _ (Q : S → Type 0) (done : (s : S) → P s → (attempt s).0 ≡ ok true → Q (attempt s).1) where
    resume_done :
        (r : Result Bool) (more : Action S (Unit {0})) (s : S)
        → (r ≡ ok true → Q s)
        → ((more s).0 ≡ ok tt → Q (more s).1)
        → (resume r more s).0 ≡ ok tt
        → Q (resume r more s).1
    resume_done (ok true) more s stop next e = stop refl
    resume_done (ok false) more s stop next e = next e
    resume_done (err d) more s stop next e = cc
    resume_done panic more s stop next e = cc

    -- A run that succeeds ends with an attempt that was done.
    pub attempts_done :
        (n : ℕ) (timeout : Error) (s : S)
        → P s
        → (attempts n timeout attempt s).0 ≡ ok tt
        → Q (attempts n timeout attempt s).1
    unfolding attempts
    attempts_done zero timeout s h e = cc
    attempts_done (suc n) timeout s h e =
        let (r, s') = attempt s in
        resume_done r (attempts n timeout attempt) s' (done s h)
          (attempts_done n timeout s' (keep s h)) e
