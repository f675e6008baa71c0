-- ===== src/Driver/Start/Registered.antt =====
-- When the driver's start succeeds (pkg/driver/driver.go: waitForRegistration).
use k8snetworkplumbingwg_dra.Common.{
  ℕ, zero, suc, Result, Option, none, some, Bool, true, not, List, [], ◌∷◌, ◌++◌, ◌==◌, eq_string,
  ok, ◌≡◌, ◌↔◌, refl, ap, ◌∙◌, arith, All, Bool-cases, inl, inr, ◌&&◌,
}
use k8snetworkplumbingwg_dra.Driver.Start.{
  RegistrationStatus, Ready, timed_out, ticked, after_round, wait_rounds, wait_for_registration,
}

-- A tick at which the plugin is not registered and reports no error.
abbrev pub is_quiet : Option RegistrationStatus → Bool
is_quiet none = true
is_quiet (some status) = not status.plugin_registered && status.error == ""

abbrev pub Quiet : Option RegistrationStatus → Type 0
Quiet tick = is_quiet tick ≡ true

-- The plugin is reported as registered before the timeout and before any error.
abbrev pub Reports : List (Option RegistrationStatus) → Type 0
Reports ticks =
    (before : List (Option RegistrationStatus)) × ((status : RegistrationStatus) × ((later : List
          (Option RegistrationStatus))
        × ((ticks ≡ before ++ some status ∷ later)
            × (All Quiet before × (status.plugin_registered ≡ true)))))

one_more :
    (tick : Option RegistrationStatus) (ticks : List (Option RegistrationStatus))
    → Quiet tick
    → Reports ticks
    → Reports (tick ∷ ticks)
one_more tick ticks quiet (before, (status, (later, (split, (all, registered))))) =
    (tick ∷ before, (status, (later, (ap (λ ts. tick ∷ ts) split, ((quiet, all), registered)))))

wait-Reports :
    (ticks : List (Option RegistrationStatus)) → wait_for_registration ticks ≡ ok tt → Reports ticks
unfolding wait_for_registration
wait-Reports [] h = absurd (ground (arith, h))
wait-Reports (none ∷ ticks) h = one_more none ticks refl (wait-Reports ticks h)
wait-Reports (some status ∷ ticks) h = elim (Bool-cases status.plugin_registered) [
  | inl registered ↦ ([], (status, (ticks, (refl, (tt, registered)))))
  | inr unregistered ↦ elim (Bool-cases (status.error == "")) [
    | inl no_error ↦
        one_more (some status) ticks (ground (arith, unregistered, no_error))
          (wait-Reports ticks (ground (arith, h, unregistered, no_error)))
    | inr some_error ↦ absurd (ground (arith, h, unregistered, some_error))
  ]
]

wait-Quiet :
    (before rest : List (Option RegistrationStatus))
    → All Quiet before
    → wait_for_registration rest ≡ ok tt
    → wait_for_registration (before ++ rest) ≡ ok tt
unfolding wait_for_registration
wait-Quiet [] rest quiet h = h
wait-Quiet (none ∷ before) rest quiet h = wait-Quiet before rest quiet.1 h
wait-Quiet (some status ∷ before) rest quiet h =
    ground (arith, quiet.0, wait-Quiet before rest quiet.1 h)

Reports-wait :
    (ticks : List (Option RegistrationStatus)) → Reports ticks → wait_for_registration ticks ≡ ok tt
unfolding wait_for_registration
Reports-wait ticks (before, (status, (later, (split, (all, registered))))) =
    ap wait_for_registration split
    ∙ wait-Quiet before (some status ∷ later) all (ground (arith, registered))

-- The ticks' outcome is a success exactly if, before any tick at which the kubelet reports an error, a
-- tick reports the plugin as registered.
wait_for_registration-succeeds :
    (ticks : List (Option RegistrationStatus))
    → (wait_for_registration ticks ≡ ok tt) ↔ Reports ticks
wait_for_registration-succeeds ticks = (wait-Reports ticks, Reports-wait ticks)

abbrev before_round : Ready → List (Option RegistrationStatus) → List (Option RegistrationStatus)
before_round timed_out rest = []
before_round (ticked status) rest = status ∷ rest

-- The statuses at the ticks before the first timeout, and before the round `last`.
unfoldable pub ticks_before : ℕ → (ℕ → Ready) → List (Option RegistrationStatus)
ticks_before zero ready = []
ticks_before (suc last) ready =
    let rest = ticks_before last (λ n. ready (suc n)) in before_round (ready 0) rest

after_round-some :
    (taken : Ready) (rest : List (Option RegistrationStatus))
    → after_round taken (some (wait_for_registration rest))
      ≡ some (wait_for_registration (before_round taken rest))
unfolding wait_for_registration
after_round-some timed_out rest = refl
after_round-some (ticked none) rest = refl
after_round-some (ticked (some status)) rest = elim (Bool-cases status.plugin_registered) [
  | inl registered ↦ ground (arith, registered)
  | inr unregistered ↦ elim (Bool-cases (status.error == "")) [
    | inl no_error ↦ ground (arith, unregistered, no_error)
    | inr some_error ↦ ground (arith, unregistered, some_error)
  ]
]

wait_rounds-ticks :
    (last : ℕ) (ready : ℕ → Ready)
    → ready last ≡ timed_out
    → wait_rounds (suc last) ready ≡ some (wait_for_registration (ticks_before last ready))
unfolding wait_rounds ticks_before wait_for_registration
wait_rounds-ticks zero ready e = ap (λ t. after_round t none) e
wait_rounds-ticks (suc last) ready e =
    ap (after_round (ready 0)) (wait_rounds-ticks last (λ n. ready (suc n)) e)
    ∙ after_round-some (ready 0) (ticks_before last (λ n. ready (suc n)))

-- If the timeout is taken in some round, then the loop has ended after that round, whatever the earlier
-- rounds take; and it ends without an error exactly if a tick before the first timeout, and before any
-- tick at which the kubelet reports an error, reports the plugin as registered.
pub wait_rounds-ends :
    (last : ℕ) (ready : ℕ → Ready)
    → ready last ≡ timed_out
    → (result : Result (Unit {0})) × ((wait_rounds (suc last) ready ≡ some result)
        × ((result ≡ ok tt) ↔ Reports (ticks_before last ready)))
wait_rounds-ends last ready e = (
  wait_for_registration (ticks_before last ready),
  (wait_rounds-ticks last ready e, wait_for_registration-succeeds (ticks_before last ready)),
)
