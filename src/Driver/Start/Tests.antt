-- ===== src/Driver/Start/Tests.antt =====
-- A plugin that is registered at the second tick, and a timeout.
use k8snetworkplumbingwg_dra.Common.{
  ℕ, zero, suc, Result, Option, none, some, true, false, List, [], ◌∷◌, ok, err, plain, ◌≡◌, ◌↔◌,
  refl,
}
use k8snetworkplumbingwg_dra.Driver.Start.{
  RegistrationStatus, Ready, timed_out, ticked, wait_rounds, wait_for_registration,
}
use k8snetworkplumbingwg_dra.Driver.Start.Registered.{Reports, ticks_before, wait_rounds-ends}

abbrev ticks : List (Option RegistrationStatus)
ticks =
    none
    ∷ some (record { plugin_registered = true; error = "" })
    ∷ some (record { plugin_registered = false; error = "gone" })
    ∷ []

-- A status at each tick, then the timeout.
abbrev ready : ℕ → Ready
ready zero = ticked none
ready (suc zero) = ticked (some (record { plugin_registered = true; error = "" }))
ready (suc (suc n)) = timed_out

-- The loop ends in the second round.
second : wait_rounds 2 ready ≡ some (ok tt)
unfolding wait_rounds
second = refl

wait_rounds-ends_example :
    (result : Result (Unit {0})) × ((wait_rounds 3 ready ≡ some result)
      × ((result ≡ ok tt) ↔ Reports (ticks_before 2 ready)))
wait_rounds-ends_example = wait_rounds-ends 2 ready refl

in_time : wait_for_registration ticks ≡ ok tt
unfolding wait_for_registration
in_time = refl

late : wait_for_registration (none ∷ []) ≡ err (plain "timeout waiting for plugin registration")
unfolding wait_for_registration
late = refl
