-- ===== src/Cni/Exec.antt =====
-- pkg/cni/exec.go: ExecPlugin.
use k8snetworkplumbingwg_dra.Common.{
  ℕ, zero, suc, ◌+◌, ◌≤◌, String, Option, none, some, Bool, true, false, if◌then◌else◌, ◌==◌,
  eq_string, Result, ok, err, Error, quote, Action, ◌≡◌, refl, ap, arith, ◌⊎◌, inl, inr, if_intro,
}

-- The command with its buffers: `run` is Cmd.Run, `is_busy` tells whether the error's text contains
-- "text file busy", `parse_error` is json.Unmarshal into a CNI error (or the error of the parsing),
-- and `copy_stderr` copies a buffer that is not empty, if a writer was given.
pub record Command (W : Type 0) : Type 0 where
  pub run : W → Option Error × W
  pub is_busy : Error → Bool
  pub sleep : W → W
  pub stdout : W → String
  pub stderr : W → String
  pub parse_error : String → Error ⊎ Error
  pub copy_stderr : W → W

abbrev diagnosed : Error ⊎ Error → Error
diagnosed (inl e) = e
diagnosed (inr p) = quote "netplugin failed but error parsing its diagnostic message %q: %v" p

module _ {W : Type 0} (command : Command W) where
  unfoldable pub plugin_err : Error → String → String → Error
  plugin_err e stdout stderr =
      if stdout == ""
      then (if stderr == ""
          then quote "netplugin failed with no error message: %v" e
          else quote "netplugin failed: %q: %v" e)
      else diagnosed (command.parse_error stdout)

  abbrev pub after_run : (W → Option Error × W) → Option Error → W → Option Error × W
  after_run again none w = (none, w)
  after_run again (some e) w =
      if command.is_busy e
      then again (command.sleep w)
      else (some (plugin_err e (command.stdout w) (command.stderr w)), w)

  -- The loop, with the number of rounds that are left. It ends without an error when a run succeeds
  -- and when no round is left.
  unfoldable pub run_loop : ℕ → W → Option Error × W
  run_loop zero w = (none, w)
  run_loop (suc n) w = let (r, w') = command.run w in after_run (run_loop n) r w'

  abbrev pub exec_result : Option Error → W → Result String × W
  exec_result (some e) w = (err e, w)
  exec_result none w = (ok (command.stdout (command.copy_stderr w)), command.copy_stderr w)

  -- `for i := 0; i <= 10; i++`
  unfoldable pub exec_plugin : Action W String
  exec_plugin w = let (r, w') = run_loop 11 w in exec_result r w'

  module _ (runs : W → ℕ) (counts : (w : W) → runs (command.run w).1 ≡ suc (runs w))
      (sleeps : (w : W) → runs (command.sleep w) ≡ runs w)
      (copies : (w : W) → runs (command.copy_stderr w) ≡ runs w) where
    after_run-runs :
        (n : ℕ) (again : W → Option Error × W) (r : Option Error) (w : W)
        → ((w' : W) → runs (again w').1 ≤ runs w' + n)
        → runs (after_run again r w).1 ≤ runs w + n
    after_run-runs n again none w h = omega arith
    after_run-runs n again (some e) w h =
        if_intro (λ (p : Option Error × W). runs p.1 ≤ runs w + n) (command.is_busy e)
          (λ _. omega (arith, h (command.sleep w), sleeps w)) (λ _. omega arith)

    run_loop-runs : (n : ℕ) (w : W) → runs (run_loop n w).1 ≤ runs w + n
    unfolding run_loop
    run_loop-runs zero w = omega arith
    run_loop-runs (suc n) w =
        let h =
          after_run-runs n (run_loop n) (command.run w).0 (command.run w).1 (run_loop-runs n) in
        omega (arith, h, counts w)

    exec_result-runs : (r : Option Error) (w : W) → runs (exec_result r w).1 ≡ runs w
    exec_result-runs none w = copies w
    exec_result-runs (some e) w = refl

    -- However often the plugin's file is busy, one call runs the plugin at most eleven times.
    pub exec_plugin-runs : (w : W) → runs (exec_plugin w).1 ≤ runs w + 11
    unfolding exec_plugin
    exec_plugin-runs w =
        omega (arith, run_loop-runs 11 w, exec_result-runs (run_loop 11 w).0 (run_loop 11 w).1)

  abbrev pub found_busy : Option Error → Bool
  found_busy none = false
  found_busy (some e) = command.is_busy e

  module _ (busy : (w : W) → found_busy (command.run w).0 ≡ true) where
    after_run-busy :
        (again : W → Option Error × W) (r : Option Error) (w : W)
        → found_busy r ≡ true
        → ((w' : W) → (again w').0 ≡ none)
        → (after_run again r w).0 ≡ none
    after_run-busy again none w h more = refl
    after_run-busy again (some e) w h more = ground (arith, h, more (command.sleep w))

    run_loop-busy : (n : ℕ) (w : W) → (run_loop n w).0 ≡ none
    unfolding run_loop
    run_loop-busy zero w = refl
    run_loop-busy (suc n) w =
        after_run-busy (run_loop n) (command.run w).0 (command.run w).1 (busy w) (run_loop-busy n)

    -- When the plugin's file is busy at every run, no run has succeeded, and the call reports
    -- success with what the buffer holds.
    pub exec_plugin-busy :
        (w : W) → (exec_plugin w).0 ≡ ok (command.stdout (command.copy_stderr (run_loop 11 w).1))
    unfolding exec_plugin
    exec_plugin-busy w = ap (λ r. (exec_result r (run_loop 11 w).1).0) (run_loop-busy 11 w)
