-- ===== src/Process/Unit.antt =====
-- The unit tests of src/process.rs, under their names, on a machine that runs one forked child. Those
-- that fork twice, or look whether a child still runs, are left out.
use boxed.Prelude.{
  ℕ, ◌+◌, ◌-◌, ◌^◌, ◌≡◌, refl, Bool, true, false, ◌&&◌, ◌==◌, List, [], ◌∷◌, Option, none, some,
}
use boxed.Types.{Signal, WaitStatus, exited, signaled, ForkResult, child, parent}
use boxed.Error.{Result, ok, err, is_ok}
use boxed.Asserts.{unwrap, is_err, all_pass}
use boxed.Kernel.{
  Call, Reply, Outcome, Machine, World, Io, done, failed, call, pure, ◌>>=◌, ◌>>◌, kill, fork,
  waitpid,
}
use boxed.Kernel.Sample.{granting, fresh}
use boxed.Process.{
  load_child_pid, store_child_pid, setup_signal_forwarding, exit_code, signal_number, wait_turn,
  reap_turn, wait_loop, wait_for_child, reap_until_exit,
}

-- `CHILD_PID.swap`
abbrev swap_child_pid : ℕ → Io ℕ
swap_child_pid pid = do prev ← load_child_pid; store_child_pid pid; pure prev

abbrev child_pid_atomic_roundtrip : Machine → World → Bool
child_pid_atomic_roundtrip m w =
    let stored : Io ℕ = (do
      prev ← swap_child_pid 12345
      loaded ← load_child_pid
      store_child_pid prev
      pure loaded) in
    unwrap (stored m w).0 (λ loaded. loaded == 12345)

abbrev setup_signal_forwarding_stores_pid : Machine → World → Bool
setup_signal_forwarding_stores_pid m w =
    let stored : Io ℕ = (do
      setup_signal_forwarding 9999
      loaded ← load_child_pid
      store_child_pid 0
      pure loaded) in
    unwrap (stored m w).0 (λ loaded. loaded == 9999)

-- What the arm `ForkResult::Child` of a test does.
data Child : Type 0 where
  exits : ℕ → Child
  -- `loop { sleep }`
  sleeps : Child

-- `fork().expect(..)` in a test: the arm of the parent, where the system runs the other arm.
abbrev in_parent : Machine → World → (ℕ → World → Bool) → Bool
in_parent m w arm = go (call fork m w)
  where
    go : Result ForkResult × World → Bool
    go (ok (parent pid), w') = arm pid w'
    go (ok child, w') = false
    go (err e, w') = false

-- `expect(..)` of a wait that ended, and what is asserted of the code.
abbrev ends_with : Option (Result ℕ × World) → (ℕ → Bool) → Bool
ends_with none asserted = false
ends_with (some (r, w)) asserted = unwrap r asserted

-- SIGKILL
abbrev sigkill : Signal
sigkill = Signal.other 9

module _ (running : Child → Machine) (turns : ℕ) (w : World) where
  abbrev wait_for_child_zero_exit : Bool
  wait_for_child_zero_exit =
      let m = running (exits 0) in
      in_parent m w (λ pid w'. ends_with (wait_for_child pid turns m w') (λ code. code == 0))

  abbrev wait_for_child_nonzero_exit : Bool
  wait_for_child_nonzero_exit =
      let m = running (exits 42) in
      in_parent m w (λ pid w'. ends_with (wait_for_child pid turns m w') (λ code. code == 42))

  abbrev wait_for_child_max_exit_code : Bool
  wait_for_child_max_exit_code =
      let m = running (exits 127) in
      in_parent m w (λ pid w'. ends_with (wait_for_child pid turns m w') (λ code. code == 127))

  abbrev wait_for_child_signal_exit_code : Bool
  wait_for_child_signal_exit_code =
      let m = running sleeps in
      in_parent m w (λ pid w1.
        let (killed, w2) = call (kill pid sigkill) m w1 in
        is_ok killed
        && ends_with (wait_for_child pid turns m w2) (λ code. code == 128 + signal_number sigkill))

  abbrev reap_until_exit_signal_exit_code : Bool
  reap_until_exit_signal_exit_code =
      let m = running sleeps in
      in_parent m w (λ pid w1.
        let (killed, w2) = call (kill pid sigkill) m w1 in
        is_ok killed
        && ends_with (reap_until_exit pid turns m w2) (λ code. code == 128 + signal_number sigkill))

-- `i32::MAX`
abbrev i32_max : ℕ
i32_max = 2 ^ 31 - 1

abbrev reap_until_exit_without_children_fails : Machine → ℕ → World → Bool
reap_until_exit_without_children_fails m turns w = fails (reap_until_exit i32_max turns m w)
  where
    fails : Option (Result ℕ × World) → Bool
    fails none = false
    fails (some (r, w')) = is_err r

-- The signal that the calls sent to a child.
abbrev sent : List Call → Option Signal
sent [] = none
sent (kill pid sig ∷ cs) = some sig
sent (c ∷ cs) = sent cs

-- How a child ends. The wait for one that sleeps on is interrupted.
abbrev ending : Child → Option Signal → Outcome WaitStatus
ending (exits code) s = done (exited 42 code)
ending sleeps (some sig) = done (signaled 42 sig)
ending sleeps none = failed 4

abbrev answer_running : Child → List Call → (c : Call) → Outcome (Reply c)
answer_running body cs (waitpid target) = ending body (sent cs)
answer_running body cs c = granting.answer cs c

abbrev running : Child → Machine
running body = record granting { answer = answer_running body }

-- A machine on which the caller has no children.
abbrev answer_childless : List Call → (c : Call) → Outcome (Reply c)
answer_childless cs (waitpid target) = failed 10
answer_childless cs c = granting.answer cs c

abbrev childless : Machine
childless = record granting { answer = answer_childless }

process_pass :
    all_pass (
      child_pid_atomic_roundtrip granting fresh
      ∷ setup_signal_forwarding_stores_pid granting fresh
      ∷ wait_for_child_zero_exit running 1 fresh
      ∷ wait_for_child_nonzero_exit running 1 fresh
      ∷ wait_for_child_max_exit_code running 1 fresh
      ∷ wait_for_child_signal_exit_code running 1 fresh
      ∷ reap_until_exit_signal_exit_code running 1 fresh
      ∷ reap_until_exit_without_children_fails childless 1 fresh
      ∷ [])
    ≡ true
unfolding setup_signal_forwarding call exit_code wait_turn reap_turn wait_loop wait_for_child
    reap_until_exit
process_pass = refl
