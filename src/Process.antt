-- ===== src/Process.antt =====
-- src/process.rs: signals that are forwarded to the child, and the wait for it.
pub mod Wait
pub mod Returns
pub mod Signals
mod Tests
mod Unit
use boxed.Prelude.{
  ℕ, zero, suc, ◌+◌, ◌≡◌, refl, Bool, true, false, List, [], ◌∷◌, ◌++◌, Option, none, some,
  if◌then◌else◌, ◌==◌, ltb,
}
use boxed.Types.{
  Signal, sigint, sigterm, sighup, WaitStatus, exited, signaled, stopped, ptrace_event,
  ptrace_syscall, continued, still_alive,
}
use boxed.Error.{
  Error, context, message, os, Result, ok, err, bail, failed_to_install_handler,
  failed_to_block_signals, failed_to_unblock_signals, waitpid_failed, no_children_left,
}
use boxed.Kernel.{
  Call, Outcome, done, failed, Machine, World, Io, call, pure, within, attempt, ◌>>=◌, ◌>>◌, kill,
  waitpid, sig_block, sig_unblock, install_forwarding,
}

-- The numbers of signals on Linux.
abbrev pub signal_number : Signal → ℕ
signal_number sighup = 1
signal_number sigint = 2
signal_number sigterm = 15
signal_number (Signal.other n) = n

-- The load of `CHILD_PID`, and its store.
abbrev pub load_child_pid : Io ℕ
load_child_pid m w = (ok w.child_pid, w)

abbrev pub store_child_pid : ℕ → Io (Unit {0})
store_child_pid pid m w = (ok tt, record w { child_pid = pid })

-- The signal handler.
unfoldable pub forward_signal : Signal → Io (Unit {0})
forward_signal sig = do
  pid ← load_child_pid
  if ltb 0 pid then (attempt (call (kill pid sig)) >> pure tt) else pure tt

unfoldable pub setup_signal_forwarding : ℕ → Io (Unit {0})
setup_signal_forwarding child_pid = do
  store_child_pid child_pid
  within (failed_to_install_handler sigint) (call (install_forwarding sigint))
  within (failed_to_install_handler sigterm) (call (install_forwarding sigterm))
  within (failed_to_install_handler sighup) (call (install_forwarding sighup))
  pure tt

abbrev pub forwarded_signal_set : List Signal
forwarded_signal_set = sigint ∷ sigterm ∷ sighup ∷ []

unfoldable pub block_forwarded_signals : Io (Unit {0})
block_forwarded_signals = within failed_to_block_signals (call (sig_block forwarded_signal_set))

unfoldable pub unblock_forwarded_signals : Io (Unit {0})
unblock_forwarded_signals =
    within failed_to_unblock_signals (call (sig_unblock forwarded_signal_set))

unfoldable pub exit_code : WaitStatus → ℕ
exit_code (exited pid code) = code
exit_code (signaled pid sig) = 128 + signal_number sig
exit_code _ = 1

-- `WaitStatus::pid`
abbrev pub pid_of : WaitStatus → Option ℕ
pid_of (exited pid code) = some pid
pid_of (signaled pid sig) = some pid
pid_of (stopped pid sig) = some pid
pid_of (ptrace_event pid sig event) = some pid
pid_of (ptrace_syscall pid) = some pid
pid_of (continued pid) = some pid
pid_of still_alive = none

-- `errno::EINTR` and `errno::ECHILD`.
abbrev pub eintr : ℕ
eintr = 4

abbrev pub echild : ℕ
echild = 10

-- A turn of a loop: `return` of a result, or another turn.
abbrev pub Turn : Type 0
Turn = Option (Result ℕ)

abbrev pub is_child : ℕ → Option ℕ → Bool
is_child child_pid none = false
is_child child_pid (some pid) = pid == child_pid

unfoldable pub wait_turn : Outcome WaitStatus → Turn
wait_turn (done status) = some (ok (exit_code status))
wait_turn (failed e) = if e == eintr then none else some (err (context waitpid_failed (os e)))

unfoldable pub reap_turn : ℕ → Outcome WaitStatus → Turn
reap_turn child_pid (done status) =
    if is_child child_pid (pid_of status) then some (ok (exit_code status)) else none
reap_turn child_pid (failed e) =
    if e == eintr
    then none
    else if e == echild
    then some (bail (no_children_left child_pid))
    else some (err (context waitpid_failed (os e)))

-- `loop { match waitpid(target, None) { .. } }`, at most `fuel` turns; `none` if none has returned.
unfoldable pub wait_loop :
    Option ℕ → (Outcome WaitStatus → Turn) → ℕ → Machine → World → Option (Result ℕ × World)
wait_loop target turn zero m w = none
wait_loop target turn (suc fuel) m w =
    let w' = record w { calls = w.calls ++ waitpid target ∷ [] } in
    let rest = wait_loop target turn fuel m w' in
    elim (turn (m.answer w.calls (waitpid target))) [ none ↦ rest | some r ↦ some (r, w') ]

unfoldable pub wait_for_child : ℕ → ℕ → Machine → World → Option (Result ℕ × World)
wait_for_child child_pid = wait_loop (some child_pid) wait_turn

unfoldable pub reap_until_exit : ℕ → ℕ → Machine → World → Option (Result ℕ × World)
reap_until_exit child_pid = wait_loop none (reap_turn child_pid)
