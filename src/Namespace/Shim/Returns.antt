-- ===== src/Namespace/Shim/Returns.antt =====
-- When the shim of `ChildContext::enter` in src/namespace.rs has turns enough.
use boxed.Prelude.{ℕ, suc, ◌≤◌, ◌≡◌, refl, ap, ◌⊎◌, inl, inr, List, none, some}
use boxed.Text.{Text}
use boxed.Types.{Capability, ForkResult, child, parent}
use boxed.Error.{Result, ok, err, with_context, failed_to_fork}
use boxed.Kernel.{Call, Outcome, done, failed, to_result, Machine, World, call, ◌>>◌, fork, waitpid}
use boxed.Kernel.Script.{after}
use boxed.Seccomp.Libc.{Libc}
use boxed.Process.{setup_signal_forwarding, unblock_forwarded_signals}
use boxed.Process.Wait.{ReapGoesOn}
use boxed.Process.Returns.{waits, reap_until_exit_returns}
use boxed.Namespace.{
  ChildContext, prepare, Executed, Entered, shim, command, after_forwarding, watch, after_fork,
  after_prepare, enter,
}

-- Once the command is forked, the shim is interrupted, or sees another process end, at most `n` times.
abbrev pub Settles : ℕ → Machine → Type 0
Settles n m =
    (before : List Call) (pid : ℕ)
    → m.answer before fork ≡ done (parent pid)
    → (cs : List Call) → n ≤ waits cs
    → ReapGoesOn pid (m.answer cs (waitpid none))
    → ⊥

-- What `enter` comes to: the shim has returned, or the command runs or has failed to start.
abbrev pub Comes : Entered → Type 0
Comes entered =
    ((p : Result ℕ × World) × (entered ≡ shim (some p)))
    ⊎ ((e : Executed × World) × (entered ≡ command e))

watched_returns :
    (m : Machine) (n pid : ℕ)
    → ((cs : List Call) → n ≤ waits cs → ReapGoesOn pid (m.answer cs (waitpid none)) → ⊥)
    → (s : Result (Unit {0})) (w : World)
    → (p : Result ℕ × World) × (after_forwarding (suc n) pid m (s, w) ≡ some p)
unfolding after_forwarding
watched_returns m n pid few (err e) w = (_, refl)
watched_returns m n pid few (ok _) w = reap_until_exit_returns m n pid w few

module _ (m : Machine) (n : ℕ) (settles : Settles n m) where
  after_fork_returns :
      (args : List Text) (w : World) (o : Outcome ForkResult)
      → m.answer w.calls fork ≡ o
      → Comes (after_fork (suc n) args m (with_context failed_to_fork (to_result o), after w fork))
  unfolding after_fork watch
  after_fork_returns args w (failed e) same = inl (_, refl)
  after_fork_returns args w (done child) same = inr (_, refl)
  after_fork_returns args w (done (parent pid)) same =
      let started = (setup_signal_forwarding pid >> unblock_forwarded_signals) m (after w fork) in
      let (p, e) = watched_returns m n pid (settles w.calls pid same) started.0 started.1 in
      inl (p, ap shim e)

  after_prepare_returns :
      (p : Result (List Text)) (w : World) → Comes (after_prepare (suc n) m (p, w))
  unfolding after_prepare call
  after_prepare_returns (err e) w = inl (_, refl)
  after_prepare_returns (ok args) w = after_fork_returns args w (m.answer w.calls fork) refl

  -- If the shim is interrupted, or sees another process end, at most `n` times, then `n + 1` turns of
  -- its loop are enough: the child comes to an end of the shim, or to the command.
  pub enter_returns :
      (l : Libc) (all : List Capability) (ctx : ChildContext) (w : World)
      → Comes (enter l all (suc n) ctx m w)
  unfolding enter
  enter_returns l all ctx w =
      after_prepare_returns (prepare l all ctx m w).0 (prepare l all ctx m w).1
