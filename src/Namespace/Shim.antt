-- ===== src/Namespace/Shim.antt =====
-- What the shim, the parent of the command in `ChildContext::enter` of src/namespace.rs, returns.
pub mod Returns
use boxed.Prelude.{
  ℕ, suc, ◌≤◌, ◌≡◌, refl, ◌≢◌, ◌∙◌, ap, sym, ◌⊎◌, inl, inr, Bool, true, List, [], ◌∷◌, ◌++◌,
  append_assoc, append-nil, Option, none, some, some_injective,
}
use boxed.Text.{Text}
use boxed.Types.{Capability, WaitStatus, ForkResult, child, parent}
use boxed.Error.{Error, Result, ok, err, with_context, failed_to_fork, failed_to_unblock_signals}
use boxed.Kernel.{
  Call, Outcome, done, failed, to_result, Machine, World, Io, call, within, ◌>>◌, fork, waitpid,
  sig_unblock,
}
use boxed.Kernel.Script.{after}
use boxed.Kernel.Makes.{Makes, Makes-bind, Makes-checked, Makes-weaken}
use boxed.Seccomp.Libc.{Libc}
use boxed.Process.{
  exit_code, pid_of, setup_signal_forwarding, unblock_forwarded_signals, forwarded_signal_set,
  reap_until_exit,
}
use boxed.Process.Wait.{
  Loops, again, last, ReapGoesOn, ReapReturns, reap_until_exit-Loops, Loops-answer,
}
use boxed.Process.Returns.{waits, reap_until_exit_returns}
use boxed.Namespace.Run.Setup.{is_setup_call, setup_signal_forwarding-SetsUp}
use boxed.Namespace.{
  ChildContext, prepare, Executed, Entered, shim, command, after_forwarding, watch, after_fork,
  after_prepare, enter,
}

-- The shim has forked the command, waited until its status was reported, and returns the exit code
-- of that status: these are its last call, and the answer to it.
pub record CommandEnds (m : Machine) (w' : World) (r : Result ℕ) : Type 0 where
  pub pid : ℕ
  pub status : WaitStatus
  pub before : List Call
  pub between : List Call
  pub calls : w'.calls ≡ before ++ fork ∷ (between ++ waitpid none ∷ [])
  pub forked : m.answer before fork ≡ done (parent pid)
  pub reported : m.answer (before ++ fork ∷ between) (waitpid none) ≡ done status
  pub is_command : pid_of status ≡ some pid
  pub returned : r ≡ ok (exit_code status)

abbrev pub Fails : Result ℕ → Type 0
Fails r = (e : Error) × (r ≡ err e)

shim_injective : (a b : Option (Result ℕ × World)) → shim a ≡ shim b → a ≡ b
shim_injective a b h = cc

returned-Fails :
    (e : Error) (w w' : World) (r : Result ℕ)
    → ◌≡◌ {A = Option (Result ℕ × World)} (some (err e, w)) (some (r, w'))
    → Fails r
returned-Fails e w w' r h = (e, ap (λ (p : Result ℕ × World). p.0) (sym (some_injective h)))

module _ (m : Machine) (r : Result ℕ) (w' : World) where
  -- The shim ends with an error, or with the command.
  abbrev Ends : Type 0
  Ends = Fails r ⊎ CommandEnds m w' r

  reaped-Ends :
      (pid : ℕ) (before between : List Call) (w : World)
      → m.answer before fork ≡ done (parent pid)
      → w.calls ≡ before ++ fork ∷ between
      → Loops none (ReapGoesOn pid) (ReapReturns pid) m r w' w
      → Ends
  reaped-Ends pid before between w forked same loops =
      let (more, calls, ret) = Loops-answer loops in
      go more (m.answer (w.calls ++ more) (waitpid none)) refl calls ret
    where
      go :
          (more : List Call) (o : Outcome WaitStatus)
          → m.answer (w.calls ++ more) (waitpid none) ≡ o
          → w'.calls ≡ w.calls ++ (more ++ waitpid none ∷ [])
          → ReapReturns pid o r
          → Fails r ⊎ CommandEnds m w' r
      go more (done status) e calls (is_command, returned) = inr (record {
        pid = pid;
        status = status;
        before = before;
        between = between ++ more;
        calls = rw (calls, same) (simp append_assoc);
        forked = forked;
        reported = rw (same, append_assoc) at e;
        is_command = is_command;
        returned = returned;
      })
      go more (failed n) e calls (other, inl (no_children, returned)) = inl (_, returned)
      go more (failed n) e calls (other, inr (some_error, returned)) = inl (_, returned)

  -- The start of the forwarding makes some calls.
  forwarding-calls :
      (pid : ℕ) (w : World)
      → (made : List Call) × (((setup_signal_forwarding pid >> unblock_forwarded_signals) m
            w).1.calls
          ≡ w.calls ++ made)
  unfolding unblock_forwarded_signals
  forwarding-calls pid w =
      let unblock = call (sig_unblock forwarded_signal_set) in
      let start : Makes (λ _. true) (setup_signal_forwarding pid >> unblock_forwarded_signals) =
        Makes-bind (setup_signal_forwarding pid) _
          (Makes-weaken (setup_signal_forwarding pid) (λ c h. refl)
            (setup_signal_forwarding-SetsUp pid))
          (λ _. Makes-checked failed_to_unblock_signals (sig_unblock forwarded_signal_set) refl) in
      let (made, e, all) = start.calls_of m w in (made, e)

  after_forwarding-Ends :
      (fuel pid : ℕ) (before made : List Call) (started : Result (Unit {0})) (w : World)
      → m.answer before fork ≡ done (parent pid)
      → w.calls ≡ before ++ fork ∷ made
      → after_forwarding fuel pid m (started, w) ≡ some (r, w')
      → Ends
  unfolding after_forwarding
  after_forwarding-Ends fuel pid before made (err e) w forked same h =
      inl (returned-Fails e w w' r h)
  after_forwarding-Ends fuel pid before made (ok _) w forked same h =
      reaped-Ends pid before made w forked same ((reap_until_exit-Loops m pid w w' r).0 fuel h)

  after_fork-Ends :
      (fuel : ℕ) (args : List Text) (w : World) (o : Outcome ForkResult)
      → m.answer w.calls fork ≡ o
      → after_fork fuel args m (with_context failed_to_fork (to_result o), after w fork)
        ≡ shim (some (r, w'))
      → Ends
  unfolding after_fork watch
  after_fork-Ends fuel args w (failed n) e h = inl (returned-Fails _ _ w' r (shim_injective _ _ h))
  after_fork-Ends fuel args w (done child) e h = cc
  after_fork-Ends fuel args w (done (parent pid)) e h =
      let (made, calls) = forwarding-calls pid (after w fork) in
      after_forwarding-Ends fuel pid w.calls made _ _ e
        (calls ∙ append_assoc w.calls (fork ∷ []) made) (shim_injective _ _ h)

  after_prepare-Ends :
      (fuel : ℕ) (p : Result (List Text)) (w : World)
      → after_prepare fuel m (p, w) ≡ shim (some (r, w'))
      → Ends
  unfolding after_prepare call
  after_prepare-Ends fuel (err e) w h = inl (returned-Fails e w w' r (shim_injective _ _ h))
  after_prepare-Ends fuel (ok args) w h = after_fork-Ends fuel args w (m.answer w.calls fork) refl h

-- When the shim returns, it returns an error; or it forked the command, the last answer of waitpid
-- was the status of the command, and it returns the exit code of that status.
pub enter-CommandEnds :
    (l : Libc) (all : List Capability) (fuel : ℕ) (ctx : ChildContext) (m : Machine) (w w' : World)
    (r : Result ℕ)
    → enter l all fuel ctx m w ≡ shim (some (r, w'))
    → Fails r ⊎ CommandEnds m w' r
unfolding enter
enter-CommandEnds l all fuel ctx m w w' r h =
    after_prepare-Ends m r w' fuel (prepare l all ctx m w).0 (prepare l all ctx m w).1 h
