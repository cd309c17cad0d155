-- ===== src/Namespace/Command.antt =====
-- When the command of src/namespace.rs is executed.
use boxed.Prelude.{ℕ, ◌≡◌, ◌∙◌, ap, sym, List, [], ◌∷◌, ◌++◌, append_assoc}
use boxed.Text.{Text}
use boxed.Types.{Capability, ForkResult, child, parent}
use boxed.Error.{
  Result, ok, err, with_context, collect_map, command_has_null_byte, failed_to_fork,
  failed_to_unblock_signals,
}
use boxed.Kernel.{
  Call, Outcome, done, failed, to_result, Machine, World, call, fork, execvp, sig_unblock,
}
use boxed.Kernel.Script.{after}
use boxed.Process.{forwarded_signal_set, unblock_forwarded_signals}
use boxed.Seccomp.Libc.{Libc}
use boxed.Namespace.{
  ChildContext, c_string, prepare, Executed, becomes, exits, exec_command, after_exec,
  after_unblock, after_fork, after_prepare, command, enter,
}
use boxed.Kernel.Heeds.{Answered}
use boxed.Namespace.Enter.{confinement, named, prepared, RootCalls, prepare-calls}

becomes_injective : (a b : List Text) → becomes a ≡ becomes b → a ≡ b
becomes_injective a b h = cc

exits-ne-becomes : (n : ℕ) (a : List Text) → exits n ≡ becomes a → ⊥
exits-ne-becomes n a h = cc

command_injective : (a b : Executed × World) → command a ≡ command b → a ≡ b
command_injective a b h = cc

module _ (m : Machine) (args : List Text) (w' : World) where
  -- The command with its arguments, reached by the calls `cs` from `w`.
  abbrev Executes : World → List Text → List Call → Type 0
  Executes w built cs = (built ≡ args) × (w'.calls ≡ w.calls ++ cs)

  after_exec-Executes :
      (built : List Text) (w : World) (o : Outcome (Unit {0}))
      → after_exec built (to_result o, after w (execvp built)) ≡ (becomes args, w')
      → Executes w built (execvp args ∷ [])
  unfolding after_exec
  after_exec-Executes built w (done _) h =
      let same = becomes_injective built args (ap (λ (x : Executed × World). x.0) h) in
      (
        same,
        ap (λ (x : Executed × World). x.1.calls) (sym h) ∙ ap (λ a. w.calls ++ execvp a ∷ []) same,
      )
  after_exec-Executes built w (failed e) h =
      absurd (exits-ne-becomes 127 args (ap (λ (x : Executed × World). x.0) h))

  after_unblock-Executes :
      (built : List Text) (w : World) (o : Outcome (Unit {0}))
      → after_unblock built m (
        with_context failed_to_unblock_signals (to_result o),
        after w (sig_unblock forwarded_signal_set),
      )
        ≡ (becomes args, w')
      → Executes w built (sig_unblock forwarded_signal_set ∷ execvp args ∷ [])
  unfolding after_unblock call
  after_unblock-Executes built w (done _) h =
      let (same, e) = after_exec-Executes built (after w (sig_unblock forwarded_signal_set)) _ h in
      (same, e ∙ append_assoc w.calls _ _)
  after_unblock-Executes built w (failed e) h =
      absurd (exits-ne-becomes 127 args (ap (λ (x : Executed × World). x.0) h))

  after_fork-Executes :
      (fuel : ℕ) (built : List Text) (w : World) (o : Outcome ForkResult)
      → after_fork fuel built m (with_context failed_to_fork (to_result o), after w fork)
        ≡ command (becomes args, w')
      → Executes w built (fork ∷ sig_unblock forwarded_signal_set ∷ execvp args ∷ [])
  unfolding after_fork exec_command unblock_forwarded_signals call
  after_fork-Executes fuel built w (done child) h =
      let (same, e) =
        after_unblock-Executes built (after w fork)
          (m.answer (w.calls ++ fork ∷ []) (sig_unblock forwarded_signal_set))
          (command_injective _ _ h) in
      (same, e ∙ append_assoc w.calls _ _)
  after_fork-Executes fuel built w (done (parent pid)) h = cc
  after_fork-Executes fuel built w (failed e) h = cc

  after_prepare-Executes :
      (fuel : ℕ) (r : Result (List Text)) (w : World)
      → after_prepare fuel m (r, w) ≡ command (becomes args, w')
      → (r ≡ ok args)
        × (w'.calls ≡ w.calls ++ fork ∷ sig_unblock forwarded_signal_set ∷ execvp args ∷ [])
  unfolding after_prepare call
  after_prepare-Executes fuel (err e) w h = cc
  after_prepare-Executes fuel (ok built) w h =
      let (same, e) = after_fork-Executes fuel built w (m.answer w.calls fork) h in (ap ok same, e)

-- If the command is executed, then the calls are those of a `prepare` that returned, in order and
-- no other, then the fork, the unblocking of the signals and the execvp of the arguments, which are
-- the command as C strings. The drops of capabilities, no_new_privs, the filter and the block of the
-- signals were answered with success.
pub enter-command :
    (l : Libc) (all : List Capability) (fuel : ℕ) (ctx : ChildContext) (m : Machine) (w w' : World)
    (args : List Text)
    → enter l all fuel ctx m w ≡ command (becomes args, w')
    → (root : List Call) × (w'.calls
        ≡ (w.calls ++ prepared l all ctx root)
          ++ fork ∷ sig_unblock forwarded_signal_set ∷ execvp args ∷ [])
      × RootCalls ctx.run_id ctx.image ctx.rootfs m (named ctx w) root
      × Answered m ((named ctx w).calls ++ root) (confinement l all ctx)
      × (with_context command_has_null_byte (collect_map c_string ctx.command) ≡ ok args)
unfolding enter
enter-command l all fuel ctx m w w' args h =
    let (same, e) =
      after_prepare-Executes m args w' fuel (prepare l all ctx m w).0 (prepare l all ctx m w).1 h in
    let (root, made, calls, answered, collected) = prepare-calls l all ctx m w args same in
    (
      root,
      e ∙ ap (λ cs. cs ++ fork ∷ sig_unblock forwarded_signal_set ∷ execvp args ∷ []) made,
      calls,
      answered,
      collected,
    )
