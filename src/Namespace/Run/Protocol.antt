-- ===== src/Namespace/Run/Protocol.antt =====
-- `run_in_namespace` of src/namespace.rs against the parent of the handshake.
use mathlib.Core.Option
use boxed.Prelude.{
  ℕ, suc, ◌≡◌, refl, ◌∙◌, ap, sym, ◌⊎◌, inl, inr, Bool, true, false, List, [], ◌∷◌, ◌++◌,
  append_assoc, Option, some, if◌then◌else◌,
}
use boxed.Error.{Result, ok, err, is_ok}
use boxed.Kernel.{Call, Machine, World, pipe2, clone, drop_write_fd}
use boxed.Kernel.Script.{after}
use boxed.Cgroups.Config.{is_some}
use boxed.Cgroups.Create.{Cgroup}
use boxed.Rootless.{RootlessConfig}
use boxed.Namespace.{RuntimeConfig, build_clone_flags}
use boxed.Namespace.Sync.{
  Event, setup_succeeds, setup_fails, wait_returns, Sync, sync, setting_up, returned, exited,
  parent_step,
}
use boxed.Namespace.Run.{RunOptions, run_in_namespace}
use boxed.Namespace.Run.Trace.{
  runtime_of, Concludes, Supervised, NotLaunched, run_in_namespace-Supervised,
}
use boxed.Namespace.Run.Events.{
  events, events-SetUp, events-Loops, events-quiet_end, Concludes-IsQuiet,
}

-- The steps of a parent, one after the other.
unfoldable pub follow : List Event → Sync → Option Sync
follow [] s = some s
follow (e ∷ es) s = Option.bind (parent_step e s) (follow es)

-- The steps of a parent with a child, by its setup.
steps : Bool → List Event
steps succeeds =
    (if succeeds then setup_succeeds else setup_fails) ∷ Event.drop_write_fd ∷ wait_returns ∷ []

follow-steps :
    (succeeds child_entered copy : Bool) (n : ℕ)
    → follow (steps succeeds) (sync setting_up (exited child_entered) true copy n)
      ≡ some (
          sync
            (returned succeeds)
            (exited child_entered)
            false
            copy
            (if succeeds then suc n else n))
unfolding follow steps parent_step Option.bind
follow-steps true child_entered copy n = refl
follow-steps false child_entered copy n = refl

pub conclude_calls :
    (calls dropped waited l set waits end_calls : List Call) (c d : Call)
    → calls ≡ waited ++ end_calls
    → waited ≡ dropped ++ waits
    → dropped ≡ l ++ c ∷ d ∷ (set ++ drop_write_fd ∷ [])
    → calls ≡ l ++ c ∷ d ∷ (set ++ drop_write_fd ∷ (waits ++ end_calls))
conclude_calls calls dropped waited l set waits end_calls c d e e' e'' =
    rw (e, e', e'') (simp append_assoc)

-- An error is the result of a run whose setup fails.
Concludes-fails :
    (overlay : Bool) (m : Machine) (before : List Call) (cg : Option Cgroup)
    (value : Result (Unit {0})) (exit r : Result ℕ) (end_calls : List Call)
    → Concludes overlay m before cg value exit r end_calls
    → is_ok value ≡ false
    → is_ok r ≡ false
Concludes-fails overlay m before cg (err e) exit r end_calls (same, h) f = rw same refl
Concludes-fails overlay m before cg (ok _) exit r end_calls h f = cc

module _ (runtime : RuntimeConfig) (overlay : Bool) (m : Machine) (w : World) (r : Result ℕ)
    (w' : World) where
  -- The calls behind the clone, and the steps that they are.
  abbrev Steps : Type 0
  Steps =
      (behind : List Call) × (succeeds : Bool) × (w'.calls
        ≡ w.calls ++ pipe2 ∷ clone runtime.flags ∷ behind)
      × (succeeds ≡ false → is_ok r ≡ false)
      × (events m false (w.calls ++ pipe2 ∷ clone runtime.flags ∷ []) behind ≡ steps succeeds)

  Supervised-events :
      (run : Supervised runtime overlay m w r w') (waits : List Call)
      → events m (is_ok run.value) run.dropped.calls (waits ++ run.last)
        ≡ wait_returns ∷ events m (is_ok run.value) run.waited.calls run.last
      → events m false
          (w.calls ++ pipe2 ∷ clone runtime.flags ∷ [])
          (run.set ++ drop_write_fd ∷ (waits ++ run.last))
        ≡ steps (is_ok run.value)
  unfolding steps
  Supervised-events run waits waiting =
      let base = w.calls ++ pipe2 ∷ clone runtime.flags ∷ [] in
      let launched = append_assoc w.calls (pipe2 ∷ []) (clone runtime.flags ∷ []) in
      let dropped =
        run.dropped_calls
        ∙ sym (
            append_assoc w.calls (pipe2 ∷ clone runtime.flags ∷ [])
              (run.set ++ drop_write_fd ∷ [])) in
      let ended = events-quiet_end m (is_ok run.value) run.waited.calls run.last (
        Concludes-IsQuiet overlay m run.waited.calls run.cgroup run.value run.exit r run.last
          run.concludes) in
      ap (λ l. events m false l (run.set ++ drop_write_fd ∷ (waits ++ run.last))) (sym launched)
      ∙ (events-SetUp m (after (after w pipe2) (clone runtime.flags)) run.set (waits ++ run.last)
            run.value run.set_up
          ∙ rw (launched, sym dropped, waiting, ended) refl)

  Supervised-steps : Supervised runtime overlay m w r w' → Steps
  Supervised-steps run =
      let (waits, e, waiting) =
        events-Loops m run.child (is_ok run.value) run.exit run.waited run.dropped run.last
          run.waits in
      (
        run.set ++ drop_write_fd ∷ (waits ++ run.last),
        is_ok run.value,
        conclude_calls w'.calls run.dropped.calls run.waited.calls w.calls run.set waits run.last
            pipe2 (clone runtime.flags) run.last_calls e run.dropped_calls,
        Concludes-fails overlay m run.waited.calls run.cgroup run.value run.exit r run.last
            run.concludes,
        Supervised-events run waits waiting,
      )

-- Refinement of the handshake: a run that returns has launched no child, or the steps that its calls
-- behind the clone are take the parent of the handshake from the setup to the return, once the
-- child has exited. If the parent of the handshake returns with a failed setup, the run returns an
-- error.
pub run_in_namespace-follows :
    (fuel : ℕ) (opts : RunOptions) (rootless : RootlessConfig) (m : Machine) (w : World)
    (r : Result ℕ) (w' : World)
    → run_in_namespace fuel opts rootless m w ≡ some (r, w')
    → let flags = build_clone_flags rootless.enabled in
      NotLaunched flags m w r w'
      ⊎ (behind : List Call) × (succeeds : Bool) × (w'.calls
          ≡ w.calls ++ pipe2 ∷ clone flags ∷ behind)
        × (succeeds ≡ false → is_ok r ≡ false)
        × ((child_entered copy : Bool) (n : ℕ)
            → follow
                (events m false (w.calls ++ pipe2 ∷ clone flags ∷ []) behind)
                (sync setting_up (exited child_entered) true copy n)
              ≡ some (
                  sync
                    (returned succeeds)
                    (exited child_entered)
                    false
                    copy
                    (if succeeds then suc n else n)))
run_in_namespace-follows fuel opts rootless m w r w' h =
    let flags = build_clone_flags rootless.enabled in
    elim (run_in_namespace-Supervised fuel opts rootless m w r w' h) [
      | inl not_launched ↦ inl not_launched
      | inr run ↦
          let (behind, succeeds, e, fails, es) =
            Supervised-steps (runtime_of opts rootless) (is_some opts.image) m w r w' run in
          inr (
            behind,
            succeeds,
            e,
            fails,
            λ child_entered copy n. rw es (follow-steps succeeds child_entered copy n),
          )
    ]
