-- ===== src/Namespace/Run/Abort.antt =====
-- `run_in_namespace` and `ChildContext::enter` of src/namespace.rs together: the child of a setup
-- that fails.
use boxed.Prelude.{
  ℕ, zero, suc, ◌+◌, ◌<◌, ◌≡◌, refl, ◌∙◌, ap, sym, ◌⊎◌, inl, inr, All, All-map, Bool, true, List,
  [], ◌∷◌, ◌++◌, append_assoc, append-nil, some, if◌then◌else◌, arith,
}
use boxed.Types.{Capability}
use boxed.Error.{
  Error, os, context, message, Result, ok, err, failed_to_read_sync_signal, received_closed_pipe,
}
use boxed.Kernel.{
  Call, Outcome, done, failed, Machine, World, call, pipe2, clone, write_sync_byte, drop_write_fd,
  drop_write_copy, read_sync_fd, waitpid,
}
use boxed.Kernel.Script.{after}
use boxed.Cgroups.Config.{is_some}
use boxed.Kernel.Heeds.{append_cancel}
use boxed.Namespace.Run.Leaves.{Completes}
use boxed.Rootless.{RootlessConfig}
use boxed.Seccomp.Libc.{Libc}
use boxed.Process.Wait.{Loops, again, last, WaitGoesOn, WaitReturns}
use boxed.Namespace.{RuntimeConfig, await_parent, prepare, shim, after_prepare, enter}
use boxed.Namespace.Run.{RunOptions, child_context, run_in_namespace}
use boxed.Namespace.Run.Setup.{is_setup_call, SetUp}
use boxed.Namespace.Run.Trace.{runtime_of, Supervised, NotLaunched, run_in_namespace-Supervised}
use boxed.Namespace.Run.Events.{is_done, is_step, IsQuiet, setup_call-IsQuiet, Concludes-IsQuiet}
use boxed.Namespace.Run.Protocol.{conclude_calls}

-- The bytes that a call behind `before` writes into the sync pipe.
unfoldable pub bytes : Machine → List Call → Call → ℕ
bytes m before write_sync_byte = if is_done (m.answer before write_sync_byte) then 1 else 0
bytes m before c = 0

-- The bytes that the calls behind `before` write into it.
unfoldable pub written : Machine → List Call → List Call → ℕ
written m before [] = 0
written m before (c ∷ cs) = bytes m before c + written m (before ++ c ∷ []) cs

IsQuiet-bytes : (m : Machine) (before : List Call) (c : Call) → IsQuiet c → bytes m before c ≡ 0
unfolding bytes is_step
IsQuiet-bytes m before write_sync_byte h = cc
IsQuiet-bytes m before c h = refl

module _ (m : Machine) where
  written-append :
      (before xs ys : List Call)
      → written m before (xs ++ ys) ≡ written m before xs + written m (before ++ xs) ys
  unfolding written
  written-append before [] ys = rw append-nil (omega arith)
  written-append before (c ∷ xs) ys =
      rw (written-append (before ++ c ∷ []) xs ys, append_assoc) (omega arith)

  written-IsQuiet : (before cs : List Call) → All IsQuiet cs → written m before cs ≡ 0
  unfolding written
  written-IsQuiet before [] h = refl
  written-IsQuiet before (c ∷ cs) (p, h) =
      rw (IsQuiet-bytes m before c p, written-IsQuiet (before ++ c ∷ []) cs h) refl

  written-Loops :
      (child : ℕ) (exit : Result ℕ) (waited w : World)
      → Loops (some child) WaitGoesOn WaitReturns m exit waited w
      → (waits : List Call) × (waited.calls ≡ w.calls ++ waits) × (written m w.calls waits ≡ 0)
  unfolding written bytes
  written-Loops child exit waited _ (again w on more) =
      let (waits, e, silent) =
        written-Loops child exit waited (after w (waitpid (some child))) more in
      (
        waitpid (some child) ∷ waits,
        rw e (append_assoc w.calls (waitpid (some child) ∷ []) waits),
        omega (arith, silent),
      )
  written-Loops child exit waited _ (last w ret same) =
      (waitpid (some child) ∷ [], ap (λ (v : World). v.calls) same, refl)

  -- A setup that fails writes nothing.
  written-SetUp :
      (w : World) (set : List Call) (e : Error) → SetUp m w set (err e) → written m w.calls set ≡ 0
  unfolding written bytes
  written-SetUp w set e (inl quiet) =
      written-IsQuiet w.calls set
        (All-map (λ c. is_setup_call c ≡ true) IsQuiet setup_call-IsQuiet set quiet)
  written-SetUp w set e (inr (n, (before, same, quiet, answer))) =
      rw
        (
          same,
          written-append,
          written-IsQuiet w.calls before
              (All-map (λ c. is_setup_call c ≡ true) IsQuiet setup_call-IsQuiet before quiet),
          answer,
        )
        refl

Result-cases : (x : Result (Unit {0})) → ((e : Error) × (x ≡ err e)) ⊎ (x ≡ ok tt)
Result-cases (err e) = inl (e, refl)
Result-cases (ok _) = inr refl

module _ (runtime : RuntimeConfig) (m : Machine) (w w' : World) (r : Result ℕ) where
  NotLaunched-written :
      (behind : List Call)
      → w'.calls ≡ w.calls ++ behind
      → NotLaunched runtime.flags m w r w'
      → written m w.calls behind ≡ 0
  unfolding written bytes
  NotLaunched-written behind e (inl (n, failed_pipe, same)) =
      rw (append_cancel w.calls (sym e ∙ same)) refl
  NotLaunched-written behind e (inr (n, failed_clone, same)) =
      rw (append_cancel w.calls (sym e ∙ same)) refl

  -- If the setup fails, the whole run writes nothing.
  Supervised-written :
      (overlay : Bool) (run : Supervised runtime overlay m w r w') (e : Error)
      → run.value ≡ err e
      → (behind : List Call) → w'.calls ≡ w.calls ++ behind
      → written m w.calls behind ≡ 0
  unfolding written bytes
  Supervised-written overlay run e failed_setup behind same =
      let launched = after (after w pipe2) (clone runtime.flags) in
      let (waits, waited, silent) =
        written-Loops m run.child run.exit run.waited run.dropped run.waits in
      let calls =
        conclude_calls w'.calls run.dropped.calls run.waited.calls w.calls run.set waits run.last
          pipe2 (clone runtime.flags) run.last_calls waited run.dropped_calls in
      let dropped = (launched.calls ++ run.set) ++ drop_write_fd ∷ [] in
      let same_dropped : run.dropped.calls ≡ dropped = run.dropped_calls ∙ simp append_assoc in
      let set_silent = written-SetUp m launched run.set e (rw failed_setup at run.set_up) in
      let waits_silent : written m dropped waits ≡ 0 = rw same_dropped at silent in
      let last_silent = written-IsQuiet m (dropped ++ waits) run.last (
        Concludes-IsQuiet overlay m run.waited.calls run.cgroup run.value run.exit r run.last
          run.concludes) in
      rw
        (
          append_cancel w.calls (sym same ∙ calls),
          written-append m launched.calls run.set,
          written-append m dropped waits run.last,
        )
        (omega (arith, set_silent, waits_silent, last_silent))

-- The child reads as pipe(7) says, if it gets a byte only where the parent has written one.
abbrev pub ReadsWritten : Machine → World → ℕ → Type 0
ReadsWritten m w n =
    (k : ℕ) → m.answer (w.calls ++ drop_write_copy ∷ []) read_sync_fd ≡ done (suc k) → 0 < n

-- The child does nothing but the drop of its write end and the read, and exits with an error.
abbrev pub Aborts : Libc → List Capability → ℕ → RunOptions → ℕ → Machine → World → Type 0
Aborts l all fuel opts run_id m w =
    (e : Error) × (enter l all fuel (child_context opts run_id) m w
      ≡ shim (some (err e, after (after w drop_write_copy) read_sync_fd)))

module _ (l : Libc) (all : List Capability) (fuel : ℕ) (opts : RunOptions) (run_id : ℕ)
    (m : Machine) (w : World) where
  enter-Aborts : (n : ℕ) → ReadsWritten m w n → n ≡ 0 → Aborts l all fuel opts run_id m w
  unfolding enter prepare await_parent after_prepare call
  enter-Aborts n reads nothing = go (m.answer (w.calls ++ drop_write_copy ∷ []) read_sync_fd) refl
    where
      go :
          (o : Outcome ℕ)
          → m.answer (w.calls ++ drop_write_copy ∷ []) read_sync_fd ≡ o
          → Aborts l all fuel opts run_id m w
      go (failed x) e = (context failed_to_read_sync_signal (os x), rw e refl)
      go (done zero) e = (message received_closed_pipe, rw e refl)
      go (done (suc k)) e = absurd (omega (arith, reads k e, nothing))

-- The parent and the child together. Let the parent's run return, and let the child get a byte only
-- where the run has written one. Then the child does nothing but drop its write end and read, and
-- exits with an error; or the parent launched a child, mapped the ids, set up the cgroup, forwarded the
-- signals and sent the byte, each with success.
pub enter-run_in_namespace :
    (l : Libc) (all : List Capability) (fuel fuel' : ℕ) (opts : RunOptions)
    (rootless : RootlessConfig) (m m' : Machine) (w w' v : World) (r : Result ℕ)
    (behind : List Call)
    → run_in_namespace fuel opts rootless m w ≡ some (r, w')
    → w'.calls ≡ w.calls ++ behind
    → ReadsWritten m' v (written m w.calls behind)
    → Aborts l all fuel' opts m.pid m' v
      ⊎ (let runtime = runtime_of opts rootless in
          (run : Supervised runtime (is_some opts.image) m w r w') × (run.value ≡ ok tt)
          × Completes runtime run.child m (after (after w pipe2) (clone runtime.flags)) run.cgroup)
enter-run_in_namespace l all fuel fuel' opts rootless m m' w w' v r behind h same reads =
    let runtime = runtime_of opts rootless in
    elim (run_in_namespace-Supervised fuel opts rootless m w r w' h) [
      | inl not_launched ↦ inl (
          enter-Aborts l all fuel' opts m.pid m' v (written m w.calls behind) reads
            (NotLaunched-written runtime m w w' r behind same not_launched))
      | inr run ↦ elim (Result-cases run.value) [
        | inl (e, failed_setup) ↦ inl (
            enter-Aborts l all fuel' opts m.pid m' v (written m w.calls behind) reads (
              Supervised-written runtime m w w' r (is_some opts.image) run e failed_setup behind
                same))
        | inr succeeded ↦ inr (run, succeeded, rw succeeded at run.leaves)
      ]
    ]
