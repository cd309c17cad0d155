-- ===== src/Namespace/Run/Exit.antt =====
-- The exit code of the command, from the shim through the parent of src/namespace.rs.
use boxed.Prelude.{
  ℕ, ◌%◌, ◌^◌, ◌≡◌, refl, ◌∙◌, ap, sym, ◌⊎◌, inl, inr, Bool, List, ◌++◌, Option, some,
}
use boxed.Types.{Capability, WaitStatus, exited}
use boxed.Error.{Result, ok, ok_injective, err}
use boxed.Kernel.{Call, Outcome, done, failed, Machine, World, waitpid}
use boxed.Cgroups.Config.{is_some}
use boxed.Cgroups.Create.{Cgroup}
use boxed.Rootless.{RootlessConfig}
use boxed.Seccomp.Libc.{Libc}
use boxed.Process.{exit_code}
use boxed.Process.Wait.{Loops-answer, WaitReturns}
use boxed.Namespace.{RuntimeConfig, shim, enter, child_fn}
use boxed.Namespace.Shim.{CommandEnds, Fails, enter-CommandEnds}
use boxed.Namespace.Run.{RunOptions, child_context, run_in_namespace}
use boxed.Namespace.Run.Trace.{
  runtime_of, Concludes, Supervised, NotLaunched, run_in_namespace-Supervised,
}

-- What waitpid reports of a child that clone started on `child_fn`: it exited with the low 8 bits
-- of what `child_fn` returned.
abbrev pub Reports : Machine → Result ℕ → Type 0
Reports m r =
    (cs : List Call) (child : ℕ) (status : WaitStatus)
    → m.answer cs (waitpid (some child)) ≡ done status
    → status ≡ exited child (child_fn r % 2 ^ 8)

reported-code :
    (m : Machine) (r : Result ℕ) (cs : List Call) (child code : ℕ)
    → Reports m r
    → (o : Outcome WaitStatus) → m.answer cs (waitpid (some child)) ≡ o
    → WaitReturns o (ok code)
    → code ≡ child_fn r % 2 ^ 8
unfolding exit_code
reported-code m r cs child code reports (done status) e ret =
    ok_injective (ret ∙ ap (λ s. ok (exit_code s)) (reports cs child status e))
reported-code m r cs child code reports (failed n) e (other, ret) = cc

concluded-code :
    (overlay : Bool) (m : Machine) (before : List Call) (cg : Option Cgroup)
    (value : Result (Unit {0})) (exit : Result ℕ) (code : ℕ) (end_calls : List Call)
    → Concludes overlay m before cg value exit (ok code) end_calls
    → exit ≡ ok code
concluded-code overlay m before cg (err e) exit code end_calls (same, h) = cc
concluded-code overlay m before cg (ok _) exit code end_calls (same, torn, quiet, h) = sym same

waited-code :
    (m : Machine) (runtime : RuntimeConfig) (overlay : Bool) (w w' : World) (code : ℕ)
    (r : Result ℕ)
    → Reports m r
    → NotLaunched runtime.flags m w (ok code) w' ⊎ Supervised runtime overlay m w (ok code) w'
    → code ≡ child_fn r % 2 ^ 8
waited-code m runtime overlay w w' code r reports (inl (inl (n, e, h))) = cc
waited-code m runtime overlay w w' code r reports (inl (inr (n, e, h))) = cc
waited-code m runtime overlay w w' code r reports (inr run) =
    let exits =
      concluded-code overlay m run.waited.calls run.cgroup run.value run.exit code run.last
        run.concludes in
    let (between, calls, ret) = Loops-answer run.waits in
    reported-code m r (run.dropped.calls ++ between) run.child code reports _ refl (rw exits at ret)

-- The exit code of the command is propagated. Let a run return a code, let its child become the shim
-- and return, and let waitpid report what the child exited with, cut to 8 bits. Then the
-- shim returned an error, and the code is 1; or the shim forked the command and waited for it,
-- and the code is the exit code of the command's status, cut to 8 bits.
pub run_in_namespace-enter :
    (l : Libc) (all : List Capability) (fuel fuel' : ℕ) (opts : RunOptions)
    (rootless : RootlessConfig) (m m' : Machine) (w w' v v' : World) (code : ℕ) (r : Result ℕ)
    → run_in_namespace fuel opts rootless m w ≡ some (ok code, w')
    → enter l all fuel' (child_context opts m.pid) m' v ≡ shim (some (r, v'))
    → Reports m r
    → (Fails r × (code ≡ 1))
      ⊎ ((ended : CommandEnds m' v' r) × (code ≡ exit_code ended.status % 2 ^ 8))
unfolding child_fn
run_in_namespace-enter l all fuel fuel' opts rootless m m' w w' v v' code r h h' reports =
    let same =
      waited-code m (runtime_of opts rootless) (is_some opts.image) w w' code r reports
        (run_in_namespace-Supervised fuel opts rootless m w (ok code) w' h) in
    elim (enter-CommandEnds l all fuel' (child_context opts m.pid) m' v v' r h') [
      | inl (e, fails) ↦ inl ((e, fails), same ∙ ap (λ x. child_fn x % 2 ^ 8) fails)
      | inr ended ↦ inr (ended, same ∙ ap (λ x. child_fn x % 2 ^ 8) ended.returned)
    ]
