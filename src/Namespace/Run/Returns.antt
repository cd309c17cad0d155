-- ===== src/Namespace/Run/Returns.antt =====
-- When `run_in_namespace` of src/namespace.rs returns.
use mathlib.Core.Option
use boxed.Prelude.{ℕ, suc, ◌≤◌, ◌≡◌, refl, ap, ◌≢◌, Bool, List, some}
use boxed.Error.{Result, ok, err}
use boxed.Kernel.{Call, failed, Machine, World, call, attempt, drop_write_fd, waitpid}
use boxed.Rootless.{RootlessConfig}
use boxed.Cgroups.Config.{is_some}
use boxed.Process.{eintr}
use boxed.Process.Returns.{waits, wait_for_child_returns}
use boxed.Namespace.{RuntimeConfig, runtime_config}
use boxed.Namespace.Run.{
  RunOptions, launch, setup, conclude, supervise, after_launch, run_in_namespace,
}

-- The machine interrupts at most the first `n` waits.
abbrev pub Interrupts : ℕ → Machine → Type 0
Interrupts n m =
    (cs : List Call) (child : ℕ) → n ≤ waits cs → m.answer cs (waitpid (some child)) ≢ failed eintr

module _ (m : Machine) (n : ℕ) (few : Interrupts n m) where
  after_launch_returns :
      (runtime : RuntimeConfig) (overlay : Bool) (l : Result ℕ) (w : World)
      → (p : Result ℕ × World) × (after_launch (suc n) runtime overlay m (l, w) ≡ some p)
  unfolding after_launch supervise
  after_launch_returns runtime overlay (err e) w = (_, refl)
  after_launch_returns runtime overlay (ok child) w =
      let (p, e) =
        wait_for_child_returns m n child
          (attempt (call drop_write_fd) m (setup runtime child m w).1).1 (λ cs h. few cs child h) in
      (_, ap (Option.map (conclude overlay (setup runtime child m w).0 m)) e)

  -- If at most `n` waits are interrupted, `n + 1` turns of the loop are enough: the run returns,
  -- whatever else succeeds or fails.
  pub run_in_namespace_returns :
      (opts : RunOptions) (rootless : RootlessConfig) (w : World)
      → (r : Result ℕ) × (w' : World) × (run_in_namespace (suc n) opts rootless m w ≡ some (r, w'))
  unfolding run_in_namespace
  run_in_namespace_returns opts rootless w =
      let runtime = runtime_config opts.limits rootless in
      let ((r, w'), e) =
        after_launch_returns runtime (is_some opts.image) (launch runtime m w).0
          (launch runtime m w).1 in
      (r, w', e)
