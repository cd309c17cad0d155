-- ===== src/Process/Tests.antt =====
-- The theorems on src/process.rs at inputs.
use boxed.Prelude.{ℕ, ◌≤◌, ◌≡◌, refl, none, some, [], ◌∷◌}
use boxed.Types.{signaled, sigterm}
use boxed.Error.{ok}
use boxed.Kernel.{World, waitpid}
use boxed.Kernel.Sample.{granting, fresh}
use boxed.Process.{exit_code, reap_until_exit}
use boxed.Process.Wait.{Loops, ReapGoesOn, ReapReturns, reap_until_exit-Loops}

abbrev reaped : World
reaped = record { calls = waitpid none ∷ []; child_pid = 0 }

reap_until_exit-Loops_example :
    ((fuel : ℕ)
      → reap_until_exit 42 fuel granting fresh ≡ some (ok 0, reaped)
      → Loops none (ReapGoesOn 42) (ReapReturns 42) granting (ok 0) reaped fresh)
    × (Loops none (ReapGoesOn 42) (ReapReturns 42) granting (ok 0) reaped fresh
        → (n : ℕ) × ((fuel : ℕ)
            → n ≤ fuel
            → reap_until_exit 42 fuel granting fresh ≡ some (ok 0, reaped)))
reap_until_exit-Loops_example = reap_until_exit-Loops granting 42 fresh reaped (ok 0)

killed : exit_code (signaled 42 sigterm) ≡ 143
unfolding exit_code
killed = refl
