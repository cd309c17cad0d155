-- ===== src/Process/Returns.antt =====
-- When the loops of src/process.rs have turns enough.
use boxed.Prelude.{
  ℕ, zero, suc, ◌+◌, ◌≤◌, ◌≡◌, refl, ◌∙◌, ap, ◌≢◌, ◌⊎◌, inl, inr, List, [], ◌∷◌, ◌++◌, Option, none,
  some, arith,
}
use boxed.Types.{WaitStatus}
use boxed.Error.{Result}
use boxed.Kernel.{Call, Outcome, failed, Machine, World, waitpid}
use boxed.Kernel.Script.{after}
use boxed.Process.{eintr, Turn, wait_turn, reap_turn, wait_loop, wait_for_child, reap_until_exit}
use boxed.Process.Wait.{ReapGoesOn, wait_turn-none, reap_turn-none}

-- The calls that wait for a child.
unfoldable pub waits : List Call → ℕ
waits [] = 0
waits (waitpid child ∷ cs) = suc (waits cs)
waits (c ∷ cs) = waits cs

waits-append :
    (cs : List Call) (child : Option ℕ) → waits (cs ++ waitpid child ∷ []) ≡ suc (waits cs)
unfolding waits
waits-append [] child = refl
waits-append (waitpid other ∷ cs) child = ap suc (waits-append cs child)
waits-append (c ∷ cs) child = waits-append cs child

Turn-cases : (t : Turn) → ((r : Result ℕ) × (t ≡ some r)) ⊎ (t ≡ none)
Turn-cases none = inr refl
Turn-cases (some r) = inl (r, refl)

module _ (target : Option ℕ) (turn : Outcome WaitStatus → Turn) (m : Machine) where
  wait_loop_again :
      (fuel : ℕ) (w : World)
      → turn (m.answer w.calls (waitpid target)) ≡ none
      → wait_loop target turn (suc fuel) m w
        ≡ wait_loop target turn fuel m (after w (waitpid target))
  unfolding wait_loop
  wait_loop_again fuel w e = rw (wait_loop, e) refl

  -- A loop that goes on in at most the first `n` turns returns in `n + 1` turns.
  pub wait_loop_returns :
      (n : ℕ)
      → ((cs : List Call) → n ≤ waits cs → turn (m.answer cs (waitpid target)) ≢ none)
      → (fuel : ℕ) (w : World) → n ≤ waits w.calls + fuel
      → (p : Result ℕ × World) × (wait_loop target turn (suc fuel) m w ≡ some p)
  unfolding wait_loop
  wait_loop_returns n few zero w enough =
      elim (Turn-cases (turn (m.answer w.calls (waitpid target)))) [
        | inl (r, e) ↦ ((r, after w (waitpid target)), rw (e, wait_loop) refl)
        | inr e ↦ absurd (few w.calls (omega (arith, enough)) e)
      ]
  wait_loop_returns n few (suc k) w enough =
      elim (Turn-cases (turn (m.answer w.calls (waitpid target)))) [
        | inl (r, e) ↦ ((r, after w (waitpid target)), rw (e, wait_loop) refl)
        | inr e ↦
            let (p, more) =
              wait_loop_returns n few k (after w (waitpid target))
                (omega (arith, enough, waits-append w.calls target)) in
            (p, wait_loop_again (suc k) w e ∙ more)
      ]

pub wait_for_child_returns :
    (m : Machine) (n child : ℕ) (w : World)
    → ((cs : List Call) → n ≤ waits cs → m.answer cs (waitpid (some child)) ≢ failed eintr)
    → (p : Result ℕ × World) × (wait_for_child child (suc n) m w ≡ some p)
unfolding wait_for_child
wait_for_child_returns m n child w few =
    wait_loop_returns (some child) wait_turn m n (λ cs h e. few cs h ((wait_turn-none _).0 e)) n w
      (omega arith)

pub reap_until_exit_returns :
    (m : Machine) (n child : ℕ) (w : World)
    → ((cs : List Call) → n ≤ waits cs → ReapGoesOn child (m.answer cs (waitpid none)) → ⊥)
    → (p : Result ℕ × World) × (reap_until_exit child (suc n) m w ≡ some p)
unfolding reap_until_exit
reap_until_exit_returns m n child w few =
    wait_loop_returns none (reap_turn child) m n (λ cs h e. few cs h ((reap_turn-none child _).0 e))
      n w (omega arith)
