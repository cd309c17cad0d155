-- ===== src/Process/Wait.antt =====
-- When the loops of src/process.rs return, and what.
use boxed.Prelude.{
  ℕ, ◌≤◌, ◌≡◌, refl, ◌≢◌, ◌⊎◌, ◌∙◌, true, Option, none, some, arith, ◌↔◌, zero, suc, ap, List, [],
  ◌∷◌, ◌++◌, append_assoc, append-nil,
}
use boxed.Types.{WaitStatus}
use boxed.Error.{context, os, Result, ok, err, bail, waitpid_failed, no_children_left}
use boxed.Kernel.{Outcome, done, failed, Call, Machine, World, waitpid}
use boxed.Kernel.Script.{after}
use boxed.Process.{
  exit_code, pid_of, eintr, echild, is_child, Turn, wait_turn, reap_turn, wait_loop, wait_for_child,
  reap_until_exit,
}

-- A loop on `waitpid` returns `r` at the world `w'`: some turns go on, and one returns.
pub data Loops (target : Option ℕ) (GoesOn : Outcome WaitStatus → Type 0)
    (Returns : Outcome WaitStatus → Result ℕ → Type 0) (m : Machine) (r : Result ℕ) (w' : World)
    : World → Type 0 where
  again :
      (w : World)
      → GoesOn (m.answer w.calls (waitpid target))
      → Loops target GoesOn Returns m r w' (after w (waitpid target))
      → Loops target GoesOn Returns m r w' w
  last :
      (w : World)
      → Returns (m.answer w.calls (waitpid target)) r
      → w' ≡ after w (waitpid target)
      → Loops target GoesOn Returns m r w' w

-- The calls of a loop on waitpid, and the answer that ends it.
pub Loops-answer :
    {target : Option ℕ} {GoesOn : Outcome WaitStatus → Type 0}
    {Returns : Outcome WaitStatus → Result ℕ → Type 0} {m : Machine} {r : Result ℕ} {w' w : World}
    → Loops target GoesOn Returns m r w' w
    → (between : List Call) × (w'.calls ≡ w.calls ++ (between ++ waitpid target ∷ []))
      × Returns (m.answer (w.calls ++ between) (waitpid target)) r
Loops-answer {target} (again w on more) =
    let (between, e, ret) = Loops-answer more in
    (
      waitpid target ∷ between,
      rw e (append_assoc w.calls (waitpid target ∷ []) _),
      rw append_assoc at ret,
    )
Loops-answer (last w ret same) = ([], ap (λ (v : World). v.calls) same, rw append-nil ret)

from_suc :
    (P : ℕ → Type 0) (n : ℕ) → ((k : ℕ) → n ≤ k → P (suc k)) → (fuel : ℕ) → suc n ≤ fuel → P fuel
from_suc P n h zero le = absurd (omega arith)
from_suc P n h (suc k) le = h k (omega arith)

module _ (target : Option ℕ) (turn : Outcome WaitStatus → Turn)
    (GoesOn : Outcome WaitStatus → Type 0) (Returns : Outcome WaitStatus → Result ℕ → Type 0)
    (none_iff : (o : Outcome WaitStatus) → (turn o ≡ none) ↔ GoesOn o)
    (some_iff : (o : Outcome WaitStatus) (r : Result ℕ) → (turn o ≡ some r) ↔ Returns o r)
    (m : Machine) (r : Result ℕ) (w' : World) where
  abbrev LoopsFrom : World → Type 0
  LoopsFrom = Loops target GoesOn Returns m r w'

  wait_loop_sound :
      (fuel : ℕ) (w : World) → wait_loop target turn fuel m w ≡ some (r, w') → LoopsFrom w
  unfolding wait_loop
  wait_loop_sound zero w h = cc
  wait_loop_sound (suc fuel) w h =
      go (wait_loop_sound fuel (after w (waitpid target)))
        (turn (m.answer w.calls (waitpid target))) refl h
    where
      go :
          (wait_loop target turn fuel m (after w (waitpid target)) ≡ some (r, w')
            → LoopsFrom (after w (waitpid target)))
          → (t : Turn) → turn (m.answer w.calls (waitpid target)) ≡ t
          → (elim t [
            | none ↦ wait_loop target turn fuel m (after w (waitpid target))
            | some q ↦ some (q, after w (waitpid target))
          ])
            ≡ some (r, w')
          → LoopsFrom w
      go ih none e h' = again w ((none_iff _).0 e) (ih h')
      go ih (some q) e h' = last w ((some_iff _ r).0 (e ∙ cc)) cc

  wait_loop_returns :
      (w : World)
      → LoopsFrom w
      → (n : ℕ) × ((fuel : ℕ) → n ≤ fuel → wait_loop target turn fuel m w ≡ some (r, w'))
  unfolding wait_loop
  wait_loop_returns _ (again w on more) =
      let (n, enough) = wait_loop_returns (after w (waitpid target)) more in
      (
        suc n,
        from_suc (λ fuel. wait_loop target turn fuel m w ≡ some (r, w')) n
            (λ k h. rw (wait_loop, (none_iff _).1 on) (enough k h)),
      )
  wait_loop_returns _ (last w ret same) = (
    1,
    from_suc (λ fuel. wait_loop target turn fuel m w ≡ some (r, w')) 0
        (λ k h. rw (wait_loop, (some_iff _ r).1 ret) (rw same refl)),
  )

abbrev pub WaitGoesOn : Outcome WaitStatus → Type 0
WaitGoesOn o = o ≡ failed eintr

abbrev pub WaitReturns : Outcome WaitStatus → Result ℕ → Type 0
WaitReturns (done status) r = r ≡ ok (exit_code status)
WaitReturns (failed e) r = (e ≢ eintr) × (r ≡ err (context waitpid_failed (os e)))

pub wait_turn-none : (o : Outcome WaitStatus) → (wait_turn o ≡ none) ↔ WaitGoesOn o
unfolding wait_turn
wait_turn-none (done status) = (λ h. cc, λ h. cc)
wait_turn-none (failed e) = (λ h. ground arith, λ h. ground arith)

wait_turn-some : (o : Outcome WaitStatus) (r : Result ℕ) → (wait_turn o ≡ some r) ↔ WaitReturns o r
unfolding wait_turn
wait_turn-some (done status) r = (λ h. cc, λ h. cc)
wait_turn-some (failed e) r = (λ h. ground arith, λ h. ground arith)

abbrev pub ReapGoesOn : ℕ → Outcome WaitStatus → Type 0
ReapGoesOn child (done status) = pid_of status ≢ some child
ReapGoesOn child (failed e) = e ≡ eintr

abbrev pub ReapReturns : ℕ → Outcome WaitStatus → Result ℕ → Type 0
ReapReturns child (done status) r = (pid_of status ≡ some child) × (r ≡ ok (exit_code status))
ReapReturns child (failed e) r =
    (e ≢ eintr)
    × ((e ≡ echild × (r ≡ bail (no_children_left child)))
        ⊎ ((e ≢ echild) × (r ≡ err (context waitpid_failed (os e)))))

is_child_iff : (child : ℕ) (o : Option ℕ) → (is_child child o ≡ true) ↔ (o ≡ some child)
is_child_iff child none = (λ h. cc, λ h. cc)
is_child_iff child (some pid) = ground arith

pub reap_turn-none :
    (child : ℕ) (o : Outcome WaitStatus) → (reap_turn child o ≡ none) ↔ ReapGoesOn child o
unfolding reap_turn
reap_turn-none child (done status) = (
  λ h. ground (arith, is_child_iff child (pid_of status)),
  λ h. ground (arith, is_child_iff child (pid_of status)),
)
reap_turn-none child (failed e) = (λ h. ground arith, λ h. ground arith)

reap_turn-some :
    (child : ℕ) (o : Outcome WaitStatus) (r : Result ℕ)
    → (reap_turn child o ≡ some r) ↔ ReapReturns child o r
unfolding reap_turn
reap_turn-some child (done status) r = (
  λ h. ground (arith, is_child_iff child (pid_of status)),
  λ h. ground (arith, is_child_iff child (pid_of status)),
)
reap_turn-some child (failed e) r = (λ h. ground arith, λ h. ground arith)

-- `wait_for_child` returns exactly if its calls of waitpid are interrupted up to one that answers a
-- status or another error. It then returns the exit code of the status, or that error under
-- `waitpid failed`, and every larger number of turns gives the same.
pub wait_for_child-Loops :
    (m : Machine) (child : ℕ) (w w' : World) (r : Result ℕ)
    → ((fuel : ℕ)
        → wait_for_child child fuel m w ≡ some (r, w')
        → Loops (some child) WaitGoesOn WaitReturns m r w' w)
      × (Loops (some child) WaitGoesOn WaitReturns m r w' w
          → (n : ℕ) × ((fuel : ℕ) → n ≤ fuel → wait_for_child child fuel m w ≡ some (r, w')))
unfolding wait_for_child
wait_for_child-Loops m child w w' r = (
  λ fuel h.
      wait_loop_sound (some child) wait_turn WaitGoesOn WaitReturns wait_turn-none wait_turn-some m
        r w' fuel w h,
  λ h.
      wait_loop_returns (some child) wait_turn WaitGoesOn WaitReturns wait_turn-none wait_turn-some
        m r w' w h,
)

-- `reap_until_exit` returns exactly if waitpid for any child is interrupted, or answers with other
-- processes, up to one answer that is the status of the child, that no child is left, or another
-- error. It then returns the exit code of that status, or the error, and every larger number of
-- turns gives the same: the status of another process is never its result.
pub reap_until_exit-Loops :
    (m : Machine) (child : ℕ) (w w' : World) (r : Result ℕ)
    → ((fuel : ℕ)
        → reap_until_exit child fuel m w ≡ some (r, w')
        → Loops none (ReapGoesOn child) (ReapReturns child) m r w' w)
      × (Loops none (ReapGoesOn child) (ReapReturns child) m r w' w
          → (n : ℕ) × ((fuel : ℕ) → n ≤ fuel → reap_until_exit child fuel m w ≡ some (r, w')))
unfolding reap_until_exit
reap_until_exit-Loops m child w w' r = (
  λ fuel h.
      wait_loop_sound none (reap_turn child) (ReapGoesOn child) (ReapReturns child)
        (reap_turn-none child) (reap_turn-some child) m r w' fuel w h,
  λ h.
      wait_loop_returns none (reap_turn child) (ReapGoesOn child) (ReapReturns child)
        (reap_turn-none child) (reap_turn-some child) m r w' w h,
)
