-- ===== src/Kernel/Heeds.antt =====
-- Code that stops at the first call that fails: no answer of the machine is ignored.
use boxed.Prelude.{
  ◌≡◌, refl, ◌∙◌, ap, sym, List, [], ◌∷◌, ◌++◌, append_assoc, append-nil, inl, inr, Bool, true,
  false, if◌then◌else◌,
}
use boxed.Error.{Message, Result, ok, err}
use boxed.Kernel.{
  Call, Outcome, done, failed, to_result, Machine, World, Io, call, lift, ask, within, proceed,
  ◌>>=◌,
}
use boxed.Kernel.Script.{Step, Succeeds, Ran, Ran-ok, Runs, actions, after}
use boxed.Kernel.Ensures.{ok-with_context}

-- The machine answers each of the calls, which come behind `before`, and fails none.
abbrev pub Answered : Machine → List Call → List Call → Type 0
Answered m before [] = Unit
Answered m before (c ∷ cs) = Succeeds (m.answer before c) × Answered m (before ++ c ∷ []) cs

-- If `io` returns a value, then all calls that it made were answered.
pub record Heeds {A : Type 0} (io : Io A) : Type 0 where
  pub heeded :
      (m : Machine) (w : World) (a : A)
      → (io m w).0 ≡ ok a
      → (made : List Call) × ((io m w).1.calls ≡ w.calls ++ made) × Answered m w.calls made

pub append_cancel : (l : List Call) {xs ys : List Call} → l ++ xs ≡ l ++ ys → xs ≡ ys
append_cancel [] h = h
append_cancel (c ∷ l) h = append_cancel l (cc)

module _ (m : Machine) where
  pub Answered-append :
      (before cs ds : List Call)
      → Answered m before cs
      → Answered m (before ++ cs) ds
      → Answered m before (cs ++ ds)
  Answered-append before [] ds h k = rw append-nil at k
  Answered-append before (c ∷ cs) ds (p, h) k =
      (p, Answered-append (before ++ c ∷ []) cs ds h (rw append_assoc k))

  -- The answers to the last of the calls.
  pub Answered-last :
      (before cs ds : List Call) → Answered m before (cs ++ ds) → Answered m (before ++ cs) ds
  Answered-last before [] ds h = rw append-nil h
  Answered-last before (c ∷ cs) ds (p, h) =
      rw append_assoc at (Answered-last (before ++ c ∷ []) cs ds h)

  pub Ran-Answered :
      (ss : List Step) (w w' : World) → Ran m w ss (ok tt, w') → Answered m w.calls (actions ss)
  Ran-Answered [] w w' h = tt
  Ran-Answered (s ∷ ss) w w' (inl (passed, rest)) =
      (passed, Ran-Answered ss (after w s.action) w' rest)
  Ran-Answered (s ∷ ss) w w' (inr (n, e, er, ew)) = cc

-- A call that succeeds is answered.
pub Succeeds-done : (o : Outcome (Unit {0})) → Succeeds o → o ≡ done tt
Succeeds-done (done _) h = refl
Succeeds-done (failed e) h = absurd h

pub Heeds-call : (c : Call) → Heeds (call c)
unfolding call
Heeds-call c = record { heeded = λ m w a h. (c ∷ [], refl, (go (m.answer w.calls c) h, tt)) }
  where
    go : {A : Type 0} {a : A} (o : Outcome A) → to_result o ≡ ok a → Succeeds o
    go (done x) h = tt
    go (failed e) h = cc

module _ {A : Type 0} where
  pub Heeds-lift : (r : Result A) → Heeds (lift r)
  Heeds-lift r = record { heeded = λ m w a h. ([], sym (append-nil w.calls), tt) }

  pub Heeds-ask : (f : Machine → A) → Heeds (ask f)
  Heeds-ask f = record { heeded = λ m w a h. ([], sym (append-nil w.calls), tt) }

  pub Heeds-within : (msg : Message) {io : Io A} → Heeds io → Heeds (within msg io)
  Heeds-within msg {io} h = record {
    heeded = λ m w a e. h.heeded m w a (ok-with_context msg (io m w).0 e);
  }

  pub Heeds-if :
      (b : Bool) {io next : Io A} → Heeds io → Heeds next → Heeds (if b then io else next)
  Heeds-if true h k = h
  Heeds-if false h k = k

module _ {A B : Type 0} where
  Heeds-proceed :
      (r : Result A) (f : A → Io B) (m : Machine) (w w' : World) (b : B)
      → ((a : A)
          → r ≡ ok a
          → (made : List Call) × (w'.calls ≡ w.calls ++ made) × Answered m w.calls made)
      → ((a : A) → Heeds (f a))
      → (proceed r f m w').0 ≡ ok b
      → (made : List Call) × ((proceed r f m w').1.calls ≡ w.calls ++ made)
        × Answered m w.calls made
  Heeds-proceed (err e) f m w w' b h k eq = cc
  Heeds-proceed (ok a) f m w w' b h k eq =
      let (first, e, q) = h a refl in
      let (rest, e', q') = (k a).heeded m w' b eq in
      (
        first ++ rest,
        e' ∙ (ap (λ cs. cs ++ rest) e ∙ append_assoc w.calls first rest),
        Answered-append m w.calls first rest q (rw e at q'),
      )

  pub Heeds-bind :
      (io : Io A) (f : A → Io B) → Heeds io → ((a : A) → Heeds (f a)) → Heeds (io >>= f)
  Heeds-bind io f h k = record {
    heeded = λ m w b e. Heeds-proceed (io m w).0 f m w (io m w).1 b (λ a. h.heeded m w a) k e;
  }

pub Runs-Heeds :
    (io : Io (Unit {0})) (ss : Machine → List Step) → ((m : Machine) → Runs m io (ss m)) → Heeds io
Runs-Heeds io ss runs = record {
  heeded = λ m w a h.
      let ran = rw h at ((runs m).ran w) in
      (
        actions (ss m),
        ap (λ (v : World). v.calls) (Ran-ok m (ss m) w (io m w).1 ran),
        Ran-Answered m (ss m) w (io m w).1 ran,
      );
}

-- What is known of the calls of code that heeds its answers, and returns.
pub Heeds-Answered :
    {A : Type 0} {io : Io A} (m : Machine) (w : World) (a : A) (made : List Call)
    → Heeds io
    → (io m w).0 ≡ ok a
    → (io m w).1.calls ≡ w.calls ++ made
    → Answered m w.calls made
Heeds-Answered m w a made h e same =
    let (found, calls, answered) = h.heeded m w a e in
    rw (append_cancel w.calls (sym calls ∙ same)) at answered
