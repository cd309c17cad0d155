-- ===== src/Kernel/Script.antt =====
-- Straight-line code: a list of calls, each with the contexts that its error gets.
use boxed.Prelude.{
  ℕ, ◌≡◌, refl, ◌⊎◌, inl, inr, List, [], ◌∷◌, ◌++◌, map, ap, ◌∙◌, sym, append-nil, append_assoc,
}
use boxed.Error.{Message, Error, os, context, Result, ok, err, with_context}
use boxed.Kernel.{
  Call, Reply, Outcome, done, failed, Machine, World, Io, to_result, call, pure, ask, proceed,
  ◌>>=◌, ◌>>◌, within,
}

-- The innermost context comes first.
pub record Step : Type 0 where
  pub action : Call
  pub contexts : List Message

abbrev pub contexts_of : List Message → Error → Error
contexts_of [] e = e
contexts_of (msg ∷ msgs) e = contexts_of msgs (context msg e)

abbrev pub withins : {A : Type 0} → List Message → Io A → Io A
withins [] io = io
withins (msg ∷ msgs) io = withins msgs (within msg io)

abbrev pub Succeeds : {A : Type 0} → Outcome A → Type 0
Succeeds (done a) = Unit
Succeeds (failed e) = ⊥

abbrev pub after : World → Call → World
after w c = record w { calls = w.calls ++ c ∷ [] }

-- The calls of the steps are made in order, from the world `w`, up to the first that fails. If one
-- fails, the result is its error under the contexts of its step; if none does, it is `ok`.
abbrev pub Ran : Machine → World → List Step → Result (Unit {0}) × World → Type 0
Ran m w [] (r, w') = (r ≡ ok tt) × (w' ≡ w)
Ran m w (s ∷ ss) (r, w') =
    (Succeeds (m.answer w.calls s.action) × Ran m (after w s.action) ss (r, w'))
    ⊎ ((e : ℕ) × (m.answer w.calls s.action ≡ failed e)
        × (r ≡ err (contexts_of s.contexts (os e)))
        × (w' ≡ after w s.action))

-- On the machine, `io` makes the calls of the steps and no other.
pub record Runs (m : Machine) (io : Io (Unit {0})) (ss : List Step) : Type 0 where
  pub ran : (w : World) → Ran m w ss (io m w)

-- `.context` for each message.
abbrev with_contexts : {A : Type 0} → List Message → Result A → Result A
with_contexts [] r = r
with_contexts (msg ∷ msgs) r = with_contexts msgs (with_context msg r)

withins-eq :
    {A : Type 0} (msgs : List Message) (io : Io A) (m : Machine) (w : World)
    → withins msgs io m w ≡ (with_contexts msgs (io m w).0, (io m w).1)
withins-eq [] io m w = refl
withins-eq (msg ∷ msgs) io m w = withins-eq msgs (within msg io) m w

with_contexts-ok : {A : Type 0} (msgs : List Message) (a : A) → with_contexts msgs (ok a) ≡ ok a
with_contexts-ok [] a = refl
with_contexts-ok (msg ∷ msgs) a = with_contexts-ok msgs a

with_contexts-err :
    {A : Type 0} (msgs : List Message) (e : Error)
    → with_contexts {A = A} msgs (err e) ≡ err (contexts_of msgs e)
with_contexts-err [] e = refl
with_contexts-err (msg ∷ msgs) e = with_contexts-err msgs (context msg e)

module _ (m : Machine) (c : Call) (msgs : List Message) (next : Reply c → Io (Unit {0}))
    (ss : List Step) where
  Ran-answer :
      (w : World) (o : Outcome (Reply c))
      → m.answer w.calls c ≡ o
      → ((a : Reply c) → Ran m (after w c) ss (next a m (after w c)))
      → Ran m w
          (record { action = c; contexts = msgs } ∷ ss)
          (proceed (with_contexts msgs (to_result o)) next m (after w c))
  Ran-answer w (done a) e rest = rw with_contexts-ok (inl (rw e tt, rest a))
  Ran-answer w (failed n) e rest = rw with_contexts-err (inr (n, e, refl, refl))

  -- A call and what follows it.
  pub Runs-cons :
      ((a : Reply c) → Runs m (next a) ss)
      → Runs m (withins msgs (call c) >>= next) (record { action = c; contexts = msgs } ∷ ss)
  unfolding call
  Runs-cons rest = record {
    ran =
        λ w. rw withins-eq (Ran-answer w (m.answer w.calls c) refl (λ a. (rest a).ran (after w c)));
  }

pub Runs-nil : {m : Machine} → Runs m (pure tt) []
Runs-nil = record { ran = λ w. (refl, refl) }

Ran-append :
    (m : Machine) (io : Io (Unit {0})) (ss ts : List Step) (w w' : World) (r : Result (Unit {0}))
    → Runs m io ts
    → Ran m w ss (r, w')
    → Ran m w (ss ++ ts) (proceed r (λ _. io) m w')
Ran-append m io [] ts w w' r next (e, ew) = rw (e, ew) (next.ran w)
Ran-append m io (s ∷ ss) ts w w' r next (inl (passed, rest)) =
    inl (passed, Ran-append m io ss ts (after w s.action) w' r next rest)
Ran-append m io (s ∷ ss) ts w w' r next (inr (n, e, er, ew)) = inr (n, e, rw er refl, rw er ew)

-- One piece of code after another.
pub Runs-append :
    {m : Machine} (io next : Io (Unit {0})) (ss ts : List Step)
    → Runs m io ss
    → Runs m next ts
    → Runs m (io >> next) (ss ++ ts)
Runs-append {m} io next ss ts first rest = record {
  ran = λ w. Ran-append m next ss ts w (io m w).1 (io m w).0 rest (first.ran w);
}

abbrev pub under : Message → List Step → List Step
under msg = map {A = Step} (λ s. record s { contexts = s.contexts ++ msg ∷ [] })

contexts_of-append :
    (msgs : List Message) (msg : Message) (e : Error)
    → contexts_of (msgs ++ msg ∷ []) e ≡ context msg (contexts_of msgs e)
contexts_of-append [] msg e = refl
contexts_of-append (m ∷ msgs) msg e = contexts_of-append msgs msg (context m e)

Ran-under :
    (m : Machine) (msg : Message) (ss : List Step) (w w' : World) (r : Result (Unit {0}))
    → Ran m w ss (r, w')
    → Ran m w (under msg ss) (with_context msg r, w')
Ran-under m msg [] w w' r (e, ew) = (rw e refl, ew)
Ran-under m msg (s ∷ ss) w w' r (inl (passed, rest)) =
    inl (passed, Ran-under m msg ss (after w s.action) w' r rest)
Ran-under m msg (s ∷ ss) w w' r (inr (n, e, er, ew)) =
    inr (n, e, rw (er, contexts_of-append) refl, ew)

-- A context round a piece of code.
pub Runs-within :
    {m : Machine} (msg : Message) (io : Io (Unit {0})) (ss : List Step)
    → Runs m io ss
    → Runs m (within msg io) (under msg ss)
Runs-within {m} msg io ss runs = record {
  ran = λ w. Ran-under m msg ss w (io m w).1 (io m w).0 (runs.ran w);
}

-- A call under one message, and a call with none.
module _ {m : Machine} (c : Call) (next : Reply c → Io (Unit {0})) (ss : List Step)
    (rest : (a : Reply c) → Runs m (next a) ss) where
  pub Runs-within-call :
      (msg : Message)
      → Runs m (within msg (call c) >>= next) (record { action = c; contexts = msg ∷ [] } ∷ ss)
  Runs-within-call msg = Runs-cons m c (msg ∷ []) next ss rest

  pub Runs-call : Runs m (call c >>= next) (record { action = c; contexts = [] } ∷ ss)
  Runs-call = Runs-cons m c [] next ss rest

-- A value of the machine.
pub Runs-ask :
    {A : Type 0} {m : Machine} (f : Machine → A) (next : A → Io (Unit {0})) (ss : List Step)
    → Runs m (next (f m)) ss
    → Runs m (ask f >>= next) ss
Runs-ask f next ss h = record { ran = λ w. h.ran w }

pub ruleset script_rules = (Runs-within-call, Runs-call, Runs-nil)

abbrev pub actions : List Step → List Call
actions = map (λ s. s.action)

-- A run that returns `ok` has made all the calls.
pub Ran-ok :
    (m : Machine) (ss : List Step) (w w' : World)
    → Ran m w ss (ok tt, w')
    → w' ≡ record w { calls = w.calls ++ actions ss }
Ran-ok m [] w w' (e, ew) = ew ∙ ap (λ cs. record w { calls = cs }) (sym (append-nil w.calls))
Ran-ok m (s ∷ ss) w w' (inl (passed, rest)) =
    Ran-ok m ss (after w s.action) w' rest
    ∙ ap (λ cs. record w { calls = cs }) (append_assoc w.calls (s.action ∷ []) (actions ss))
Ran-ok m (s ∷ ss) w w' (inr (n, e, er, ew)) = cc

-- A run that stops at an error has made the first of the calls, and the static is as before.
pub Ran-made :
    (m : Machine) (ss : List Step) (w w' : World) (r : Result (Unit {0}))
    → Ran m w ss (r, w')
    → (made rest : List Call) × (actions ss ≡ made ++ rest)
      × (w' ≡ record w { calls = w.calls ++ made })
Ran-made m [] w w' r (e, ew) =
    ([], [], refl, ew ∙ ap (λ cs. record w { calls = cs }) (sym (append-nil w.calls)))
Ran-made m (s ∷ ss) w w' r (inl (passed, more)) =
    let (made, rest, split, ew) = Ran-made m ss (after w s.action) w' r more in
    (
      s.action ∷ made,
      rest,
      ap (λ cs. s.action ∷ cs) split,
      ew ∙ ap (λ cs. record w { calls = cs }) (append_assoc w.calls (s.action ∷ []) made),
    )
Ran-made m (s ∷ ss) w w' r (inr (n, e, er, ew)) = (s.action ∷ [], actions ss, refl, ew)
