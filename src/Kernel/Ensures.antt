-- ===== src/Kernel/Ensures.antt =====
-- What a piece of code has done when it returns `ok`, whatever the machine answered.
use boxed.Prelude.{
  All, All-prefix, ◌≡◌, refl, ◌∙◌, ap, sym, ◌⊎◌, inl, inr, List, [], ◌∷◌, ◌++◌, append-nil,
  append_assoc, Option, none, some, Bool, true, false, if◌then◌else◌,
}
use boxed.Error.{Message, Error, err_injective, Result, ok, err, with_context}
use boxed.Kernel.Script.{Step, Runs, actions, Ran-ok, Ran-made}
use boxed.Kernel.Makes.{Makes}
use boxed.Kernel.{Call, Machine, World, Io, call, lift, proceed, ◌>>=◌, ◌>>◌, within, for_some}

-- If `io` returns a value, it has made calls that, with the value, are in the relation.
pub record Ensures {A : Type 0} (Q : List Call → A → Type 0) (io : Io A) : Type 0 where
  pub ensured :
      (m : Machine) (w : World) (a : A)
      → (io m w).0 ≡ ok a
      → (made : List Call) × ((io m w).1.calls ≡ w.calls ++ made) × Q made a

abbrev pub Exactly : {A : Type 0} → List Call → Io A → Type 0
Exactly cs = Ensures (λ made _. made ≡ cs)

pub Ensures-call : (c : Call) → Exactly (c ∷ []) (call c)
unfolding call
Ensures-call c = record { ensured = λ m w a h. (c ∷ [], refl, refl) }

module _ {A : Type 0} where
  pub Ensures-lift : (r : Result A) → Ensures (λ made a. (made ≡ []) × (r ≡ ok a)) (lift r)
  Ensures-lift r = record { ensured = λ m w a h. ([], sym (append-nil w.calls), (refl, h)) }

  pub ok-with_context :
      (msg : Message) (r : Result A) {a : A} → with_context msg r ≡ ok a → r ≡ ok a
  ok-with_context msg (ok x) h = h
  ok-with_context msg (err e) h = cc

  pub Ensures-within :
      {Q : List Call → A → Type 0} (msg : Message) (io : Io A)
      → Ensures Q io
      → Ensures Q (within msg io)
  Ensures-within msg io h = record {
    ensured = λ m w a e. h.ensured m w a (ok-with_context msg (io m w).0 e);
  }

  pub Ensures-weaken :
      {Q R : List Call → A → Type 0} (io : Io A)
      → ((made : List Call) (a : A) → Q made a → R made a)
      → Ensures Q io
      → Ensures R io
  Ensures-weaken io f h = record {
    ensured = λ m w a e. let (made, same, q) = h.ensured m w a e in (made, same, f made a q);
  }

abbrev pub Then :
    {A B : Type 0}
    → (List Call → A → Type 0)
    → (A → List Call → B → Type 0)
    → List Call
    → B
    → Type 0
Then {A} Q R made b =
    (a : A) × (first : List Call) × (rest : List Call) × (made ≡ first ++ rest)
    × Q first a
    × R a rest b

module _ {A B : Type 0} {Q : List Call → A → Type 0} {R : A → List Call → B → Type 0} where
  Ensures-proceed :
      (r : Result A) (f : A → Io B) (m : Machine) (w w' : World) (b : B)
      → ((a : A) → r ≡ ok a → (made : List Call) × (w'.calls ≡ w.calls ++ made) × Q made a)
      → ((a : A) → Ensures (R a) (f a))
      → (proceed r f m w').0 ≡ ok b
      → (made : List Call) × ((proceed r f m w').1.calls ≡ w.calls ++ made) × Then Q R made b
  Ensures-proceed (err e) f m w w' b h k eq = cc
  Ensures-proceed (ok a) f m w w' b h k eq =
      let (first, e, q) = h a refl in
      let (rest, e', q') = (k a).ensured m w' b eq in
      (
        first ++ rest,
        e' ∙ (ap (λ cs. cs ++ rest) e ∙ append_assoc w.calls first rest),
        (a, first, rest, refl, q, q'),
      )

  pub Ensures-bind :
      (io : Io A) (f : A → Io B)
      → Ensures Q io
      → ((a : A) → Ensures (R a) (f a))
      → Ensures (Then Q R) (io >>= f)
  Ensures-bind io f h k = record {
    ensured = λ m w b e. Ensures-proceed (io m w).0 f m w (io m w).1 b (λ a. h.ensured m w a) k e;
  }

module _ {A B : Type 0} {cs ds : List Call} where
  pub Exactly-then :
      (io : Io A) (next : Io B) → Exactly cs io → Exactly ds next → Exactly (cs ++ ds) (io >> next)
  Exactly-then io next h k =
      Ensures-weaken (io >> next) (λ made b (a, first, rest, e, e', e''). rw (e, e', e'') refl)
        (Ensures-bind io (λ _. next) h (λ _. k))

-- The calls of an optional step.
abbrev pub option_calls : {A : Type 0} → Option A → (A → List Call) → List Call
option_calls none f = []
option_calls (some a) f = f a

pub Exactly-lift : {A : Type 0} (r : Result A) → Exactly [] (lift r)
Exactly-lift r = Ensures-weaken (lift r) (λ made b (e, e'). e) (Ensures-lift r)

pub Ensures-if :
    {A : Type 0} {Q : List Call → A → Type 0} (b : Bool) (io next : Io A)
    → Ensures Q io
    → Ensures Q next
    → Ensures Q (if b then io else next)
Ensures-if true io next h k = h
Ensures-if false io next h k = k

pub Exactly-pure : {A : Type 0} (a : A) → Exactly [] (lift (ok a))
Exactly-pure a = Ensures-weaken _ (λ made b (e, e'). e) (Ensures-lift (ok a))

pub Exactly-for_some :
    {A : Type 0} (o : Option A) (f : A → Io (Unit {0})) (cs : A → List Call)
    → ((a : A) → Exactly (cs a) (f a))
    → Exactly (option_calls o cs) (for_some o f)
Exactly-for_some none f cs h = Exactly-pure tt
Exactly-for_some (some a) f cs h = h a

-- The calls `cs`, then calls in the relation `Q`.
abbrev pub After : {A : Type 0} → List Call → (List Call → A → Type 0) → List Call → A → Type 0
After cs Q made a = (last : List Call) × (made ≡ cs ++ last) × Q last a

module _ {A B : Type 0} {cs : List Call} {Q : List Call → B → Type 0} (io : Io A) (next : Io B)
    (first : Exactly cs io) where
  pub Ensures-then : Ensures Q next → Ensures (After cs Q) (io >> next)
  Ensures-then k =
      Ensures-weaken (io >> next) (λ made b (a, head, rest, e, e', q). (rest, rw (e, e') refl, q))
        (Ensures-bind io (λ _. next) first (λ _. k))

  pub Ensures-chain :
      (ds : List Call) → Ensures (After ds Q) next → Ensures (After (cs ++ ds) Q) (io >> next)
  Ensures-chain ds k =
      Ensures-weaken (io >> next)
        (λ made b (a, head, rest, e, e', (last, e'', q)).
          (last, e ∙ (rw (e', e'') (sym (append_assoc cs ds last))), q))
        (Ensures-bind io (λ _. next) first (λ _. k))

-- Straight-line code that returns `ok` has made all its calls.
pub Runs-Exactly :
    (io : Io (Unit {0})) (ss : List Step) → ((m : Machine) → Runs m io ss) → Exactly (actions ss) io
Runs-Exactly io ss runs = record {
  ensured = λ m w a h. (
    actions ss,
    ap (λ (v : World). v.calls) (Ran-ok m ss w (io m w).1 (rw h at ((runs m).ran w))),
    refl,
  );
}

pub Makes-Ensures :
    {A : Type 0} {test : Call → Bool} (io : Io A)
    → Makes test io
    → Ensures (λ made a. All (λ c. test c ≡ true) made) io
Makes-Ensures io h = record { ensured = λ m w a e. h.calls_of m w }

-- Straight-line code makes only calls of its steps.
pub Runs-Makes :
    {test : Call → Bool} (io : Io (Unit {0})) (ss : Machine → List Step)
    → ((m : Machine) → Runs m io (ss m))
    → ((m : Machine) → All (λ c. test c ≡ true) (actions (ss m)))
    → Makes test io
Runs-Makes {test} io ss runs all = record {
  calls_of = λ m w.
      let (made, rest, split, e) = Ran-made m (ss m) w (io m w).1 (io m w).0 ((runs m).ran w) in
      (
        made,
        ap (λ (v : World). v.calls) e,
        All-prefix (λ c. test c ≡ true) made rest (rw split at (all m)),
      );
}

-- A bind that returns `ok` is the second part at the value of the first.
pub proceed-ok :
    {A B : Type 0} (r : Result A) (f : A → Io B) (m : Machine) (w : World) {b : B}
    → (proceed r f m w).0 ≡ ok b
    → (a : A) × (r ≡ ok a) × ((f a m w).0 ≡ ok b) × (proceed r f m w ≡ f a m w)
proceed-ok (ok a) f m w h = (a, refl, h, refl)
proceed-ok (err e) f m w h = cc

-- A bind that returns an error returns that of the first part, or of the second at its value.
pub proceed-err :
    {A B : Type 0} (r : Result A) (f : A → Io B) (m : Machine) (w : World) {e : Error}
    → (proceed r f m w).0 ≡ err e
    → (r ≡ err e) ⊎ ((a : A) × (r ≡ ok a) × ((f a m w).0 ≡ err e))
proceed-err (ok a) f m w h = inr (a, refl, h)
proceed-err (err e) f m w h = inl (ap err (err_injective h))
