-- ===== src/Kernel/Makes.antt =====
-- Which calls a piece of code can make, whatever the machine answers.
use boxed.Prelude.{
  ◌≡◌, refl, ◌∙◌, ap, sym, Bool, true, false, List, [], ◌∷◌, ◌++◌, Option, none, some, append-nil,
  append_assoc, All, All-append, All-map, if◌then◌else◌,
}
use boxed.Error.{Message, Result, ok, err}
use boxed.Kernel.{
  Call, Machine, World, Io, call, lift, ask, proceed, ◌>>=◌, within, attempt, for_some,
}

-- Every call of `io` passes the test.
pub record Makes {A : Type 0} (test : Call → Bool) (io : Io A) : Type 0 where
  pub calls_of :
      (m : Machine) (w : World)
      → (made : List Call) × ((io m w).1.calls ≡ w.calls ++ made) × All (λ c. test c ≡ true) made

module _ {test : Call → Bool} where
  pub Makes-call : (c : Call) → test c ≡ true → Makes test (call c)
  unfolding call
  Makes-call c h = record { calls_of = λ m w. (c ∷ [], refl, (h, tt)) }

  pub Makes-checked : (msg : Message) (c : Call) → test c ≡ true → Makes test (within msg (call c))
  unfolding call
  Makes-checked msg c h = record { calls_of = λ m w. (c ∷ [], refl, (h, tt)) }

module _ {test : Call → Bool} {A : Type 0} where
  pub Makes-lift : (r : Result A) → Makes test (lift r)
  Makes-lift r = record { calls_of = λ m w. ([], sym (append-nil w.calls), tt) }

  pub Makes-ask : (f : Machine → A) → Makes test (ask f)
  Makes-ask f = record { calls_of = λ m w. ([], sym (append-nil w.calls), tt) }

  pub Makes-within : (msg : Message) (io : Io A) → Makes test io → Makes test (within msg io)
  Makes-within msg io h = record { calls_of = λ m w. h.calls_of m w }

  pub Makes-attempt : (io : Io A) → Makes test io → Makes test (attempt io)
  Makes-attempt io h = record { calls_of = λ m w. h.calls_of m w }

  pub Makes-if :
      (b : Bool) (io next : Io A)
      → Makes test io
      → Makes test next
      → Makes test (if b then io else next)
  Makes-if true io next h k = h
  Makes-if false io next h k = k

module _ {test : Call → Bool} {A B : Type 0} where
  Makes-proceed :
      (r : Result A) (f : A → Io B) (m : Machine) (w w' : World) (made : List Call)
      → w'.calls ≡ w.calls ++ made
      → All (λ c. test c ≡ true) made
      → ((a : A) → Makes test (f a))
      → (all : List Call) × ((proceed r f m w').1.calls ≡ w.calls ++ all)
        × All (λ c. test c ≡ true) all
  Makes-proceed (err e) f m w w' made e' h k = (made, e', h)
  Makes-proceed (ok a) f m w w' made e' h k =
      let (more, e'', h') = (k a).calls_of m w' in
      (
        made ++ more,
        e'' ∙ (ap (λ cs. cs ++ more) e' ∙ append_assoc w.calls made more),
        All-append (λ c. test c ≡ true) made more h h',
      )

  pub Makes-bind :
      (io : Io A) (f : A → Io B)
      → Makes test io
      → ((a : A) → Makes test (f a))
      → Makes test (io >>= f)
  Makes-bind io f h k = record {
    calls_of = λ m w.
        let (made, e, all) = h.calls_of m w in
        Makes-proceed (io m w).0 f m w (io m w).1 made e all k;
  }

pub Makes-for_some :
    {test : Call → Bool} {A : Type 0} (o : Option A) (f : A → Io (Unit {0}))
    → ((a : A) → Makes test (f a))
    → Makes test (for_some o f)
Makes-for_some none f h = Makes-lift (ok tt)
Makes-for_some (some a) f h = h a

-- A weaker test.
pub Makes-weaken :
    {test test' : Call → Bool} {A : Type 0} (io : Io A)
    → ((c : Call) → test c ≡ true → test' c ≡ true)
    → Makes test io
    → Makes test' io
Makes-weaken {test} {test'} io f h = record {
  calls_of = λ m w.
      let (made, same, all) = h.calls_of m w in
      (made, same, All-map (λ c. test c ≡ true) (λ c. test' c ≡ true) f made all);
}

pub ruleset makes_rules =
    (Makes-call, Makes-lift, Makes-within, Makes-attempt, Makes-if, Makes-bind, Makes-for_some)
