-- ===== src/Kernel/Fails.antt =====
-- Which errors a piece of code can end with, whatever the machine answers.
use mathlib.Core.Path.{subst}
use boxed.Prelude.{ℕ, ◌≡◌, Bool, true, false, Option, none, some, if◌then◌else◌}
use boxed.Error.{Message, Error, os, context, Result, ok, err, err_injective, with_context}
use boxed.Kernel.{
  Call, Outcome, done, failed, to_result, Machine, World, Io, call, lift, pure, proceed, ◌>>=◌,
  ◌>>◌, within, attempt, for_some,
}

-- Every error of `io` has the property.
pub record Fails {A : Type 0} (P : Error → Type 0) (io : Io A) : Type 0 where
  pub error_of : (m : Machine) (w : World) (e : Error) → (io m w).0 ≡ err e → P e

checked_error :
    {A : Type 0} (P : Error → Type 0) (msg : Message) (o : Outcome A) (e : Error)
    → ((n : ℕ) → P (context msg (os n)))
    → with_context msg (to_result o) ≡ err e
    → P e
checked_error P msg (done a) e f h = cc
checked_error P msg (failed n) e f h = subst P (err_injective h) (f n)

module _ {P : Error → Type 0} where
  pub Fails-checked :
      (msg : Message) (c : Call)
      → ((n : ℕ) → P (context msg (os n)))
      → Fails P (within msg (call c))
  unfolding call
  Fails-checked msg c f = record {
    error_of = λ m w e h. checked_error P msg (m.answer w.calls c) e f h;
  }

module _ {P : Error → Type 0} {A : Type 0} where
  pub Fails-lift : (r : Result A) → ((e : Error) → r ≡ err e → P e) → Fails P (lift r)
  Fails-lift r f = record { error_of = λ m w e h. f e h }

  pub Fails-pure : (a : A) → Fails P (pure a)
  Fails-pure a = record { error_of = λ m w e h. cc }

  pub Fails-attempt : (io : Io A) → Fails P (attempt io)
  Fails-attempt io = record { error_of = λ m w e h. cc }

  pub Fails-if :
      (b : Bool) (io next : Io A) → Fails P io → Fails P next → Fails P (if b then io else next)
  Fails-if true io next h k = h
  Fails-if false io next h k = k

module _ {P : Error → Type 0} {A B : Type 0} where
  Fails-proceed :
      (r : Result A) (f : A → Io B) (m : Machine) (w : World) (e : Error)
      → ((z : Error) → r ≡ err z → P z)
      → ((a : A) → Fails P (f a))
      → (proceed r f m w).0 ≡ err e
      → P e
  Fails-proceed (ok a) f m w e h k q = (k a).error_of m w e q
  Fails-proceed (err z) f m w e h k q = h e (cc)

  pub Fails-bind :
      (io : Io A) (f : A → Io B) → Fails P io → ((a : A) → Fails P (f a)) → Fails P (io >>= f)
  Fails-bind io f h k = record {
    error_of = λ m w e q. Fails-proceed (io m w).0 f m (io m w).1 e (h.error_of m w) k q;
  }

-- Code behind an option.
pub Fails-option :
    {P : Error → Type 0} {A B : Type 0} (o : Option A) (f : A → Io (Unit {0})) (next : Io B)
    → ((a : A) → Fails P (f a))
    → Fails P next
    → Fails P (for_some o f >> next)
Fails-option none f next h k = Fails-bind (pure tt) (λ _. next) (Fails-pure tt) (λ _. k)
Fails-option (some a) f next h k = Fails-bind (f a) (λ _. next) (h a) (λ _. k)
