-- ===== src/Process/Signals/Delivery.antt =====
-- How a signal is delivered, and what stays.
use mathlib.Core.Path.{subst}
use boxed.Prelude.{
  ℕ, ◌≡◌, refl, ◌∙◌, ap, sym, ◌<◌, ◌⊎◌, inl, inr, Bool-cases, true, false, List, [], ◌∷◌, ◌++◌,
  append_assoc, append-nil, if◌then◌else◌, ltb, arith,
}
use boxed.Types.{Signal}
use boxed.Kernel.{Call, Machine, World, call, kill}
use boxed.Kernel.Script.{after}
use boxed.Process.{forward_signal}
use boxed.Process.Signals.{
  has_signal, Shim, Event, arrives, stores, makes, deliver, arrive, release, act, replay,
  own_events,
}

-- `a` is among the items.
abbrev pub Among : {A : Type 0} → A → List A → Type 0
Among {A} a l = (before : List A) × (behind : List A) × (l ≡ before ++ a ∷ behind)

pub Among-append : {A : Type 0} {a : A} (l more : List A) → Among a l → Among a (l ++ more)
Among-append l more (before, behind, e) =
    (before, behind ++ more, rw e (append_assoc before (_ ∷ behind) more))

pub Among-cons : {A : Type 0} {a : A} (b : A) {l : List A} → Among a l → Among a (b ∷ l)
Among-cons b (before, behind, e) = (b ∷ before, behind, ap (λ k. b ∷ k) e)

-- An item is first, or behind.
pub Among-cases : {A : Type 0} (a b : A) (l : List A) → Among a (b ∷ l) → (b ≡ a) ⊎ Among a l
Among-cases a b l ([], behind, e) = inl (cc)
Among-cases a b l (x ∷ before, behind, e) = inr (before, behind, cc)

-- The handler's only call is the forwarding, and it leaves `CHILD_PID` as it is.
pub forward_signal_lem :
    (s : Signal) (m : Machine) (w : World)
    → (forward_signal s m w).1 ≡ (if ltb 0 w.child_pid then after w (kill w.child_pid s) else w)
unfolding forward_signal call
forward_signal_lem s m w = elim (Bool-cases (ltb 0 w.child_pid)) [
  | inl child ↦ rw child refl
  | inr none_yet ↦ rw none_yet refl
]

-- The signals that are blocked and handled, and the child, stay; calls are only added.
abbrev pub Kept : Shim → Shim → Type 0
Kept st st' =
    (st'.blocked ≡ st.blocked)
    × (st'.handled ≡ st.handled)
    × (st'.world.child_pid ≡ st.world.child_pid)
    × (more : List Call) × (st'.world.calls ≡ st.world.calls ++ more)

pub Kept-refl : (st : Shim) → Kept st st
Kept-refl st = (refl, refl, refl, [], sym (append-nil st.world.calls))

pub Kept-trans : (a b c : Shim) → Kept a b → Kept b c → Kept a c
Kept-trans a b c (e, f, g, more, h) (e', f', g', more', h') = (
  e' ∙ e,
  f' ∙ f,
  g' ∙ g,
  more ++ more',
  h' ∙ (ap (λ l. l ++ more') h ∙ append_assoc a.world.calls more more'),
)

module _ (m : Machine) where
  pub deliver-Kept : (s : Signal) (st : Shim) → Kept st (deliver m s st)
  unfolding deliver
  deliver-Kept s st = elim (Bool-cases (has_signal st.handled s)) [
    | inr unhandled ↦ rw unhandled (Kept-refl st)
    | inl handled ↦
        rw (handled, forward_signal_lem s m st.world)
          (elim (Bool-cases (ltb 0 st.world.child_pid)) [
            | inl child ↦ rw child (refl, refl, refl, kill st.world.child_pid s ∷ [], refl)
            | inr none_yet ↦ rw none_yet (Kept-refl st)
          ])
  ]

  pub deliver-Among :
      (s : Signal) (st : Shim)
      → has_signal st.handled s ≡ true
      → 0 < st.world.child_pid
      → Among (kill st.world.child_pid s) (deliver m s st).world.calls
  unfolding deliver
  deliver-Among s st handled child =
      rw (handled, forward_signal_lem s m st.world, positive st.world.child_pid child)
        (st.world.calls, [], refl)
    where
      positive : (n : ℕ) → 0 < n → ltb 0 n ≡ true
      positive n h = ground arith

  pub arrive-Kept : (s : Signal) (st : Shim) → Kept st (arrive m s st)
  unfolding arrive
  arrive-Kept s st = elim (Bool-cases (has_signal st.blocked s)) [
    | inl blocked ↦ rw blocked (refl, refl, refl, [], sym (append-nil st.world.calls))
    | inr free ↦ rw free (deliver-Kept s st)
  ]

  pub release-Kept : (ss : List Signal) (st : Shim) → Kept st (release m ss st)
  unfolding release
  release-Kept [] st = Kept-refl st
  release-Kept (s ∷ ss) st =
      Kept-trans st (arrive m s st) (release m ss (arrive m s st)) (arrive-Kept s st)
        (release-Kept ss (arrive m s st))

pub arrives_injective : (t s : Signal) → arrives t ≡ arrives s → t ≡ s
arrives_injective t s h = cc

module _ (m : Machine) (s : Signal) (child : ℕ) (started : 0 < child) where
  -- The signal is not blocked, and its handler forwards it to the child.
  abbrev pub Forwards : Shim → Type 0
  Forwards st =
      (has_signal st.blocked s ≡ false)
      × (has_signal st.handled s ≡ true)
      × (st.world.child_pid ≡ child)

  pub Kept-Forwards : (st st' : Shim) → Kept st st' → Forwards st → Forwards st'
  Kept-Forwards st st' (e, f, g, more, calls) (free, handled, same) =
      (rw e free, rw f handled, g ∙ same)

  pub Kept-Among :
      (st st' : Shim)
      → Kept st st'
      → Among (kill child s) st.world.calls
      → Among (kill child s) st'.world.calls
  Kept-Among st st' (e, f, g, more, calls) h = rw calls (Among-append st.world.calls more h)

  pub arrive-Among : (st : Shim) → Forwards st → Among (kill child s) (arrive m s st).world.calls
  unfolding arrive
  arrive-Among st (free, handled, same) = rw free (
      subst (λ c. Among (kill c s) (deliver m s st).world.calls) same
        (deliver-Among m s st handled (subst (λ c. 0 < c) (sym same) started)))

  pub release-Among :
      (ss : List Signal) (st : Shim)
      → Forwards st
      → Among s ss
      → Among (kill child s) (release m ss st).world.calls
  unfolding release
  release-Among [] st f ([], behind, e) = cc
  release-Among [] st f (b ∷ before, behind, e) = cc
  release-Among (t ∷ ss) st f h = elim (Among-cases s t ss h) [
    | inl same ↦
        Kept-Among (arrive m t st) (release m ss (arrive m t st))
          (release-Kept m ss (arrive m t st)) (rw same (arrive-Among st f))
    | inr later ↦
        release-Among ss (arrive m t st) (Kept-Forwards st (arrive m t st) (arrive-Kept m t st) f)
          later
  ]

  -- Behind the unblocking, the shim itself does nothing more.
  pub replay-Kept : (es : List Event) (st : Shim) → own_events es ≡ [] → Kept st (replay m es st)
  unfolding replay own_events act
  replay-Kept [] st h = Kept-refl st
  replay-Kept (arrives t ∷ es) st h =
      Kept-trans st (arrive m t st) (replay m es (arrive m t st)) (arrive-Kept m t st)
        (replay-Kept es (arrive m t st) h)
  replay-Kept (stores pid ∷ es) st h = cc
  replay-Kept (makes c ∷ es) st h = cc

  pub replay-Among :
      (es : List Event) (st : Shim)
      → own_events es ≡ []
      → Forwards st
      → Among (arrives s) es
      → Among (kill child s) (replay m es st).world.calls
  unfolding replay own_events act
  replay-Among [] st own f ([], behind, e) = cc
  replay-Among [] st own f (b ∷ before, behind, e) = cc
  replay-Among (arrives t ∷ es) st own f h = elim (Among-cases (arrives s) (arrives t) es h) [
    | inl same ↦
        Kept-Among (arrive m t st) (replay m es (arrive m t st))
          (replay-Kept es (arrive m t st) own) (rw (arrives_injective t s same) (arrive-Among st f))
    | inr later ↦
        replay-Among es (arrive m t st) own
          (Kept-Forwards st (arrive m t st) (arrive-Kept m t st) f) later
  ]
  replay-Among (stores pid ∷ es) st own f h = cc
  replay-Among (makes c ∷ es) st own f h = cc
