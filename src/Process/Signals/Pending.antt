-- ===== src/Process/Signals/Pending.antt =====
-- What is pending while the shim of src/process.rs installs its handlers.
use mathlib.Core.Path.{subst}
use boxed.Prelude.{ℕ, ◌≡◌, refl, ◌≢◌, ◌∙◌, ap, sym, ◌⊎◌, inl, inr, Bool-cases, true, List, [], ◌∷◌}
use boxed.Types.{Signal}
use boxed.Kernel.{Machine, install_forwarding}
use boxed.Process.Signals.{
  has_signal, Shim, Event, arrives, stores, makes, deliver, arrive, act_call, act, replay,
  own_events, forwarding_events,
}
use boxed.Process.Signals.Delivery.{Among, Among-cons, Among-cases, arrive-Kept, arrives_injective}

-- What installs of handlers and stores of the child leave.
unfoldable pub installs : List Event → List Signal → List Signal
installs [] handled = handled
installs (makes (install_forwarding s) ∷ es) handled = installs es (s ∷ handled)
installs (e ∷ es) handled = installs es handled

unfoldable pub stored : List Event → ℕ → ℕ
stored [] child = child
stored (stores pid ∷ es) child = stored es pid
stored (e ∷ es) child = stored es child

-- The shim's own events are stores and installs.
abbrev pub Plain : List Event → Type 0
Plain [] = Unit
Plain (arrives s ∷ es) = Plain es
Plain (stores pid ∷ es) = Plain es
Plain (makes (install_forwarding s) ∷ es) = Plain es
Plain (makes c ∷ es) = ⊥

pub Plain-own : (es : List Event) → Plain (own_events es) → Plain es
unfolding own_events
Plain-own [] p = tt
Plain-own (arrives s ∷ es) p = Plain-own es p
Plain-own (stores pid ∷ es) p = Plain-own es p
Plain-own (makes (install_forwarding s) ∷ es) p = Plain-own es p
Plain-own (makes c ∷ es) p = absurd p

pub own-Plain : (es : List Event) (child : ℕ) → own_events es ≡ forwarding_events child → Plain es
own-Plain es child h = Plain-own es (subst Plain (sym h) tt)

module _ (m : Machine) (s : Signal) where
  pub deliver-pending : (t : Signal) (st : Shim) → (deliver m t st).pending ≡ st.pending
  unfolding deliver
  deliver-pending t st = elim (Bool-cases (has_signal st.handled t)) [
    | inl handled ↦ rw handled refl
    | inr unhandled ↦ rw unhandled refl
  ]

  pub arrive-pending :
      (t : Signal) (st : Shim) → Among s st.pending → Among s (arrive m t st).pending
  unfolding arrive
  arrive-pending t st h = elim (Bool-cases (has_signal st.blocked t)) [
    | inl blocked ↦ rw blocked (Among-cons t h)
    | inr free ↦ rw (free, deliver-pending) h
  ]

  pub arrive-held : (st : Shim) → has_signal st.blocked s ≡ true → Among s (arrive m s st).pending
  unfolding arrive
  arrive-held st blocked = rw blocked ([], st.pending, refl)

  abbrev pub Held : List Event → Shim → Type 0
  Held es st = (has_signal st.blocked s ≡ true) × (Among (arrives s) es ⊎ Among s st.pending)

  pub Held-arrive :
      (t : Signal) (es : List Event) (st : Shim)
      → Held (arrives t ∷ es) st
      → Held es (arrive m t st)
  Held-arrive t es st (blocked, held) =
      let (e, f, g, more, calls) = arrive-Kept m t st in
      (
        rw e blocked,
        elim held [
          | inr pending ↦ inr (arrive-pending t st pending)
          | inl coming ↦ elim (Among-cases (arrives s) (arrives t) es coming) [
            | inl same ↦ inr (rw (arrives_injective t s same) (arrive-held st blocked))
            | inr later ↦ inl later
          ]
        ],
      )

  pub later :
      (e : Event) (es : List Event) (st : Shim)
      → ((t : Signal) → e ≢ arrives t)
      → Held (e ∷ es) st
      → Held es st
  later e es st h (blocked, inr pending) = (blocked, inr pending)
  later e es st h (blocked, inl coming) = (
    blocked,
    elim (Among-cases (arrives s) e es coming) [
      | inl same ↦ absurd (h s same)
      | inr behind ↦ inl behind
    ],
  )

  -- Before the unblocking, an arrival of a blocked signal is pending, and stays so.
  pub replay-pending :
      (es : List Event) (st : Shim)
      → Plain es
      → Held es st
      → let st' = replay m es st in (has_signal st'.blocked s ≡ true) × Among s st'.pending
  unfolding replay act act_call
  replay-pending [] st p (blocked, inl ([], behind, e)) = cc
  replay-pending [] st p (blocked, inl (b ∷ before, behind, e)) = cc
  replay-pending [] st p (blocked, inr pending) = (blocked, pending)
  replay-pending (arrives t ∷ es) st p h =
      replay-pending es (arrive m t st) p (Held-arrive t es st h)
  replay-pending (stores pid ∷ es) st p h =
      replay-pending es _ p (later (stores pid) es st (λ t e. cc) h)
  replay-pending (makes (install_forwarding t) ∷ es) st p h =
      replay-pending es _ p (later (makes (install_forwarding t)) es st (λ t e. cc) h)
  replay-pending (makes c ∷ es) st p h = absurd p

  pub replay-installs :
      (es : List Event) (st : Shim)
      → Plain es
      → let st' = replay m es st in
        (st'.handled ≡ installs (own_events es) st.handled)
        × (st'.world.child_pid ≡ stored (own_events es) st.world.child_pid)
  unfolding replay act act_call own_events installs stored
  replay-installs [] st p = (refl, refl)
  replay-installs (arrives t ∷ es) st p =
      let (e, f, g, more, calls) = arrive-Kept m t st in
      let (h, c) = replay-installs es (arrive m t st) p in
      (h ∙ ap (installs (own_events es)) f, c ∙ ap (stored (own_events es)) g)
  replay-installs (stores pid ∷ es) st p = replay-installs es _ p
  replay-installs (makes (install_forwarding t) ∷ es) st p = replay-installs es _ p
  replay-installs (makes c ∷ es) st p = absurd p
