-- ===== src/Capabilities/Sets.antt =====
-- The capability sets of the process after src/capabilities.rs.
use mathlib.Core.List.{foldl}
use boxed.Prelude.{
  ◌≡◌, refl, ◌∙◌, ap, sym, Bool, true, false, not, ◌&&◌, ◌||◌, List, [], ◌∷◌, ◌++◌, arith,
  Bool-cases, inl, inr, All, All-prefix,
}
use boxed.Types.{Capability, CapSet, bounding, effective, permitted, inheritable}
use boxed.Error.{ok}
use boxed.Kernel.{Call, Outcome, done, failed, Machine, World, drop_cap}
use boxed.Kernel.Script.{actions, Succeeds, Ran-ok, Ran-made}
use boxed.Kernel.Heeds.{Answered, Ran-Answered}
use boxed.Capabilities.{
  cap_eq, contains_cap, retained_caps, drop_capabilities, drop_steps, drop_capabilities-Runs,
}

abbrev set_eq : CapSet → CapSet → Bool
set_eq bounding bounding = true
set_eq effective effective = true
set_eq permitted permitted = true
set_eq inheritable inheritable = true
set_eq _ _ = false

-- The four sets, as membership tests.
abbrev pub Sets : Type 0
Sets = CapSet → Capability → Bool

-- `caps::drop`, where it succeeds, takes one capability out of one set; no other call changes the
-- sets.
abbrev pub effect : Sets → Call → Sets
effect sets (drop_cap set cap) t c = sets t c && not (set_eq set t && cap_eq cap c)
effect sets _ t c = sets t c

abbrev pub effects : Sets → List Call → Sets
effects = foldl effect

-- An answer, `true` where the call was done.
abbrev pub took_effect : Outcome (Unit {0}) → Bool
took_effect (done _) = true
took_effect (failed e) = false

-- The sets behind calls that the machine answers: a drop that fails changes nothing.
abbrev pub dropped : Machine → List Call → Sets → Call → Sets
dropped m before sets (drop_cap set cap) t c =
    sets t c
    && not (took_effect (m.answer before (drop_cap set cap)) && set_eq set t && cap_eq cap c)
dropped m before sets _ t c = sets t c

abbrev pub sets_behind : Machine → List Call → Sets → List Call → Sets
sets_behind m before sets [] = sets
sets_behind m before sets (a ∷ cs) = sets_behind m (before ++ a ∷ []) (dropped m before sets a) cs

cap_code-eq-contains_cap :
    (l : List Capability) (a b : Capability)
    → cap_eq a b ≡ true
    → contains_cap l a ≡ contains_cap l b
unfolding contains_cap
cap_code-eq-contains_cap [] a b e = refl
cap_code-eq-contains_cap (c ∷ l) a b e = ground (arith, cap_code-eq-contains_cap l a b e)

contains_cap-cons :
    (l : List Capability) (a b : Capability)
    → contains_cap (a ∷ l) b ≡ (cap_eq a b || contains_cap l b)
unfolding contains_cap
contains_cap-cons l a b = refl

-- One round of the loop, for a set `s`, with `r`: retained, `m`: among the rest, `e`: this one.
kept_round :
    (s r m e : Bool) → (e ≡ true → true ≡ r) → (s && (r || not m)) ≡ (s && (r || not (e || m)))
kept_round s r m e h = ground arith

lost_round :
    (t : CapSet) (s r m e : Bool)
    → (e ≡ true → false ≡ r)
    → (s
        && not (set_eq bounding t && e)
        && not (set_eq effective t && e)
        && not (set_eq permitted t && e)
        && not (set_eq inheritable t && e)
        && (r || not m))
      ≡ (s && (r || not (e || m)))
lost_round bounding s r m e h = ground arith
lost_round effective s r m e h = ground arith
lost_round permitted s r m e h = ground arith
lost_round inheritable s r m e h = ground arith

spared_round : (s x e : Bool) → (e ≡ true → false ≡ true) → (s && not (x && e)) ≡ s
spared_round s x e h = ground arith

effects-drop_steps :
    (caps : List Capability) (sets : Sets) (t : CapSet) (c : Capability)
    → effects sets (actions (drop_steps caps)) t c
      ≡ (sets t c && (contains_cap retained_caps c || not (contains_cap caps c)))
unfolding drop_steps
effects-drop_steps [] sets t c = unfold contains_cap in ground arith
effects-drop_steps (a ∷ caps) sets t c = elim (Bool-cases (contains_cap retained_caps a)) [
  | inl kept ↦
      rw (kept, contains_cap-cons caps a c)
        (effects-drop_steps caps sets t c
          ∙ kept_round (sets t c) (contains_cap retained_caps c) (contains_cap caps c) (cap_eq a c)
              (λ e. sym kept ∙ cap_code-eq-contains_cap retained_caps a c e))
  | inr lost ↦
      rw (lost, contains_cap-cons caps a c)
        (effects-drop_steps caps _ t c
          ∙ lost_round t (sets t c) (contains_cap retained_caps c) (contains_cap caps c)
              (cap_eq a c) (λ e. sym lost ∙ cap_code-eq-contains_cap retained_caps a c e))
]

took-Succeeds : (o : Outcome (Unit {0})) → Succeeds o → took_effect o ≡ true
took-Succeeds (done _) h = refl
took-Succeeds (failed e) h = absurd h

dropped-effect :
    (m : Machine) (before : List Call) (sets : Sets) (a : Call)
    → Succeeds (m.answer before a)
    → dropped m before sets a ≡ effect sets a
dropped-effect m before sets (drop_cap set lost) h =
    ap {B = Sets} (λ b t c. sets t c && not (b && set_eq set t && cap_eq lost c))
      (took-Succeeds (m.answer before (drop_cap set lost)) h)
dropped-effect m before sets a h = refl

-- Where all calls succeed, the drops have their effects.
sets_behind-Answered :
    (m : Machine) (before : List Call) (sets : Sets) (cs : List Call)
    → Answered m before cs
    → sets_behind m before sets cs ≡ effects sets cs
sets_behind-Answered m before sets [] h = refl
sets_behind-Answered m before sets (a ∷ cs) (p, h) =
    rw (dropped-effect m before sets a p) (sets_behind-Answered m (before ++ a ∷ []) _ cs h)

-- When the capabilities have been dropped, each of the four sets has lost exactly those of the
-- list `all` that are not retained. A drop counts only where the machine answered that it is done.
pub drop_capabilities-effects :
    (m : Machine) (w : World) (all : List Capability)
    → (drop_capabilities all m w).0 ≡ ok tt
    → (made : List Call) × ((drop_capabilities all m w).1.calls ≡ w.calls ++ made)
      × ((sets : Sets) (t : CapSet) (c : Capability)
          → sets_behind m w.calls sets made t c
            ≡ (sets t c && (contains_cap retained_caps c || not (contains_cap all c))))
drop_capabilities-effects m w all h =
    let ran = rw h at ((drop_capabilities-Runs m all).ran w) in
    (
      actions (drop_steps all),
      ap (λ (v : World). v.calls) (Ran-ok m (drop_steps all) w _ ran),
      λ sets t c.
          ap (λ (f : Sets). f t c)
            (sets_behind-Answered m w.calls sets (actions (drop_steps all))
              (Ran-Answered m (drop_steps all) w _ ran))
          ∙ effects-drop_steps all sets t c,
    )

module _ (t : CapSet) (c : Capability) (kept : contains_cap retained_caps c ≡ true) where
  abbrev Spares : Call → Type 0
  Spares a = (sets : Sets) → effect sets a t c ≡ sets t c

  drop_cap-Spares :
      (set : CapSet) (a : Capability)
      → contains_cap retained_caps a ≡ false
      → Spares (drop_cap set a)
  drop_cap-Spares set a lost sets =
      spared_round (sets t c) (set_eq set t) (cap_eq a c)
        (λ e. sym lost ∙ (cap_code-eq-contains_cap retained_caps a c e ∙ kept))

  drop_steps-Spares : (caps : List Capability) → All Spares (actions (drop_steps caps))
  unfolding drop_steps
  drop_steps-Spares [] = tt
  drop_steps-Spares (a ∷ caps) = elim (Bool-cases (contains_cap retained_caps a)) [
    | inl same ↦ rw same (drop_steps-Spares caps)
    | inr lost ↦ rw lost (
      drop_cap-Spares bounding a lost,
      (
        drop_cap-Spares effective a lost,
        (
          drop_cap-Spares permitted a lost,
          (drop_cap-Spares inheritable a lost, drop_steps-Spares caps),
        ),
      ),
    )
  ]

  effects-Spares : (cs : List Call) (sets : Sets) → All Spares cs → effects sets cs t c ≡ sets t c
  effects-Spares [] sets h = refl
  effects-Spares (a ∷ cs) sets (p, h) = effects-Spares cs (effect sets a) h ∙ p sets

  -- Whether or not all drops succeed, a retained capability stays in each set that it is in.
  pub drop_capabilities-retained :
      (m : Machine) (w : World) (all : List Capability)
      → (made : List Call) × ((drop_capabilities all m w).1.calls ≡ w.calls ++ made)
        × ((sets : Sets) → effects sets made t c ≡ sets t c)
  drop_capabilities-retained m w all =
      let (made, rest, split, e) =
        Ran-made m (drop_steps all) w _ (drop_capabilities all m w).0
          ((drop_capabilities-Runs m all).ran w) in
      (
        made,
        ap (λ (v : World). v.calls) e,
        λ sets.
            effects-Spares made sets
              (All-prefix Spares made rest (rw split at (drop_steps-Spares all))),
      )
