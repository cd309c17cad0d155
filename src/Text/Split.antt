-- ===== src/Text/Split.antt =====
-- `split_once`, `split` and `join` of the standard library.
use mathlib.Core.Option
use boxed.Prelude.{
  ℕ, ◌≡◌, refl, ◌≢◌, ap, sym, ◌∙◌, Bool, true, false, List, [], ◌∷◌, ◌++◌, Option, none, some,
  arith, ◌==◌, if◌then◌else◌, All, All-append, Bool-cases, inl, inr, ==_iff,
}
use boxed.Text.{Text}

abbrev pub Lacks : ℕ → Text → Type 0
Lacks b = All (λ c. c ≢ b)

-- `c` in front of the first part.
abbrev extend : ℕ → List Text → List Text
extend c [] = (c ∷ []) ∷ []
extend c (p ∷ ps) = (c ∷ p) ∷ ps

module _ (sep : ℕ) where
  unfoldable pub split_once : Text → Option (Text × Text)
  split_once [] = none
  split_once (c ∷ s) =
      let later = Option.map (λ (a, b). (c ∷ a, b)) (split_once s) in
      if c == sep then some ([], s) else later

  unfoldable pub split : Text → List Text
  split [] = [] ∷ []
  split (c ∷ s) = if c == sep then [] ∷ split s else extend c (split s)

extend-ne-nil : (c : ℕ) (ps : List Text) → extend c ps ≢ []
extend-ne-nil c [] = cc
extend-ne-nil c (p ∷ ps) = cc

unfoldable pub join : Text → List Text → Text
join sep [] = []
join sep (p ∷ []) = p
join sep (p ∷ q ∷ ps) = p ++ (sep ++ join sep (q ∷ ps))

module _ (sep : ℕ) where
  pub split_once-append : (a b : Text) → Lacks sep a → split_once sep (a ++ sep ∷ b) ≡ some (a, b)
  unfolding split_once
  split_once-append [] b h = ground arith
  split_once-append (c ∷ a) b (h, hs) = ground (arith, split_once-append a b hs)

  -- What the result of `split_once` tells of the text.
  abbrev Found : Text → Option (Text × Text) → Type 0
  Found t none = Lacks sep t
  Found t (some (a, b)) = (t ≡ a ++ sep ∷ b) × Lacks sep a

  keep_going :
      (c : ℕ) (s : Text) (o : Option (Text × Text)) (here : Bool)
      → (c == sep) ≡ here
      → Found s o
      → Found (c ∷ s) (if here then some ([], s) else Option.map (λ (a, b). (c ∷ a, b)) o)
  keep_going c s o true e h = (ap (λ d. d ∷ s) ((==_iff c sep).0 e), tt)
  keep_going c s none false e h = (ground arith, h)
  keep_going c s (some (a, b)) false e (split, h) = (ap (λ r. c ∷ r) split, (ground arith, h))

  split_once-Found : (t : Text) → Found t (split_once sep t)
  unfolding split_once
  split_once-Found [] = tt
  split_once-Found (c ∷ s) = keep_going c s (split_once sep s) (c == sep) refl (split_once-Found s)

  pub split_once_sound :
      (t a b : Text) → split_once sep t ≡ some (a, b) → (t ≡ a ++ sep ∷ b) × Lacks sep a
  split_once_sound t a b e = rw e at (split_once-Found t)

  pub split_once-none : (t : Text) → split_once sep t ≡ none → Lacks sep t
  split_once-none t e = rw e at (split_once-Found t)

  pub split-ne-nil : (t : Text) → split sep t ≢ []
  unfolding split
  split-ne-nil [] = cc
  split-ne-nil (c ∷ s) = elim (Bool-cases (c == sep)) [
    | inl here ↦ rw here (cc)
    | inr other ↦ rw other (extend-ne-nil c (split sep s))
  ]

  split_lacking : (p : Text) → Lacks sep p → split sep p ≡ p ∷ []
  unfolding split
  split_lacking [] h = refl
  split_lacking (c ∷ p) (h, hs) = ground (arith, split_lacking p hs)

  split-append : (p rest : Text) → Lacks sep p → split sep (p ++ sep ∷ rest) ≡ p ∷ split sep rest
  unfolding split
  split-append [] rest h = ground arith
  split-append (c ∷ p) rest (h, hs) = ground (arith, split-append p rest hs)

  -- Splitting a join gives the parts back, if there is one and none holds the separator.
  pub split-join :
      (ps : List Text) → ps ≢ [] → All (Lacks sep) ps → split sep (join (sep ∷ []) ps) ≡ ps
  unfolding join
  split-join [] h hs = absurd (h refl)
  split-join (p ∷ []) h (hp, hs) = split_lacking p hp
  split-join (p ∷ q ∷ ps) h (hp, hs) =
      split-append p (join (sep ∷ []) (q ∷ ps)) hp ∙ ap (λ qs. p ∷ qs) (split-join (q ∷ ps) (cc) hs)

join-cons :
    (sep : Text) (p : Text) (ps : List Text)
    → ps ≢ []
    → join sep (p ∷ ps) ≡ p ++ (sep ++ join sep ps)
unfolding join
join-cons sep p [] h = absurd (h refl)
join-cons sep p (q ∷ ps) h = refl

join-extend :
    (sep : Text) (c : ℕ) (ps : List Text) → ps ≢ [] → join sep (extend c ps) ≡ c ∷ join sep ps
unfolding join
join-extend sep c [] h = absurd (h refl)
join-extend sep c (p ∷ []) h = refl
join-extend sep c (p ∷ q ∷ ps) h = refl

-- Joining the parts of a text gives it back.
pub join-split : (sep : ℕ) (s : Text) → join (sep ∷ []) (split sep s) ≡ s
unfolding split join
join-split sep [] = refl
join-split sep (c ∷ s) = elim (Bool-cases (c == sep)) [
  | inl here ↦ rw here (
      join-cons (sep ∷ []) [] (split sep s) (split-ne-nil sep s)
      ∙ ap (λ r. sep ∷ r) (join-split sep s)
      ∙ ap (λ d. d ∷ s) (sym ((==_iff c sep).0 here)))
  | inr other ↦ rw other (
      join-extend (sep ∷ []) c (split sep s) (split-ne-nil sep s)
      ∙ ap (λ r. c ∷ r) (join-split sep s))
]

-- A join that lacks a character, from parts and a separator that lack it.
pub join-Lacks :
    (b : ℕ) (sep : Text) (ps : List Text) → Lacks b sep → All (Lacks b) ps → Lacks b (join sep ps)
unfolding join
join-Lacks b sep [] hs h = tt
join-Lacks b sep (p ∷ []) hs (hp, h) = hp
join-Lacks b sep (p ∷ q ∷ ps) hs (hp, h) =
    All-append (λ c. c ≢ b) p _ hp
      (All-append (λ c. c ≢ b) sep _ hs (join-Lacks b sep (q ∷ ps) hs h))

pub join-ne-nil : (sep : Text) (p : Text) (ps : List Text) → p ≢ [] → join sep (p ∷ ps) ≢ []
unfolding join
join-ne-nil sep p [] h = h
join-ne-nil sep [] (q ∷ ps) h = absurd (h refl)
join-ne-nil sep (c ∷ p) (q ∷ ps) h = cc
