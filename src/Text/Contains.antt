-- ===== src/Text/Contains.antt =====
-- `starts_with` and `contains` of the standard library.
use mathlib.Core.Path.{subst}
use boxed.Prelude.{
  ◌≡◌, refl, sym, Bool, true, false, ◌&&◌, ◌||◌, ◌==◌, List, [], ◌∷◌, ◌++◌, append_assoc,
  append-nil, All, All-map, arith, ℕ,
}
use boxed.Text.{Text}
use boxed.Text.Split.{join, split, join-split}

-- `str::starts_with`
unfoldable pub starts_with : Text → Text → Bool
starts_with s [] = true
starts_with [] (c ∷ t) = false
starts_with (b ∷ s) (c ∷ t) = b == c && starts_with s t

-- `str::contains`
unfoldable pub contains_text : Text → Text → Bool
unfolding starts_with
contains_text [] t = starts_with [] t
contains_text (c ∷ s) t = starts_with (c ∷ s) t || contains_text s t

-- `part` stands in the text.
abbrev pub Within : Text → Text → Type 0
Within part whole = (before : Text) × (behind : Text) × (whole ≡ before ++ (part ++ behind))

pub Within-append : (a b c : Text) → Within b (a ++ (b ++ c))
Within-append a b c = (a, c, refl)

pub Within-trans : (a b c : Text) → Within a b → Within b c → Within a c
Within-trans a b c (before, behind, e) (before', behind', e') =
    (before' ++ before, behind ++ behind', rw (e', e) (simp append_assoc))

starts_with-append : (t s : Text) → starts_with (t ++ s) t ≡ true
unfolding starts_with
starts_with-append [] [] = refl
starts_with-append [] (c ∷ s) = refl
starts_with-append (c ∷ t) s = ground (arith, starts_with-append t s)

-- A text that stands in another is found there.
pub contains_text-append : (a t b : Text) → contains_text (a ++ (t ++ b)) t ≡ true
unfolding contains_text
contains_text-append [] [] [] = refl
contains_text-append [] [] (c ∷ b) = refl
contains_text-append [] (c ∷ t) b = rw (starts_with-append (c ∷ t) b) refl
contains_text-append (c ∷ a) t b = ground (arith, contains_text-append a t b)

pub contains_text-end : (a t : Text) → contains_text (a ++ t) t ≡ true
contains_text-end a t = rw append-nil at (contains_text-append a t [])

pub contains_text-inner : (a b c t d : Text) → contains_text (a ++ (b ++ (c ++ (t ++ d)))) t ≡ true
contains_text-inner a b c t d =
    subst (λ s. contains_text s t ≡ true) (simp append_assoc)
      (contains_text-append (a ++ (b ++ c)) t d)

join-Within : (sep : Text) (ps : List Text) → All (λ p. Within p (join sep ps)) ps
unfolding join
join-Within sep [] = tt
join-Within sep (p ∷ []) = (([], [], sym (append-nil p)), tt)
join-Within sep (p ∷ q ∷ ps) = (
  ([], sep ++ join sep (q ∷ ps), refl),
  All-map (λ r. Within r (join sep (q ∷ ps))) (λ r. Within r (join sep (p ∷ q ∷ ps)))
      (λ r h.
        Within-trans r (join sep (q ∷ ps)) _ h (p ++ sep, [], simp (append_assoc, append-nil)))
      (q ∷ ps) (join-Within sep (q ∷ ps)),
)

-- Each part of a split stands in the text.
pub split-Within : (sep : ℕ) (s : Text) → All (λ p. Within p s) (split sep s)
split-Within sep s = rw (join-split sep s) at (join-Within (sep ∷ []) (split sep s))
