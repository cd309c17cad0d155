-- ===== src/Text.antt =====
-- Text as the list of its code points: every `String` and `&str` of the program, and every path.
pub mod Decimal
pub mod Split
pub mod Contains
pub mod Words
use Prim.Native.Char.{code}
use Prim.Native.String.{String}
use mathlib.Core.Path.{subst}
use boxed.Prelude.{
  All, Bool-cases, inl, inr, ℕ, ◌≡◌, refl, ◌↔◌, Bool, true, false, ◌&&◌, ◌||◌, List, [], ◌∷◌, ◌++◌,
  arith, ◌==◌,
}

abbrev pub Text : Type 0
Text = List ℕ

-- The code points of a literal.
abbrev pub codes : String → Text
codes String.[] = []
codes (String.◌∷◌ c s) = code c ∷ codes s

-- `==` on texts.
unfoldable pub text_eq : Text → Text → Bool
text_eq [] [] = true
text_eq [] (d ∷ t) = false
text_eq (c ∷ s) [] = false
text_eq (c ∷ s) (d ∷ t) = c == d && text_eq s t

pub text_eq_iff : (s t : Text) → (text_eq s t ≡ true) ↔ (s ≡ t)
unfolding text_eq
text_eq_iff [] [] = (λ _. refl, λ _. refl)
text_eq_iff [] (d ∷ t) = (λ h. cc, λ h. cc)
text_eq_iff (c ∷ s) [] = (λ h. cc, λ h. cc)
text_eq_iff (c ∷ s) (d ∷ t) = ground (arith, text_eq_iff s t)

pub text_eq_comm : (s t : Text) → text_eq s t ≡ text_eq t s
unfolding text_eq
text_eq_comm [] [] = refl
text_eq_comm [] (d ∷ t) = refl
text_eq_comm (c ∷ s) [] = refl
text_eq_comm (c ∷ s) (d ∷ t) = ground (arith, text_eq_comm s t)

-- `[..].contains(&t)`
unfoldable pub contains : List Text → Text → Bool
unfolding text_eq
contains [] t = false
contains (s ∷ l) t = text_eq s t || contains l t

-- What holds of the items of a list holds of a text that the list contains.
pub contains-All {κ} :
    (P : Text → Type κ) (l : List Text) (t : Text) → All P l → contains l t ≡ true → P t
unfolding contains
contains-All P [] t h e = cc
contains-All P (s ∷ l) t (p, h) e = elim (Bool-cases (text_eq s t)) [
  | inl same ↦ subst P ((text_eq_iff s t).0 same) p
  | inr other ↦ contains-All P l t h (ground arith)
]

-- `Path::join` of a relative path.
abbrev pub join_path : Text → Text → Text
join_path dir name = dir ++ b'/' ∷ name
