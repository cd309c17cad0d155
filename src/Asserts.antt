-- ===== src/Asserts.antt =====
-- What the unit tests of src/*.rs assert: `assert!` and `assert_eq!` as Booleans, where a panic is
-- `false`.
use boxed.Prelude.{Bool, true, false, not, ◌&&◌, ◌||◌, List, [], ◌∷◌, ◌++◌, Option, none, some}
use boxed.Text.{Text, codes}
use boxed.Error.{Error, Result, ok, err}
use boxed.Text.Contains.{contains_text}
use boxed.Display.{Debug, error_text}

module _ {ℓ} {T : Type ℓ} where
  -- `unwrap` or `expect`, and what is asserted of the value.
  abbrev pub unwrap : Result T → (T → Bool) → Bool
  unwrap (ok t) asserted = asserted t
  unwrap (err e) asserted = false

  -- `unwrap_err`, and what is asserted of the error.
  abbrev pub unwrap_err : Result T → (Error → Bool) → Bool
  unwrap_err (ok t) asserted = false
  unwrap_err (err e) asserted = asserted e

  abbrev pub is_err : Result T → Bool
  is_err r = unwrap_err r (λ e. true)

-- `err.to_string().contains(t)`
abbrev pub says : Debug → Error → Text → Bool
says d e t = elim (error_text d e) [ none ↦ false | some text ↦ contains_text text t ]

-- `slice.last()`, and what is asserted of it.
abbrev pub last_is {ℓ} : {A : Type ℓ} → List A → (A → Bool) → Bool
last_is [] asserted = false
last_is (a ∷ []) asserted = asserted a
last_is (a ∷ b ∷ xs) asserted = last_is (b ∷ xs) asserted

-- `==` on options and lists.
module _ {ℓ} {A : Type ℓ} (eq : A → A → Bool) where
  abbrev pub option_eq : Option A → Option A → Bool
  option_eq none none = true
  option_eq (some a) (some b) = eq a b
  option_eq _ _ = false

  abbrev pub list_eq : List A → List A → Bool
  list_eq [] [] = true
  list_eq (a ∷ xs) (b ∷ ys) = eq a b && list_eq xs ys
  list_eq _ _ = false

  -- `[..].contains(&a)`
  abbrev pub member : List A → A → Bool
  member [] a = false
  member (b ∷ xs) a = eq b a || member xs a

  -- `seen.insert(a)` gives `true` for each item in turn, where `seen` starts with the items given.
  abbrev pub all_inserted : List A → List A → Bool
  all_inserted seen [] = true
  all_inserted seen (a ∷ xs) = not (member seen a) && all_inserted (a ∷ seen) xs

-- Each test passes.
abbrev pub all_pass : List Bool → Bool
all_pass [] = true
all_pass (t ∷ ts) = t && all_pass ts

-- A `Debug` that quotes and escapes nothing, for texts without a quote.
abbrev pub quoting : Debug
quoting = record {
  text = λ t. codes "\"" ++ (t ++ codes "\"");
  capability = λ c. codes "?";
  signal = λ n. codes "?";
}
