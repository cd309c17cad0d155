-- ===== src/Text/Decimal.antt =====
-- Decimal numbers: `to_string` of the unsigned integers, and `str::parse::<u64>`.
use boxed.Prelude.{
  ℕ, zero, suc, ◌+◌, ◌-◌, ◌*◌, ◌/◌, ◌%◌, ◌^◌, ◌≤◌, ◌<◌, ◌≡◌, refl, ◌≢◌, ◌&&◌, [], ◌∷◌, Option, none,
  some, arith, ltb, leb, ◌==◌, if◌then◌else◌, All, Bool-cases, inl, inr, ◌∙◌,
}
use boxed.Text.{Text}

-- The digits of `n` in front of `out`; a number has fewer digits than the fuel `suc n`.
show_digits : ℕ → ℕ → Text → Text
show_digits zero n out = out
show_digits (suc fuel) n out =
    let more = show_digits fuel (n / 10) ((b'0' + n % 10) ∷ out) in
    if ltb n 10 then (b'0' + n % 10) ∷ out else more

unfoldable pub to_string : ℕ → Text
unfolding show_digits
to_string n = show_digits (suc n) n []

-- A digit is added with `checked_mul` and `checked_add`.
scan_digits : Text → ℕ → Option ℕ
scan_digits [] n = some n
scan_digits (c ∷ s) n =
    let m = n * 10 + (c - b'0') in
    if leb b'0' c && leb c b'9' then if ltb m (2 ^ 64) then scan_digits s m else none else none

-- One leading `+` is allowed, and at least one digit is needed.
unfoldable pub parse_u64 : Text → Option ℕ
unfolding scan_digits
parse_u64 [] = none
parse_u64 (c ∷ []) = scan_digits (c ∷ []) 0
parse_u64 (c ∷ d ∷ s) = if c == b'+' then scan_digits (d ∷ s) 0 else scan_digits (c ∷ d ∷ s) 0

abbrev pub IsDigit : ℕ → Type 0
IsDigit c = (b'0' ≤ c) × (c ≤ b'9')

show_digits-IsDigit : (f n : ℕ) (out : Text) → All IsDigit out → All IsDigit (show_digits f n out)
unfolding show_digits
show_digits-IsDigit zero n out h = h
show_digits-IsDigit (suc f) n out h = elim (Bool-cases (ltb n 10)) [
  | inl small ↦ rw small ((omega arith, omega arith), h)
  | inr large ↦
      rw large
        (show_digits-IsDigit f (n / 10) ((b'0' + n % 10) ∷ out) ((omega arith, omega arith), h))
]

-- A number is printed in digits.
pub to_string-IsDigit : (n : ℕ) → All IsDigit (to_string n)
unfolding to_string
to_string-IsDigit n = show_digits-IsDigit (suc n) n [] tt

show_digits-ne-nil : (f n : ℕ) (out : Text) → out ≢ [] → show_digits f n out ≢ []
unfolding show_digits
show_digits-ne-nil zero n out h = h
show_digits-ne-nil (suc f) n out h =
    ground (arith, show_digits-ne-nil f (n / 10) ((b'0' + n % 10) ∷ out))

pub to_string-ne-nil : (n : ℕ) → to_string n ≢ []
unfolding to_string
to_string-ne-nil n = ground (arith, show_digits-ne-nil n (n / 10) ((b'0' + n % 10) ∷ []))

scan_digit :
    (n : ℕ) (out : Text)
    → n < 2 ^ 64
    → scan_digits ((b'0' + n % 10) ∷ out) (n / 10) ≡ scan_digits out n
unfolding scan_digits
scan_digit n out h = ground arith

scan-show_digits :
    (f n : ℕ) (out : Text)
    → n < f
    → n < 2 ^ 64
    → scan_digits (show_digits f n out) 0 ≡ scan_digits out n
unfolding show_digits
scan-show_digits zero n out h fits = absurd (omega arith)
scan-show_digits (suc f) n out h fits = elim (Bool-cases (ltb n 10)) [
  | inl small ↦
      let none_left : n / 10 ≡ 0 = ground arith in
      rw small (rw none_left at (scan_digit n out fits))
  | inr large ↦ rw large (
      scan-show_digits f (n / 10) ((b'0' + n % 10) ∷ out) (ground arith) (omega arith)
      ∙ scan_digit n out fits)
]

parse_u64-scan_digits : (s : Text) → s ≢ [] → All IsDigit s → parse_u64 s ≡ scan_digits s 0
unfolding parse_u64
parse_u64-scan_digits [] h d = absurd (h refl)
parse_u64-scan_digits (c ∷ []) h d = refl
parse_u64-scan_digits (c ∷ e ∷ s) h d = ground arith

-- Every u64 is read back from its print.
pub parse_u64-to_string : (n : ℕ) → n < 2 ^ 64 → parse_u64 (to_string n) ≡ some n
unfolding parse_u64
parse_u64-to_string n h =
    parse_u64-scan_digits (to_string n) (to_string-ne-nil n) (to_string-IsDigit n)
    ∙ unfold to_string in scan-show_digits (suc n) n [] (omega arith) h

scan_digits-lt : (s : Text) (n : ℕ) {v : ℕ} → n < 2 ^ 64 → scan_digits s n ≡ some v → v < 2 ^ 64
unfolding scan_digits
scan_digits-lt [] n {v} h e = ground arith
scan_digits-lt (c ∷ s) n {v} h e = ground (arith, scan_digits-lt s (n * 10 + (c - b'0')) {v = v})

-- A number that is read fits a u64.
pub parse_u64-lt : (s : Text) {v : ℕ} → parse_u64 s ≡ some v → v < 2 ^ 64
unfolding parse_u64
parse_u64-lt [] e = cc
parse_u64-lt (c ∷ []) e = scan_digits-lt (c ∷ []) 0 (omega arith) e
parse_u64-lt (c ∷ d ∷ s) e = elim (Bool-cases (c == b'+')) [
  | inl plus ↦ scan_digits-lt (d ∷ s) 0 (omega arith) (rw plus at e)
  | inr digit ↦ scan_digits-lt (c ∷ d ∷ s) 0 (omega arith) (rw digit at e)
]
