-- ===== src/Text/Words.antt =====
-- `char::is_whitespace`, `split_whitespace` and `trim` of the standard library.
use mathlib.Core.List.{reverse}
use boxed.Prelude.{
  ℕ, ◌≡◌, refl, ◌≢◌, Bool, false, ◌&&◌, ◌||◌, List, [], ◌∷◌, ◌++◌, append_assoc, append-nil, ap,
  ◌∙◌, sym, leb, ◌==◌, if◌then◌else◌, All, is_empty,
}
use boxed.Text.{Text, codes}
use boxed.Text.Split.{join}

unfoldable pub is_whitespace : ℕ → Bool
is_whitespace c =
    (leb 0x09 c && leb c 0x0d)
    || c == 0x20
    || c == 0x85
    || c == 0xa0
    || c == 0x1680
    || (leb 0x2000 c && leb c 0x200a)
    || c == 0x2028
    || c == 0x2029
    || c == 0x202f
    || c == 0x205f
    || c == 0x3000

abbrev flush : Text → List Text → List Text
flush cur words = if is_empty cur then words else cur ∷ words

-- The words of the text, behind the letters `cur` of the current word.
words_from : Text → Text → List Text
words_from cur [] = flush cur []
words_from cur (c ∷ s) =
    let next = words_from [] s in
    let more = words_from (cur ++ c ∷ []) s in if is_whitespace c then flush cur next else more

unfoldable pub split_whitespace : Text → List Text
unfolding words_from is_whitespace
split_whitespace t = words_from [] t

unfoldable pub trim_start : Text → Text
trim_start [] = []
trim_start (c ∷ s) = let rest = trim_start s in if is_whitespace c then rest else c ∷ s

unfoldable pub trim : Text → Text
trim t = reverse (trim_start (reverse (trim_start t)))

-- A word has letters, and no whitespace.
abbrev pub IsWord : Text → Type 0
IsWord w = (w ≢ []) × All (λ c. is_whitespace c ≡ false) w

words_from-letters :
    (w cur rest : Text)
    → All (λ c. is_whitespace c ≡ false) w
    → words_from cur (w ++ rest) ≡ words_from (cur ++ w) rest
unfolding words_from
words_from-letters [] cur rest h = ap (λ a. words_from a rest) (sym (append-nil cur))
words_from-letters (c ∷ w) cur rest (p, h) = rw p (
    words_from-letters w (cur ++ c ∷ []) rest h
    ∙ ap (λ a. words_from a rest) (append_assoc cur (c ∷ []) w))

flush_word : (w : Text) (ws : List Text) → w ≢ [] → flush w ws ≡ w ∷ ws
flush_word [] ws h = absurd (h refl)
flush_word (c ∷ w) ws h = refl

words_from_space : (w rest : Text) → words_from w (0x20 ∷ rest) ≡ flush w (words_from [] rest)
unfolding words_from is_whitespace
words_from_space w rest = refl

words_from-join : (ws : List Text) → All IsWord ws → words_from [] (join (codes " ") ws) ≡ ws
unfolding join
words_from-join [] h = unfold words_from in refl
words_from-join (w ∷ []) ((present, letters), h) =
    ap (words_from []) (sym (append-nil w))
    ∙ (words_from-letters w [] [] letters ∙ (unfold words_from in flush_word w [] present))
words_from-join (w ∷ v ∷ ws) ((present, letters), h) =
    words_from-letters w [] _ letters
    ∙ (words_from_space w (join (codes " ") (v ∷ ws))
        ∙ (flush_word w _ present ∙ ap (λ us. w ∷ us) (words_from-join (v ∷ ws) h)))

-- Words that are joined by single spaces are the words of the join.
pub split_whitespace-join :
    (ws : List Text) → All IsWord ws → split_whitespace (join (codes " ") ws) ≡ ws
unfolding split_whitespace
split_whitespace-join ws h = words_from-join ws h
