-- ===== src/Cgroups/IoMax/RoundTrip.antt =====
-- What `parse_io_max` of src/cgroups.rs accepts, and what it reads.
use boxed.Prelude.{
  ℕ, ◌^◌, ◌<◌, ◌≡◌, ◌≢◌, refl, true, false, List, [], ◌∷◌, ◌++◌, map, Option, none, some, arith,
  All, All-append, is_empty, ap, ◌∙◌,
}
use boxed.Text.{Text, contains, contains-All}
use boxed.Text.Decimal.{
  to_string, parse_u64, parse_u64-to_string, parse_u64-lt, to_string-IsDigit, IsDigit,
}
use boxed.Text.Split.{
  split_once, split, join, Lacks, split_once-append, split_once_sound, split-ne-nil, split-join,
  join-ne-nil,
}
use boxed.Error.{
  ok, ok_or_else, ◌>>=◌, collect_map, Collected, collect_map-eq-ok, io_max_without_colon,
  io_max_without_equals,
}
use boxed.Cgroups.IoMax.{
  IoMax, io_max_keys, parse_value, check_pair, parse_pair, check_spec, parse_io_max,
}

-- A key of io.max, with a value of 64 bits.
abbrev pub IsLimit : Text × ℕ → Type 0
IsLimit (key, value) = (contains io_max_keys key ≡ true) × (value < 2 ^ 64)

pub record IsIoMax (x : IoMax) : Type 0 where
  pub device_lacks_colon : Lacks b':' x.device
  pub device_not_empty : x.device ≢ []
  pub limits_not_empty : x.limits ≢ []
  pub limits_are_limits : All IsLimit x.limits

-- `DEVICE:KEY=VALUE,KEY=VALUE,...`
abbrev pub print_pair : Text × ℕ → Text
print_pair (key, value) = key ++ b'=' ∷ to_string value

pub print_io_max : IoMax → Text
print_io_max x = x.device ++ b':' ∷ join (b',' ∷ []) (map print_pair x.limits)

-- Digits are none of the separators.
digits-Lacks : (b : ℕ) (s : Text) → b < b'0' → All IsDigit s → Lacks b s
digits-Lacks b [] small h = tt
digits-Lacks b (c ∷ s) small (h, hs) = ((omega arith), digits-Lacks b s small hs)

abbrev LacksSeparators : Text → Type 0
LacksSeparators t = Lacks b'=' t × Lacks b',' t

keys_lack : (key : Text) → contains io_max_keys key ≡ true → LacksSeparators key
keys_lack key h = contains-All LacksSeparators io_max_keys key (omega arith) h

print_pair-Lacks : (l : Text × ℕ) → IsLimit l → Lacks b',' (print_pair l)
print_pair-Lacks (key, value) (known, fits) =
    All-append (λ c. c ≢ b',') key _ (keys_lack key known).1
      (omega arith, digits-Lacks b',' (to_string value) (omega arith) (to_string-IsDigit value))

parse_pair-print_pair : (l : Text × ℕ) → IsLimit l → parse_pair (print_pair l) ≡ ok l
unfolding parse_pair check_pair
parse_pair-print_pair (key, value) (known, fits) = rw (
  split_once-append b'=' key (to_string value) (keys_lack key known).0,
  known,
  parse_u64-to_string value fits,
  parse_value,
)

collect_map-print_pair :
    (ls : List (Text × ℕ)) → All IsLimit ls → collect_map parse_pair (map print_pair ls) ≡ ok ls
unfolding collect_map
collect_map-print_pair [] h = refl
collect_map-print_pair (l ∷ ls) (p, h) = rw (parse_pair-print_pair l p, collect_map-print_pair ls h)

map-print_pair-Lacks :
    (ls : List (Text × ℕ)) → All IsLimit ls → All (Lacks b',') (map print_pair ls)
map-print_pair-Lacks [] h = tt
map-print_pair-Lacks (l ∷ ls) (p, h) = (print_pair-Lacks l p, map-print_pair-Lacks ls h)

is_empty_of_ne {ℓ} : {A : Type ℓ} (xs : List A) → xs ≢ [] → is_empty xs ≡ false
is_empty_of_ne [] h = absurd (h refl)
is_empty_of_ne (x ∷ xs) h = refl

print_pair-ne-nil : (l : Text × ℕ) → print_pair l ≢ []
print_pair-ne-nil ([], value) = cc
print_pair-ne-nil (c ∷ key, value) = cc

join-print_pair-ne-nil :
    (ls : List (Text × ℕ)) → ls ≢ [] → join (b',' ∷ []) (map print_pair ls) ≢ []
join-print_pair-ne-nil [] h = absurd (h refl)
join-print_pair-ne-nil (l ∷ ls) h =
    join-ne-nil (b',' ∷ []) (print_pair l) (map print_pair ls) (print_pair-ne-nil l)

map-ne-nil {ℓ κ} : {A : Type ℓ} {B : Type κ} (f : A → B) (xs : List A) → xs ≢ [] → map f xs ≢ []
map-ne-nil f [] h = absurd (h refl)
map-ne-nil f (x ∷ xs) h = cc

-- Every specification with a device path without `:` and with limits of io.max is read back from
-- its print, the limits in order.
pub parse_io_max-print_io_max : (x : IoMax) → IsIoMax x → parse_io_max (print_io_max x) ≡ ok x
unfolding parse_io_max print_io_max
parse_io_max-print_io_max x v = rw (
  split_once-append b':' x.device _ v.device_lacks_colon,
  is_empty_of_ne x.device v.device_not_empty,
  is_empty_of_ne _ (join-print_pair-ne-nil x.limits v.limits_not_empty),
  split-join b',' (map print_pair x.limits) (map-ne-nil print_pair x.limits v.limits_not_empty)
      (map-print_pair-Lacks x.limits v.limits_are_limits),
  collect_map-print_pair x.limits v.limits_are_limits,
)

-- What was read: the key and the text of the value, as they stand in the pair.
abbrev Read : Text → Text × ℕ → Type 0
Read pair (key, value) = (text : Text) × (pair ≡ key ++ b'=' ∷ text) × (parse_u64 text ≡ some value)

check_pair_lem :
    (k t key : Text) (value : ℕ)
    → check_pair (k, t) ≡ ok (key, value)
    → (k ≡ key) × (contains io_max_keys key ≡ true) × (parse_u64 t ≡ some value)
unfolding check_pair
check_pair_lem k t key value e = ground arith

parse_pair_sound :
    (pair key : Text) (value : ℕ)
    → parse_pair pair ≡ ok (key, value)
    → IsLimit (key, value) × Read pair (key, value)
unfolding parse_pair
parse_pair_sound pair key value h = go (split_once b'=' pair) refl h
  where
    go :
        (o : Option (Text × Text))
        → split_once b'=' pair ≡ o
        → (ok_or_else (io_max_without_equals pair) o >>= check_pair) ≡ ok (key, value)
        → IsLimit (key, value) × Read pair (key, value)
    go none found e = cc
    go (some (k, t)) found e =
        let (same, known, number) = check_pair_lem k t key value e in
        let (split, lacks) = split_once_sound b'=' pair k t found in
        ((known, parse_u64-lt t number), (t, split ∙ ap (λ a. a ++ b'=' ∷ t) same, number))

abbrev pub Reads : List Text → List (Text × ℕ) → Type 0
Reads [] [] = Unit
Reads (p ∷ ps) (l ∷ ls) = Read p l × Reads ps ls
Reads [] (l ∷ ls) = ⊥
Reads (p ∷ ps) [] = ⊥

Collected-Reads :
    (ps : List Text) (ls : List (Text × ℕ))
    → Collected parse_pair ps ls
    → All IsLimit ls × Reads ps ls
Collected-Reads [] ls e = rw e (tt, tt)
Collected-Reads (p ∷ ps) ls ((key, value), rest, first, e, more) =
    let (limit, from) = parse_pair_sound p key value first in
    let (limits, reads) = Collected-Reads ps rest more in rw e ((limit, limits), (from, reads))

-- What `parse_io_max` accepted, and where it stands in the text.
abbrev pub ReadSpec : Text → IoMax → Type 0
ReadSpec spec x =
    IsIoMax x × (rest : Text) × (spec ≡ x.device ++ b':' ∷ rest) × Reads (split b',' rest) x.limits

check_spec_lem :
    (spec device limits : Text) {x : IoMax}
    → check_spec spec (device, limits) ≡ ok x
    → (device ≢ [])
      × (device ≡ x.device)
      × (collect_map parse_pair (split b',' limits) ≡ ok x.limits)
unfolding check_spec
check_spec_lem spec device limits h = ground arith

Reads-ne-nil : (ps : List Text) (ls : List (Text × ℕ)) → ps ≢ [] → Reads ps ls → ls ≢ []
Reads-ne-nil [] ls h r = absurd (h refl)
Reads-ne-nil (p ∷ ps) [] h r = absurd r
Reads-ne-nil (p ∷ ps) (l ∷ ls) h r = cc

-- An accepted specification is a device path without `:`, a colon, and pairs between commas. The
-- limits are those of the pairs in order, each a key of io.max and the u64 that its text denotes.
pub parse_io_max_sound : (spec : Text) {x : IoMax} → parse_io_max spec ≡ ok x → ReadSpec spec x
unfolding parse_io_max
parse_io_max_sound spec {x} h = go (split_once b':' spec) refl h
  where
    go :
        (o : Option (Text × Text))
        → split_once b':' spec ≡ o
        → (ok_or_else (io_max_without_colon spec) o >>= check_spec spec) ≡ ok x
        → ReadSpec spec x
    go none found e = cc
    go (some (device, limits)) found e =
        let (present, same, pairs) = check_spec_lem spec device limits e in
        let (all, reads) =
          Collected-Reads (split b',' limits) x.limits
            (collect_map-eq-ok parse_pair (split b',' limits) pairs) in
        let (split_at, lacks) = split_once_sound b':' spec device limits found in
        (
          record {
            device_lacks_colon = rw (← same) lacks;
            device_not_empty = rw (← same) present;
            limits_not_empty = Reads-ne-nil _ _ (split-ne-nil b',' limits) reads;
            limits_are_limits = all;
          },
          limits,
          split_at ∙ ap (λ a. a ++ b':' ∷ limits) same,
          reads,
        )
