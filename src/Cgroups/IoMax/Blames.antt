-- ===== src/Cgroups/IoMax/Blames.antt =====
-- What the errors of `parse_io_max` of src/cgroups.rs blame, and what their texts quote.
use mathlib.Core.Path.{subst}
use boxed.Prelude.{
  ◌≡◌, refl, sym, Bool, true, false, List, [], ◌∷◌, ◌++◌, Option, none, some, not, append_assoc,
  append-nil, if◌then◌else◌, ℕ,
}
use boxed.Text.{Text, codes, contains}
use boxed.Text.Contains.{Within, Within-trans, split-Within, contains_text, contains_text-append}
use boxed.Text.Decimal.{parse_u64}
use boxed.Text.Split.{split_once, split, Lacks, split_once_sound, split_once-none}
use boxed.Error.{
  Error, message, context, parse_int, Result, ok, err, bail, ok_or_else, with_context, ◌>>=◌,
  collect_map, collect_map-eq-err, err_injective, io_max_without_colon, io_max_empty_device,
  io_max_without_limits, io_max_without_equals, io_max_unknown_key, io_max_bad_value,
}
use boxed.Display.{Debug, error_text, message_text, cgroups_text}
use boxed.Cgroups.IoMax.{IoMax, io_max_keys, check_pair, parse_pair, check_spec, parse_io_max}

-- What is wrong with a pair, by the error.
pub data PairFault (pair : Text) : Error → Type 0 where
  without_equals : Lacks b'=' pair → PairFault pair (message (io_max_without_equals pair))
  unknown_key :
      (key value : Text)
      → pair ≡ key ++ b'=' ∷ value
      → contains io_max_keys key ≡ false
      → PairFault pair (message (io_max_unknown_key key))
  bad_value :
      (key value : Text)
      → pair ≡ key ++ b'=' ∷ value
      → contains io_max_keys key ≡ true
      → parse_u64 value ≡ none
      → PairFault pair (context (io_max_bad_value value key) parse_int)

-- What is wrong with a specification, by the error.
pub data Fault (spec : Text) : Error → Type 0 where
  without_colon : Lacks b':' spec → Fault spec (message (io_max_without_colon spec))
  empty_device :
      (limits : Text) → spec ≡ b':' ∷ limits → Fault spec (message (io_max_empty_device spec))
  without_limits :
      (device : Text)
      → spec ≡ device ++ b':' ∷ []
      → Fault spec (message (io_max_without_limits spec))
  in_pair : {e : Error} → (pair : Text) → Within pair spec → PairFault pair e → Fault spec e

check_pair-Fault :
    (pair key value : Text) {e : Error}
    → pair ≡ key ++ b'=' ∷ value
    → check_pair (key, value) ≡ err e
    → PairFault pair e
unfolding check_pair
check_pair-Fault pair key value {e} parts h =
    go (contains io_max_keys key) (parse_u64 value) refl refl h
  where
    go :
        (known : Bool) (number : Option ℕ)
        → contains io_max_keys key ≡ known
        → parse_u64 value ≡ number
        → (if not known
            then bail {T = Text × ℕ} (io_max_unknown_key key)
            else with_context
                (io_max_bad_value value key)
                (elim number [ none ↦ err parse_int | some v ↦ ok v ])
              >>= λ v. ok (key, v))
          ≡ err e
        → PairFault pair e
    go false number same same' q =
        subst (PairFault pair) (err_injective q) (unknown_key key value parts same)
    go true none same same' q =
        subst (PairFault pair) (err_injective q) (bad_value key value parts same same')
    go true (some v) same same' q = cc

parse_pair-Fault : (pair : Text) {e : Error} → parse_pair pair ≡ err e → PairFault pair e
unfolding parse_pair
parse_pair-Fault pair {e} h = go (split_once b'=' pair) refl h
  where
    go :
        (o : Option (Text × Text))
        → split_once b'=' pair ≡ o
        → (ok_or_else (io_max_without_equals pair) o >>= check_pair) ≡ err e
        → PairFault pair e
    go none found q =
        subst (PairFault pair) (err_injective q) (without_equals (split_once-none b'=' pair found))
    go (some (key, value)) found q =
        check_pair-Fault pair key value (split_once_sound b'=' pair key value found).0 q

check_spec-Fault :
    (spec device limits : Text) {e : Error}
    → spec ≡ device ++ b':' ∷ limits
    → check_spec spec (device, limits) ≡ err e
    → Fault spec e
unfolding check_spec
check_spec-Fault spec [] limits parts h =
    subst (Fault spec) (err_injective h) (empty_device limits parts)
check_spec-Fault spec (c ∷ device) [] parts h =
    subst (Fault spec) (err_injective h) (without_limits (c ∷ device) parts)
check_spec-Fault spec (c ∷ device) (b ∷ limits) {e} parts h =
    go (collect_map parse_pair (split b',' (b ∷ limits))) refl h
  where
    go :
        (r : Result (List (Text × ℕ)))
        → collect_map parse_pair (split b',' (b ∷ limits)) ≡ r
        → ◌>>=◌ {U = IoMax} r (λ pairs. ok (record { device = c ∷ device; limits = pairs })) ≡ err e
        → Fault spec e
    go (ok pairs) same q = cc
    go (err e') same q =
        let (pair, stands, wrong) =
          collect_map-eq-err (λ p. Within p (b ∷ limits)) parse_pair (split b',' (b ∷ limits))
            (split-Within b',' (b ∷ limits)) same in
        let within =
          Within-trans pair (b ∷ limits) spec stands
            ((c ∷ device) ++ b':' ∷ [], [], rw parts (simp (append_assoc, append-nil))) in
        subst (Fault spec) (err_injective q) (in_pair pair within (parse_pair-Fault pair wrong))

parse_io_max-Fault : (spec : Text) {e : Error} → parse_io_max spec ≡ err e → Fault spec e
unfolding parse_io_max
parse_io_max-Fault spec {e} h = go (split_once b':' spec) refl h
  where
    go :
        (o : Option (Text × Text))
        → split_once b':' spec ≡ o
        → (ok_or_else (io_max_without_colon spec) o >>= check_spec spec) ≡ err e
        → Fault spec e
    go none found q =
        subst (Fault spec) (err_injective q) (without_colon (split_once-none b':' spec found))
    go (some (device, limits)) found q =
        check_spec-Fault spec device limits (split_once_sound b':' spec device limits found).0 q

-- A part of the specification that the text of the error quotes.
abbrev pub Quotes : Debug → Text → Error → Type 0
Quotes d spec e =
    (part text : Text) × Within part spec
    × (error_text d e ≡ some text)
    × (contains_text text (d.text part) ≡ true)

PairFault-Quotes :
    (d : Debug) (spec pair : Text) (e : Error)
    → Within pair spec
    → PairFault pair e
    → Quotes d spec e
unfolding message_text cgroups_text
PairFault-Quotes d spec pair e w (without_equals lacks) =
    (pair, _, w, refl, contains_text-append (codes "invalid --io-max entry ") (d.text pair) _)
PairFault-Quotes d spec pair e w (unknown_key key value parts unknown) = (
  key,
  _,
  Within-trans key pair spec ([], b'=' ∷ value, parts) w,
  refl,
  contains_text-append (codes "invalid --io-max key ") (d.text key) _,
)
PairFault-Quotes d spec pair e w (bad_value key value parts known number) = (
  value,
  _,
  Within-trans value pair spec (key ++ b'=' ∷ [], [], rw parts (simp (append_assoc, append-nil))) w,
  refl,
  contains_text-append (codes "invalid --io-max value ") (d.text value) _,
)

Fault-Quotes : (d : Debug) (spec : Text) (e : Error) → Fault spec e → Quotes d spec e
unfolding message_text cgroups_text
Fault-Quotes d spec e (without_colon lacks) = (
  spec,
  _,
  ([], [], sym (append-nil spec)),
  refl,
  contains_text-append (codes "invalid --io-max ") (d.text spec) _,
)
Fault-Quotes d spec e (empty_device limits parts) = (
  spec,
  _,
  ([], [], sym (append-nil spec)),
  refl,
  contains_text-append (codes "invalid --io-max ") (d.text spec) _,
)
Fault-Quotes d spec e (without_limits device parts) = (
  spec,
  _,
  ([], [], sym (append-nil spec)),
  refl,
  contains_text-append (codes "invalid --io-max ") (d.text spec) _,
)
Fault-Quotes d spec e (in_pair pair w f) = PairFault-Quotes d spec pair e w f

-- A rejected specification has the fault that its error names: no colon, no device, no limits, or a
-- pair in it without `=`, with a key that io.max does not have, or with a value that is no u64. The
-- text of the error quotes the specification, or the pair, key or value at fault.
pub parse_io_max-Quotes :
    (d : Debug) (spec : Text) {e : Error}
    → parse_io_max spec ≡ err e
    → Fault spec e × Quotes d spec e
parse_io_max-Quotes d spec {e} h =
    let fault = parse_io_max-Fault spec h in (fault, Fault-Quotes d spec e fault)
