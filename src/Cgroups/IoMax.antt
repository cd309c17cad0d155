-- ===== src/Cgroups/IoMax.antt =====
-- The values of `--io-max`: `parse_io_max` and `render_io_max` of src/cgroups.rs.
pub mod RoundTrip
pub mod Blames
mod Unit
use boxed.Prelude.{
  ℕ, ◌^◌, ◌<◌, ◌≡◌, ◌≢◌, refl, Bool, true, false, not, List, [], ◌∷◌, ◌++◌, map, Option, none, some,
  if◌then◌else◌, arith, All, is_empty, Bool-cases, inl, inr, ap, ◌∙◌, sym, length,
}
use boxed.Text.{Text, codes, contains}
use boxed.Text.Decimal.{
  to_string, parse_u64, parse_u64-to_string, parse_u64-lt, to_string-IsDigit, IsDigit,
}
use boxed.Text.Split.{
  split_once, split, join, Lacks, split_once-append, split_once_sound, split-join, join-Lacks,
  join-ne-nil,
}
use boxed.Error.{
  Result, ok, err, bail, with_context, ok_or_else, ◌>>=◌, collect_map, Collected, collect_map-eq-ok,
  parse_int, io_max_without_colon, io_max_empty_device, io_max_without_limits,
  io_max_without_equals, io_max_unknown_key, io_max_bad_value,
}

pub record IoMax : Type 0 where
  pub device : Text
  pub limits : List (Text × ℕ)

abbrev pub io_max_keys : List Text
io_max_keys = codes "rbps" ∷ codes "wbps" ∷ codes "riops" ∷ codes "wiops" ∷ []

-- `value.parse::<u64>()`
abbrev pub parse_value : Text → Result ℕ
parse_value value = elim (parse_u64 value) [ none ↦ err parse_int | some v ↦ ok v ]

-- The closure over the pairs of `parse_io_max`, behind its `split_once`.
unfoldable pub check_pair : Text × Text → Result (Text × ℕ)
check_pair (key, value) =
    if not (contains io_max_keys key)
    then bail (io_max_unknown_key key)
    else do v ← with_context (io_max_bad_value value key) (parse_value value); ok (key, v)

unfoldable pub parse_pair : Text → Result (Text × ℕ)
parse_pair pair = ok_or_else (io_max_without_equals pair) (split_once b'=' pair) >>= check_pair

-- `parse_io_max`, behind its `split_once`.
unfoldable pub check_spec : Text → Text × Text → Result IoMax
check_spec spec (device, limits) =
    if is_empty device
    then bail (io_max_empty_device spec)
    else if is_empty limits
    then bail (io_max_without_limits spec)
    else do
      pairs ← collect_map parse_pair (split b',' limits)
      ok (record { device = device; limits = pairs })

unfoldable pub parse_io_max : Text → Result IoMax
unfolding check_spec
parse_io_max spec =
    ok_or_else (io_max_without_colon spec) (split_once b':' spec) >>= check_spec spec

-- ` {key}={value}` for each limit, behind the device's number.
unfoldable pub render_io_max : Text → List (Text × ℕ) → Text
render_io_max line [] = line
render_io_max line ((key, value) ∷ limits) =
    render_io_max (line ++ (codes " " ++ (key ++ (codes "=" ++ to_string value)))) limits
