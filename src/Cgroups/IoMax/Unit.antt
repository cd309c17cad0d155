-- ===== src/Cgroups/IoMax/Unit.antt =====
-- The unit tests of `parse_io_max` and `render_io_max` of src/cgroups.rs, under their names.
use boxed.Prelude.{ℕ, ◌≡◌, refl, Bool, true, ◌&&◌, ◌==◌, [], ◌∷◌, length}
use boxed.Text.{Text, codes, text_eq, contains}
use boxed.Text.Decimal.{to_string, parse_u64}
use boxed.Text.Split.{join, split, split_once}
use boxed.Error.{collect_map}
use boxed.Display.{Debug, message_text}
use boxed.Text.Contains.{starts_with, contains_text}
use boxed.Asserts.{unwrap, unwrap_err, is_err, says, list_eq, all_pass, quoting}
use boxed.Cgroups.IoMax.{IoMax, io_max_keys, parse_io_max, parse_pair, check_pair, render_io_max}

abbrev limit_eq : Text × ℕ → Text × ℕ → Bool
limit_eq (key, value) (key', value') = text_eq key key' && value == value'

-- `==` on `IoMax`, which is derived.
abbrev io_max_eq : IoMax → IoMax → Bool
io_max_eq a b = text_eq a.device b.device && list_eq limit_eq a.limits b.limits

abbrev parse_io_max_single_limit : Bool
parse_io_max_single_limit = unwrap (parse_io_max (codes "/dev/sda:wbps=1048576")) (λ parsed.
    io_max_eq parsed (record { device = codes "/dev/sda"; limits = (codes "wbps", 1048576) ∷ [] }))

abbrev parse_io_max_multiple_limits_keep_order : Bool
parse_io_max_multiple_limits_keep_order =
    unwrap (parse_io_max (codes "/dev/sda:wbps=1048576,riops=200")) (λ parsed.
      text_eq parsed.device (codes "/dev/sda")
      && list_eq limit_eq parsed.limits ((codes "wbps", 1048576) ∷ (codes "riops", 200) ∷ []))

abbrev parse_io_max_accepts_every_valid_key : Bool
parse_io_max_accepts_every_valid_key =
    unwrap (parse_io_max (codes "/dev/sda:rbps=1,wbps=2,riops=3,wiops=4"))
      (λ parsed. length parsed.limits == length io_max_keys)

abbrev parse_io_max_rejects_missing_colon : Debug → Bool
parse_io_max_rejects_missing_colon d =
    unwrap_err (parse_io_max (codes "/dev/sda")) (λ e. says d e (codes "DEVICE:KEY=VALUE"))

abbrev parse_io_max_rejects_empty_device : Bool
parse_io_max_rejects_empty_device = is_err (parse_io_max (codes ":wbps=1"))

abbrev parse_io_max_rejects_empty_limits : Bool
parse_io_max_rejects_empty_limits = is_err (parse_io_max (codes "/dev/sda:"))

abbrev parse_io_max_rejects_pair_without_equals : Debug → Bool
parse_io_max_rejects_pair_without_equals d =
    unwrap_err (parse_io_max (codes "/dev/sda:wbps")) (λ e. says d e (codes "KEY=VALUE"))

abbrev parse_io_max_rejects_unknown_key : Debug → Bool
parse_io_max_rejects_unknown_key d =
    unwrap_err (parse_io_max (codes "/dev/sda:wpbs=1"))
      (λ e. says d e (codes "wpbs") && says d e (codes "rbps"))

abbrev parse_io_max_rejects_non_numeric_value : Debug → Bool
parse_io_max_rejects_non_numeric_value d =
    unwrap_err (parse_io_max (codes "/dev/sda:wbps=lots")) (λ e. says d e (codes "lots"))

abbrev render_io_max_formats_one_line_per_device : Bool
render_io_max_formats_one_line_per_device =
    text_eq (render_io_max (codes "8:0") ((codes "wbps", 1048576) ∷ [])) (codes "8:0 wbps=1048576")
    && text_eq (render_io_max (codes "8:0") ((codes "wbps", 1) ∷ (codes "riops", 2) ∷ []))
        (codes "8:0 wbps=1 riops=2")

io_max_pass :
    all_pass (
      parse_io_max_single_limit
      ∷ parse_io_max_multiple_limits_keep_order
      ∷ parse_io_max_accepts_every_valid_key
      ∷ parse_io_max_rejects_missing_colon quoting
      ∷ parse_io_max_rejects_empty_device
      ∷ parse_io_max_rejects_empty_limits
      ∷ parse_io_max_rejects_pair_without_equals quoting
      ∷ parse_io_max_rejects_unknown_key quoting
      ∷ parse_io_max_rejects_non_numeric_value quoting
      ∷ render_io_max_formats_one_line_per_device
      ∷ [])
    ≡ true
unfolding parse_io_max split_once split collect_map parse_pair check_pair contains text_eq parse_u64
    to_string render_io_max message_text contains_text starts_with join
io_max_pass = refl
