-- ===== src/Main/Loads.antt =====
-- What the checks of src/main.rs load and accept: the directory, the profile and the devices.
use boxed.Prelude.{
  ◌≡◌, refl, ◌∙◌, All, Bool, true, false, not, List, [], ◌∷◌, ◌++◌, Option, none, some,
}
use boxed.Text.{Text, codes, join_path}
use boxed.Text.Decimal.{to_string}
use boxed.Error.{
  ok, ok_injective, bail, with_context, failed_to_stat, not_a_block_device, failed_to_read_profile,
  failed_to_parse_profile, profile_validation_failed, home_is_not_set,
}
use boxed.Kernel.{
  Call, Outcome, done, failed, to_result, Machine, World, proceed, ◌>>=◌, Io, call, lift, pure, ask,
  within, create_dir_all, read_to_string, stat,
}
use mathlib.Core.Path.{subst}
use boxed.Kernel.Script.{after}
use boxed.Kernel.Makes.{
  Makes, Makes-bind, Makes-call, Makes-lift, Makes-ask, Makes-if, Makes-checked,
}
use boxed.Kernel.Ensures.{
  Ensures, Ensures-lift, Ensures-weaken, Ensures-bind, Makes-Ensures, ok-with_context, proceed-ok,
}
use boxed.Config.{var, config_dir, create_config_dir}
use boxed.Cgroups.IoMax.{IoMax, parse_io_max}
use boxed.Cgroups.Config.{resolve_device, validate_specs}
use boxed.Seccomp.Libc.{Libc}
use boxed.Seccomp.Profile.{SeccompProfile, ResolvedProfile, resolve}
use boxed.Seccomp.Load.{FromStr, from_file, load_profile}

-- The directory of the configuration, the profile, and the devices.
unfoldable pub is_check_call : Call → Bool
is_check_call (create_dir_all p) = true
is_check_call (read_to_string p) = true
is_check_call (stat p) = true
is_check_call _ = false

abbrev pub ChecksOnly : {A : Type 0} → Io A → Type 0
ChecksOnly = Makes is_check_call

pub create_config_dir-ChecksOnly : ChecksOnly create_config_dir
unfolding create_config_dir config_dir is_check_call
create_config_dir-ChecksOnly =
    Makes-bind config_dir _
      (Makes-bind (ask (λ m. m.home)) _ (Makes-ask (λ m. m.home)) (λ found.
        Makes-bind (lift (with_context home_is_not_set (var found))) _
          (Makes-lift (with_context home_is_not_set (var found)))
          (λ home. Makes-lift (ok (join_path home (codes ".boxed"))))))
      (λ dir.
        Makes-bind (call (create_dir_all dir)) _ (Makes-call (create_dir_all dir) refl)
          (λ _. Makes-lift (ok tt)))

-- A specification that parses.
abbrev pub Parses : Text → Type 0
Parses spec = (x : IoMax) × (parse_io_max spec ≡ ok x)

resolve_device-ChecksOnly : (path : Text) → ChecksOnly (resolve_device path)
unfolding resolve_device is_check_call
resolve_device-ChecksOnly path =
    Makes-bind (within (failed_to_stat path) (call (stat path))) _
      (Makes-checked (failed_to_stat path) (stat path) refl)
      (λ info.
        Makes-if (not info.is_block) (lift (bail (not_a_block_device path)))
          (pure (to_string info.major ++ b':' ∷ to_string info.minor))
          (Makes-lift (bail (not_a_block_device path)))
          (Makes-lift (ok (to_string info.major ++ b':' ∷ to_string info.minor))))

pub validate_specs-ChecksOnly : (specs : List Text) → ChecksOnly (validate_specs specs)
unfolding validate_specs
validate_specs-ChecksOnly [] = Makes-lift (ok tt)
validate_specs-ChecksOnly (spec ∷ specs) =
    Makes-bind (lift (parse_io_max spec)) _ (Makes-lift (parse_io_max spec)) (λ parsed.
      Makes-bind (resolve_device parsed.device) _ (resolve_device-ChecksOnly parsed.device)
        (λ _. validate_specs-ChecksOnly specs))

pub validate_specs-Parses :
    (specs : List Text) → Ensures (λ made _. All Parses specs) (validate_specs specs)
unfolding validate_specs
validate_specs-Parses [] = Ensures-weaken (pure tt) (λ made a q. tt) (Ensures-lift (ok tt))
validate_specs-Parses (spec ∷ specs) =
    Ensures-weaken (validate_specs (spec ∷ specs))
      (λ made b (parsed, c0, r0, e0, (p0, p1), (number, c1, r1, e1, q1, rest)).
        ((parsed, p1), rest))
      (Ensures-bind (lift (parse_io_max spec)) _ (Ensures-lift (parse_io_max spec)) (λ parsed.
        Ensures-bind (resolve_device parsed.device) _
          (Makes-Ensures (resolve_device parsed.device) (resolve_device-ChecksOnly parsed.device))
          (λ _. validate_specs-Parses specs)))

module _ (l : Libc) (from_str : FromStr) where
  from_file-ChecksOnly : (path : Text) → ChecksOnly (from_file l from_str path)
  unfolding from_file is_check_call
  from_file-ChecksOnly path =
      Makes-bind (within (failed_to_read_profile path) (call (read_to_string path))) _
        (Makes-checked (failed_to_read_profile path) (read_to_string path) refl)
        (λ content.
          Makes-bind (lift (with_context (failed_to_parse_profile path) (from_str content))) _
            (Makes-lift (with_context (failed_to_parse_profile path) (from_str content)))
            (λ profile.
              Makes-bind (lift (with_context profile_validation_failed (resolve l profile))) _
                (Makes-lift (with_context profile_validation_failed (resolve l profile)))
                (λ resolved. Makes-lift (ok resolved))))

  pub load_profile-ChecksOnly : (path : Option Text) → ChecksOnly (load_profile l from_str path)
  unfolding load_profile
  load_profile-ChecksOnly none = Makes-lift (ok none)
  load_profile-ChecksOnly (some path) =
      Makes-bind (from_file l from_str path) _ (from_file-ChecksOnly path)
        (λ profile. Makes-lift (ok (some profile)))

-- The profile that a path gives: the file behind it is read, and its text parses.
abbrev pub GivenBy : FromStr → Machine → World → Option Text → Option SeccompProfile → Type 0
GivenBy from_str m w none p = p ≡ none
GivenBy from_str m w (some path) p =
    (content : Text) × (parsed : SeccompProfile) × (m.answer w.calls (read_to_string path)
      ≡ done content)
    × (from_str content ≡ ok parsed)
    × (p ≡ some parsed)

-- The resolved profile is that of the one read.
abbrev pub Resolves : Libc → Option SeccompProfile → Option ResolvedProfile → Type 0
Resolves l none none = Unit
Resolves l (some p) (some r) = resolve l p ≡ ok r
Resolves l p r = ⊥

module _ (l : Libc) (from_str : FromStr) (m : Machine) where
  read-GivenBy :
      (path : Text) (w : World) (o : Outcome Text) {r : ResolvedProfile}
      → m.answer w.calls (read_to_string path) ≡ o
      → (proceed
          (with_context (failed_to_read_profile path) (to_result o))
          (λ content.
            lift (with_context (failed_to_parse_profile path) (from_str content)) >>= λ profile.
            lift (with_context profile_validation_failed (resolve l profile)) >>= λ resolved.
            pure resolved)
          m
          (after w (read_to_string path))).0
        ≡ ok r
      → (p : Option SeccompProfile) × GivenBy from_str m w (some path) p × Resolves l p (some r)
  read-GivenBy path w (failed n) e h = cc
  read-GivenBy path w (done content) {r} e h =
      let v = after w (read_to_string path) in
      let (parsed, p, h1, e1) =
        proceed-ok (with_context (failed_to_parse_profile path) (from_str content)) _ m v h in
      let (resolved, q, h2, e2) =
        proceed-ok (with_context profile_validation_failed (resolve l parsed)) _ m v h1 in
      (
        some parsed,
        (
          content,
          parsed,
          e,
          ok-with_context (failed_to_parse_profile path) (from_str content) p,
          refl,
        ),
        ok-with_context profile_validation_failed (resolve l parsed) q ∙ h2,
      )

  pub load_profile-GivenBy :
      (path : Option Text) (w : World) {profile : Option ResolvedProfile}
      → (load_profile l from_str path m w).0 ≡ ok profile
      → (p : Option SeccompProfile) × GivenBy from_str m w path p × Resolves l p profile
  unfolding load_profile from_file call
  load_profile-GivenBy none w h = (none, refl, subst (Resolves l none) (ok_injective h) tt)
  load_profile-GivenBy (some path) w h =
      let (resolved, p, h1, e1) =
        proceed-ok (from_file l from_str path m w).0 _ m (from_file l from_str path m w).1 h in
      let (parsed, given, resolves) =
        read-GivenBy path w (m.answer w.calls (read_to_string path)) refl p in
      (parsed, given, subst (Resolves l parsed) (ok_injective h1) resolves)
