-- ===== src/Seccomp/Load.antt =====
-- `SeccompProfile::from_file` of src/seccomp.rs. The parser of serde_json is a parameter.
use boxed.Prelude.{Option, none, some}
use boxed.Text.{Text}
use boxed.Error.{
  Result, with_context, failed_to_read_profile, failed_to_parse_profile, profile_validation_failed,
}
use boxed.Kernel.{Io, call, lift, pure, within, ◌>>=◌, read_to_string}
use boxed.Seccomp.Libc.{Libc}
use boxed.Seccomp.Profile.{SeccompProfile, ResolvedProfile, resolve}

-- `serde_json::from_str::<SeccompProfile>`
abbrev pub FromStr : Type 0
FromStr = Text → Result SeccompProfile

module _ (l : Libc) (from_str : FromStr) where
  unfoldable pub from_file : Text → Io ResolvedProfile
  from_file path = do
    content ← within (failed_to_read_profile path) (call (read_to_string path))
    profile ← lift (with_context (failed_to_parse_profile path) (from_str content))
    resolved ← lift (with_context profile_validation_failed (resolve l profile))
    pure resolved

  -- `.map(from_file).transpose()?`
  unfoldable pub load_profile : Option Text → Io (Option ResolvedProfile)
  load_profile none = pure none
  load_profile (some path) = from_file path >>= λ profile. pure (some profile)
