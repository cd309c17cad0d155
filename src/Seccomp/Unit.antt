-- ===== src/Seccomp/Unit.antt =====
-- The unit tests of src/seccomp.rs on profiles, under their names, with the parser of serde_json as a
-- parameter.
use boxed.Prelude.{
  ◌≡◌, refl, Bool, true, false, ◌&&◌, ◌==◌, List, [], ◌∷◌, length, none, some, if◌then◌else◌,
}
use boxed.Text.{Text, codes, text_eq, contains}
use boxed.Text.Split.{join}
use boxed.Error.{Result, ok, err, json, ◌>>=◌, collect_map}
use boxed.Display.{Debug, message_text}
use boxed.Text.Contains.{starts_with, contains_text}
use boxed.Asserts.{unwrap, unwrap_err, says, list_eq, last_is, all_pass, quoting}
use boxed.Seccomp.Libc.{Libc}
use boxed.Seccomp.Syscalls.{syscall_of, sys_execve, sys_write}
use boxed.Seccomp.Profile.{
  SyscallRule, SeccompProfile, ResolveRule, ResolvedProfile, resolve, resolve_rule, resolve_name,
  resolve_action, syscall_number,
}
use boxed.Seccomp.Filter.{
  SockFilter, build_filter, initialize_filters, push_dangerous, push_rules, push_numbers,
}
use boxed.Seccomp.Load.{FromStr}
use boxed.Seccomp.Linux.{x86_64, x86_64_number}

-- The texts of the tests, one for each.
abbrev valid_json : Text
valid_json =
    codes
      "{\n                \"defaultAction\": \"SCMP_ACT_ERRNO\",\n                \"syscalls\": [\n                    {\"names\": [\"execve\", \"write\"], \"action\": \"SCMP_ACT_ALLOW\"},\n                    {\"names\": [\"reboot\"], \"action\": \"SCMP_ACT_KILL\"}\n                ]\n            }"

abbrev empty_names_json : Text
empty_names_json =
    codes
      "{\"defaultAction\": \"SCMP_ACT_ALLOW\", \"syscalls\": [{\"names\": [], \"action\": \"SCMP_ACT_ALLOW\"}]}"

abbrev unknown_name_json : Text
unknown_name_json =
    codes
      "{\"defaultAction\": \"SCMP_ACT_ALLOW\", \"syscalls\": [{\"names\": [\"not_real\"], \"action\": \"SCMP_ACT_ALLOW\"}]}"

abbrev unknown_action_json : Text
unknown_action_json =
    codes
      "{\"defaultAction\": \"SCMP_ACT_ALLOW\", \"syscalls\": [{\"names\": [\"read\"], \"action\": \"SCMP_ACT_TRACE\"}]}"

abbrev with_args_json : Text
with_args_json =
    codes
      "{\n                \"defaultAction\": \"SCMP_ACT_ALLOW\",\n                \"syscalls\": [{\n                    \"names\": [\"personality\"],\n                    \"action\": \"SCMP_ACT_ALLOW\",\n                    \"args\": [{\"index\": 0, \"value\": 0, \"op\": \"SCMP_CMP_EQ\"}]\n                }]\n            }"

abbrev unknown_default_json : Text
unknown_default_json = codes "{\"defaultAction\": \"SCMP_ACT_NOTIFY\", \"syscalls\": []}"

abbrev aarch64_json : Text
aarch64_json =
    codes
      "{\"defaultAction\": \"SCMP_ACT_ALLOW\", \"architectures\": [\"SCMP_ARCH_AARCH64\"], \"syscalls\": []}"

abbrev no_architectures_json : Text
no_architectures_json = codes "{\"defaultAction\": \"SCMP_ACT_ALLOW\", \"syscalls\": []}"

abbrev two_architectures_json : Text
two_architectures_json =
    codes
      "{\"defaultAction\": \"SCMP_ACT_ALLOW\", \"architectures\": [\"SCMP_ARCH_ARM\", \"SCMP_ARCH_X86_64\"], \"syscalls\": []}"

abbrev errno_default_json : Text
errno_default_json = codes "{\"defaultAction\": \"SCMP_ACT_ERRNO\", \"syscalls\": []}"

module _ (l : Libc) (from_str : FromStr) where
  -- The helper `parse`.
  abbrev parse : Text → Result ResolvedProfile
  parse text = from_str text >>= λ profile. resolve l profile

  abbrev resolve_valid_profile_succeeds : Bool
  resolve_valid_profile_succeeds = unwrap (parse valid_json) (λ profile.
      length profile.rules == 2
      && profile.default_action == l.seccomp_ret_errno
      && first_rules profile.rules)
    where
      first_rules : List ResolveRule → Bool
      first_rules (first ∷ second ∷ rest) =
          list_eq ◌==◌ first.numbers (l.number sys_execve ∷ l.number sys_write ∷ [])
          && first.action == l.seccomp_ret_allow
          && second.action == l.seccomp_ret_kill
      first_rules _ = false

  abbrev resolve_rejects_empty_names : Debug → Bool
  resolve_rejects_empty_names d =
      unwrap_err (parse empty_names_json) (λ e. says d e (codes "at least one name"))

  abbrev resolve_rejects_unknown_syscall_name : Debug → Bool
  resolve_rejects_unknown_syscall_name d =
      unwrap_err (parse unknown_name_json) (λ e. says d e (codes "not_real"))

  abbrev resolve_rejects_unknown_action : Debug → Bool
  resolve_rejects_unknown_action d =
      unwrap_err (parse unknown_action_json) (λ e. says d e (codes "SCMP_ACT_TRACE"))

  abbrev resolve_rejects_args_conditional_rule : Debug → Bool
  resolve_rejects_args_conditional_rule d =
      unwrap_err (parse with_args_json) (λ e. says d e (codes "arg-conditional matching"))

  abbrev resolve_rejects_unknown_default_action : Debug → Bool
  resolve_rejects_unknown_default_action d =
      unwrap_err (parse unknown_default_json) (λ e. says d e (codes "default action"))

  abbrev resolve_rejects_non_x86_64_architecture : Debug → Bool
  resolve_rejects_non_x86_64_architecture d =
      unwrap_err (parse aarch64_json) (λ e. says d e (codes "SCMP_ARCH_X86_64"))

  abbrev resolve_accepts_empty_architectures : Bool
  resolve_accepts_empty_architectures = unwrap (parse no_architectures_json) (λ profile. true)

  abbrev resolve_accepts_architectures_containing_x86_64 : Bool
  resolve_accepts_architectures_containing_x86_64 =
      unwrap (parse two_architectures_json) (λ profile. true)

  abbrev build_filter_from_profile_uses_resolved_default_action : Bool
  build_filter_from_profile_uses_resolved_default_action =
      unwrap (parse errno_default_json) (λ profile.
        last_is (build_filter l (some profile))
          (λ (last : SockFilter). last.k == l.seccomp_ret_errno))

-- A parser that knows the texts of the tests.
abbrev rule : List Text → Text → SyscallRule
rule names action = record { names = names; action = action; args = [] }

abbrev profile_of : Text → List Text → List SyscallRule → SeccompProfile
profile_of action architectures rules = record {
  default_action = action;
  architectures = architectures;
  syscalls = rules;
}

abbrev first_of : List (Text × SeccompProfile) → FromStr
first_of [] text = err (json text)
first_of ((known, profile) ∷ rest) text =
    let other = first_of rest text in if text_eq text known then ok profile else other

abbrev parser : FromStr
parser = first_of (
    (
      valid_json,
      profile_of (codes "SCMP_ACT_ERRNO") [] (
          rule (codes "execve" ∷ codes "write" ∷ []) (codes "SCMP_ACT_ALLOW")
          ∷ rule (codes "reboot" ∷ []) (codes "SCMP_ACT_KILL")
          ∷ []),
    )
    ∷ (
      empty_names_json,
      profile_of (codes "SCMP_ACT_ALLOW") [] (rule [] (codes "SCMP_ACT_ALLOW") ∷ []),
    )
    ∷ (
      unknown_name_json,
      profile_of (codes "SCMP_ACT_ALLOW") []
          (rule (codes "not_real" ∷ []) (codes "SCMP_ACT_ALLOW") ∷ []),
    )
    ∷ (
      unknown_action_json,
      profile_of (codes "SCMP_ACT_ALLOW") []
          (rule (codes "read" ∷ []) (codes "SCMP_ACT_TRACE") ∷ []),
    )
    ∷ (
      with_args_json,
      profile_of (codes "SCMP_ACT_ALLOW") [] (
          record (rule (codes "personality" ∷ []) (codes "SCMP_ACT_ALLOW")) {
            args = record { index = 0; value = 0; value_two = none; op = codes "SCMP_CMP_EQ" } ∷ [];
          }
          ∷ []),
    )
    ∷ (unknown_default_json, profile_of (codes "SCMP_ACT_NOTIFY") [] ([]))
    ∷ (aarch64_json, profile_of (codes "SCMP_ACT_ALLOW") (codes "SCMP_ARCH_AARCH64" ∷ []) ([]))
    ∷ (no_architectures_json, profile_of (codes "SCMP_ACT_ALLOW") [] ([]))
    ∷ (
      two_architectures_json,
      profile_of (codes "SCMP_ACT_ALLOW") (codes "SCMP_ARCH_ARM" ∷ codes "SCMP_ARCH_X86_64" ∷ [])
          ([]),
    )
    ∷ (errno_default_json, profile_of (codes "SCMP_ACT_ERRNO") [] ([]))
    ∷ [])

profiles_pass :
    all_pass (
      resolve_valid_profile_succeeds x86_64 parser
      ∷ resolve_rejects_empty_names x86_64 parser quoting
      ∷ resolve_rejects_unknown_syscall_name x86_64 parser quoting
      ∷ resolve_rejects_unknown_action x86_64 parser quoting
      ∷ resolve_rejects_args_conditional_rule x86_64 parser quoting
      ∷ resolve_rejects_unknown_default_action x86_64 parser quoting
      ∷ resolve_rejects_non_x86_64_architecture x86_64 parser quoting
      ∷ resolve_accepts_empty_architectures x86_64 parser
      ∷ resolve_accepts_architectures_containing_x86_64 x86_64 parser
      ∷ build_filter_from_profile_uses_resolved_default_action x86_64 parser
      ∷ [])
    ≡ true
unfolding resolve resolve_rule resolve_name resolve_action syscall_number syscall_of contains
    text_eq collect_map x86_64_number message_text contains_text starts_with join build_filter
    initialize_filters push_dangerous push_rules push_numbers
profiles_pass = refl
