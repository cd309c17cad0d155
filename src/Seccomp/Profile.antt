-- ===== src/Seccomp/Profile.antt =====
-- The profile types of src/seccomp.rs, as they are parsed and as they are resolved.
use mathlib.Core.Option
use boxed.Prelude.{is_empty, ℕ, not, ◌&&◌, List, Option, none, some, if◌then◌else◌}
use boxed.Text.{Text, codes, text_eq, contains}
use boxed.Error.{
  Result, ok, bail, ok_or_else, ◌>>=◌, collect_map, profile_not_x86_64, unknown_default_action,
  rule_without_names, rule_with_args, unknown_action, unknown_syscall,
}
use boxed.Seccomp.Libc.{Libc}
use boxed.Seccomp.Syscalls.{syscall_of}

pub record ArgRule : Type 0 where
  pub index : ℕ
  pub value : ℕ
  pub value_two : Option ℕ
  pub op : Text

pub record SyscallRule : Type 0 where
  pub names : List Text
  pub action : Text
  pub args : List ArgRule

pub record SeccompProfile : Type 0 where
  pub default_action : Text
  pub architectures : List Text
  pub syscalls : List SyscallRule

pub record ResolveRule : Type 0 where
  pub numbers : List ℕ
  pub action : ℕ

pub record ResolvedProfile : Type 0 where
  pub rules : List ResolveRule
  pub default_action : ℕ

module _ (l : Libc) where
  unfoldable pub resolve_action : Text → Option ℕ
  resolve_action action =
      if text_eq action (codes "SCMP_ACT_ALLOW")
      then some l.seccomp_ret_allow
      else if text_eq action (codes "SCMP_ACT_ERRNO")
      then some l.seccomp_ret_errno
      else if text_eq action (codes "SCMP_ACT_KILL")
      then some l.seccomp_ret_kill
      else if text_eq action (codes "SCMP_ACT_KILL_PROCESS")
      then some l.seccomp_ret_kill_process
      else none

  unfoldable pub syscall_number : Text → Option ℕ
  syscall_number name = Option.map l.number (syscall_of name)

  unfoldable pub resolve_name : Text → Result ℕ
  resolve_name name = ok_or_else (unknown_syscall name) (syscall_number name)

  -- `SyscallRule::resolve`
  unfoldable pub resolve_rule : SyscallRule → Result ResolveRule
  resolve_rule rule =
      if is_empty rule.names
      then bail rule_without_names
      else if not (is_empty rule.args)
      then bail (rule_with_args rule.names)
      else do
        action ← ok_or_else (unknown_action rule.action) (resolve_action rule.action)
        numbers ← collect_map resolve_name rule.names
        ok (record { numbers = numbers; action = action })

  -- `SeccompProfile::resolve`
  unfoldable pub resolve : SeccompProfile → Result ResolvedProfile
  resolve profile =
      if not (is_empty profile.architectures)
        && not (contains profile.architectures (codes "SCMP_ARCH_X86_64"))
      then bail profile_not_x86_64
      else do
        rules ← collect_map resolve_rule profile.syscalls
        default_action ←
            ok_or_else (unknown_default_action profile.default_action)
              (resolve_action profile.default_action)
        ok (record { rules = rules; default_action = default_action })
