-- ===== src/Seccomp/TableUnit.antt =====
-- The unit tests of src/seccomp.rs on the tables and on the filter without a profile, under their
-- names.
use boxed.Prelude.{◌≡◌, refl, Bool, true, not, ◌&&◌, ◌==◌, [], ◌∷◌, map, none, some, is_empty}
use boxed.Text.{codes, text_eq, contains}
use boxed.Asserts.{option_eq, all_inserted, last_is, all_pass}
use boxed.Seccomp.Libc.{Libc}
use boxed.Seccomp.Syscalls.{syscall_of, dangerous_syscalls, sys_reboot, sys_execve}
use boxed.Seccomp.Profile.{resolve_action, syscall_number}
use boxed.Seccomp.Filter.{SockFilter, build_filter, initialize_filters, push_dangerous}
use boxed.Seccomp.Linux.{x86_64, x86_64_number}

module _ (l : Libc) where
  abbrev syscall_number_resolves_known_name : Bool
  syscall_number_resolves_known_name =
      option_eq ◌==◌ (syscall_number l (codes "reboot")) (some (l.number sys_reboot))
      && option_eq ◌==◌ (syscall_number l (codes "execve")) (some (l.number sys_execve))

  abbrev syscall_number_rejects_unknown_name : Bool
  syscall_number_rejects_unknown_name =
      option_eq ◌==◌ (syscall_number l (codes "not_a_real_syscall")) none

  abbrev resolve_action_resolves_known_action : Bool
  resolve_action_resolves_known_action =
      option_eq ◌==◌ (resolve_action l (codes "SCMP_ACT_ALLOW")) (some l.seccomp_ret_allow)
      && option_eq ◌==◌ (resolve_action l (codes "SCMP_ACT_KILL_PROCESS"))
          (some l.seccomp_ret_kill_process)

  abbrev resolve_action_rejects_unknown_action : Bool
  resolve_action_rejects_unknown_action =
      option_eq ◌==◌ (resolve_action l (codes "SCMP_ACT_NOTIFY")) none
      && option_eq ◌==◌ (resolve_action l []) none

  abbrev dangerous_syscalls_not_empty : Bool
  dangerous_syscalls_not_empty = not (is_empty dangerous_syscalls)

  abbrev dangerous_syscalls_no_duplicates : Bool
  dangerous_syscalls_no_duplicates = all_inserted ◌==◌ [] (map l.number dangerous_syscalls)

  abbrev build_filter_default_ends_with_allow : Bool
  build_filter_default_ends_with_allow =
      last_is (build_filter l none) (λ (last : SockFilter). last.k == l.seccomp_ret_allow)

tables_pass :
    all_pass (
      syscall_number_resolves_known_name x86_64
      ∷ syscall_number_rejects_unknown_name x86_64
      ∷ resolve_action_resolves_known_action x86_64
      ∷ resolve_action_rejects_unknown_action x86_64
      ∷ dangerous_syscalls_not_empty x86_64
      ∷ dangerous_syscalls_no_duplicates x86_64
      ∷ build_filter_default_ends_with_allow x86_64
      ∷ [])
    ≡ true
unfolding syscall_number syscall_of contains text_eq resolve_action x86_64_number build_filter
    initialize_filters push_dangerous
tables_pass = refl
