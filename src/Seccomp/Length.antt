-- ===== src/Seccomp/Length.antt =====
-- The length of the filter of src/seccomp.rs, and the 16 bits that carry it to the kernel.
use boxed.Prelude.{
  ℕ, ◌+◌, ◌*◌, ◌%◌, ◌^◌, ◌≤◌, ◌≡◌, List, [], ◌∷◌, Option, none, some, length, length-append, arith,
}
use boxed.Error.{failed_to_install_filter}
use boxed.Kernel.{call, install_seccomp}
use boxed.Kernel.Ensures.{Exactly, Ensures-within, Ensures-call}
use boxed.Seccomp.Libc.{Libc}
use boxed.Seccomp.Syscalls.{Syscall, dangerous_syscalls}
use boxed.Seccomp.Profile.{ResolveRule, ResolvedProfile}
use boxed.Seccomp.Filter.{
  SockFilter, initialize_filters, push_pair, push_numbers, push_rules, push_dangerous, build_filter,
}
use boxed.Seccomp.Install.{install_filter, apply_default_filter}

abbrev rule_entries : List ResolveRule → ℕ
rule_entries [] = 0
rule_entries (rule ∷ rules) = length rule.numbers + rule_entries rules

-- The system calls that the filter compares with, counted as often as they are listed.
abbrev pub entries : Option ResolvedProfile → ℕ
entries none = length dangerous_syscalls
entries (some profile) = rule_entries profile.rules

module _ (l : Libc) where
  length-push_numbers :
      (prog : List SockFilter) (action : ℕ) (numbers : List ℕ)
      → length (push_numbers l prog action numbers) ≡ length prog + 2 * length numbers
  unfolding push_numbers
  length-push_numbers prog action [] = omega arith
  length-push_numbers prog action (nr ∷ numbers) =
      omega
        (arith, length-push_numbers (push_pair l prog nr action) action numbers, length-append prog)

  length-push_rules :
      (prog : List SockFilter) (rules : List ResolveRule)
      → length (push_rules l prog rules) ≡ length prog + 2 * rule_entries rules
  unfolding push_rules
  length-push_rules prog [] = omega arith
  length-push_rules prog (rule ∷ rules) = omega (
    arith,
    length-push_rules (push_numbers l prog rule.action rule.numbers) rules,
    length-push_numbers prog rule.action rule.numbers,
  )

  length-push_dangerous :
      (prog : List SockFilter) (syscalls : List Syscall)
      → length (push_dangerous l prog syscalls) ≡ length prog + 2 * length syscalls
  unfolding push_dangerous
  length-push_dangerous prog [] = omega arith
  length-push_dangerous prog (s ∷ syscalls) = omega (
    arith,
    length-push_dangerous (push_pair l prog (l.number s) l.seccomp_ret_kill_process) syscalls,
    length-append prog,
  )

  length-build_filter :
      (profile : Option ResolvedProfile) → length (build_filter l profile) ≡ 2 * entries profile + 5
  unfolding build_filter initialize_filters
  length-build_filter none = omega (
    arith,
    length-append (push_dangerous l (initialize_filters l) dangerous_syscalls),
    length-push_dangerous (initialize_filters l) dangerous_syscalls,
  )
  length-build_filter (some profile) = omega (
    arith,
    length-append (push_rules l (initialize_filters l) profile.rules),
    length-push_rules (initialize_filters l) profile.rules,
  )

  -- A program has two instructions for each entry and five others, and up to 32765 entries the
  -- kernel is given its true length: the cut to 16 bits takes nothing away.
  pub apply_default_filter-Exactly :
      (profile : Option ResolvedProfile)
      → entries profile ≤ 32765
      → Exactly
          (install_seccomp (2 * entries profile + 5) (build_filter l profile) ∷ [])
          (apply_default_filter l profile)
  unfolding apply_default_filter install_filter
  apply_default_filter-Exactly profile fits =
      let prog = build_filter l profile in
      let whole : length prog % 2 ^ 16 ≡ 2 * entries profile + 5 =
        omega (arith, length-build_filter profile) in
      rw whole (
        Ensures-within failed_to_install_filter
          (call (install_seccomp (2 * entries profile + 5) prog))
          (Ensures-call (install_seccomp (2 * entries profile + 5) prog)))
