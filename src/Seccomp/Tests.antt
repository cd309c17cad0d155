-- ===== src/Seccomp/Tests.antt =====
-- The fixtures of the tests of src/seccomp.rs, and the theorems at inputs.
use boxed.Prelude.{◌≡◌, refl, ◌≢◌, [], ◌∷◌, none, some, arith}
use boxed.Seccomp.Faults.{ProfileFault}
use boxed.Seccomp.Faults.Texts.{Says, resolve-Says}
use boxed.Asserts.{quoting}
use boxed.Text.{Text, codes, text_eq, contains}
use boxed.Error.{message, ok, is_ok, bail, collect_map, rule_with_args}
use boxed.Seccomp.Syscalls.{Syscall, syscall_of, name, sys_reboot, sys_mount, sys_bpf}
use boxed.Seccomp.Filter.{build_filter, audit_arch_x86_64, initialize_filters, push_dangerous}
use boxed.Seccomp.Profile.{
  SeccompProfile, ResolvedProfile, resolve, resolve_rule, resolve_name, resolve_action,
  syscall_number,
}
use boxed.Kernel.{install_seccomp}
use boxed.Kernel.Ensures.{Exactly}
use boxed.Seccomp.Install.{apply_default_filter}
use boxed.Seccomp.Length.{apply_default_filter-Exactly}
use boxed.Seccomp.Linux.{x86_64, x86_64_number, x86_64-IsLibc, x86_64_vm, eval, load}
use boxed.Seccomp.Names.{
  named_action, run-build_filter-name, run-build_filter-unnamed, run-build_filter-none-name,
}
use boxed.Seccomp.Supported.{supported, is_ok-resolve}
use boxed.Seccomp.Verdict.{run-build_filter_arch}

-- tests/fixtures/seccomp-profile-valid.json
abbrev valid_profile : SeccompProfile
valid_profile = record {
  default_action = codes "SCMP_ACT_ALLOW";
  architectures = codes "SCMP_ARCH_X86_64" ∷ [];
  syscalls =
      record {
        names = codes "mount" ∷ codes "reboot" ∷ [];
        action = codes "SCMP_ACT_KILL";
        args = [];
      }
      ∷ [];
}

-- tests/fixtures/seccomp-profile.json, whose last rule has arguments
abbrev args_profile : SeccompProfile
args_profile = record {
  default_action = codes "SCMP_ACT_ERRNO";
  architectures = codes "SCMP_ARCH_X86_64" ∷ [];
  syscalls =
      record {
        names = codes "execve" ∷ codes "read" ∷ [];
        action = codes "SCMP_ACT_ALLOW";
        args = [];
      }
      ∷ record {
        names = codes "personality" ∷ [];
        action = codes "SCMP_ACT_ALLOW";
        args = record { index = 0; value = 0; value_two = none; op = codes "SCMP_CMP_EQ" } ∷ [];
      }
      ∷ [];
}

abbrev resolved : ResolvedProfile
resolved = record {
  rules = record { numbers = 165 ∷ 169 ∷ []; action = 0 } ∷ [];
  default_action = 0x7fff0000;
}

valid_profile_resolves : resolve x86_64 valid_profile ≡ ok resolved
unfolding resolve resolve_rule resolve_name resolve_action syscall_number syscall_of contains
    text_eq collect_map x86_64_number
valid_profile_resolves = refl

args_profile_rejected :
    resolve x86_64 args_profile ≡ bail (rule_with_args (codes "personality" ∷ []))
unfolding resolve resolve_rule resolve_name resolve_action syscall_number syscall_of contains
    text_eq collect_map x86_64_number
args_profile_rejected = refl

-- `clone`, which no profile can name.
clone-ne-number : (s : Syscall) → 56 ≢ x86_64_number s
unfolding x86_64_number
clone-ne-number sys_reboot = omega arith
clone-ne-number _ = omega arith

default_filter_kills_ptrace :
    eval (record { nr = 101; arch = audit_arch_x86_64 }) 0 0 (build_filter x86_64 none)
    ≡ some 0x80000000
unfolding build_filter initialize_filters push_dangerous x86_64_number eval load
default_filter_kills_ptrace = refl

run-build_filter-name_example :
    x86_64_vm.run
      (record { nr = x86_64_number sys_mount; arch = audit_arch_x86_64 })
      0
      (build_filter x86_64 (some resolved))
    ≡ some 0
unfolding named_action contains text_eq resolve_action name
run-build_filter-name_example =
    run-build_filter-name x86_64 x86_64-IsLibc x86_64_vm 0 valid_profile valid_profile_resolves
      sys_mount

run-build_filter-unnamed_example :
    x86_64_vm.run
      (record { nr = 56; arch = audit_arch_x86_64 })
      0
      (build_filter x86_64 (some resolved))
    ≡ some 0x7fff0000
unfolding resolve_action text_eq
run-build_filter-unnamed_example =
    run-build_filter-unnamed x86_64 x86_64-IsLibc x86_64_vm 0 valid_profile valid_profile_resolves
      56 clone-ne-number

run-build_filter-none-name_example :
    x86_64_vm.run
      (record { nr = x86_64_number sys_bpf; arch = audit_arch_x86_64 })
      0
      (build_filter x86_64 none)
    ≡ some 0x80000000
unfolding contains text_eq name
run-build_filter-none-name_example =
    run-build_filter-none-name x86_64 x86_64-IsLibc x86_64_vm 0 sys_bpf

-- The 32-bit architecture.
run-build_filter_arch_example :
    x86_64_vm.run (record { nr = 11; arch = 0x40000003 }) 0 (build_filter x86_64 (some resolved))
    ≡ some 0x80000000
run-build_filter_arch_example =
    run-build_filter_arch x86_64 x86_64_vm (record { nr = 11; arch = 0x40000003 }) 0 (some resolved)
      (omega arith)

is_ok-resolve_example : is_ok (resolve x86_64 args_profile) ≡ supported args_profile
is_ok-resolve_example = is_ok-resolve x86_64 args_profile

apply_default_filter-Exactly_example :
    Exactly
      (install_seccomp 9 (build_filter x86_64 (some resolved)) ∷ [])
      (apply_default_filter x86_64 (some resolved))
apply_default_filter-Exactly_example =
    apply_default_filter-Exactly x86_64 (some resolved) (omega arith)

resolve-Says_example :
    (t : Text) × ProfileFault args_profile (message (rule_with_args (codes "personality" ∷ []))) t
    × Says quoting (message (rule_with_args (codes "personality" ∷ []))) t
resolve-Says_example = resolve-Says x86_64 quoting args_profile args_profile_rejected
