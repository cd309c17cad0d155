-- ===== src/Seccomp/Filter.antt =====
-- The BPF program that src/seccomp.rs builds.
use Prim.Native.Nat.{bit_or}
use boxed.Prelude.{ℕ, ◌%◌, ◌^◌, List, [], ◌∷◌, ◌++◌, Option, none, some}
use boxed.Seccomp.Libc.{Libc}
use boxed.Seccomp.Syscalls.{Syscall, dangerous_syscalls}
use boxed.Seccomp.Profile.{ResolveRule, ResolvedProfile}

pub record SockFilter : Type 0 where
  pub code : ℕ
  pub jt : ℕ
  pub jf : ℕ
  pub k : ℕ

abbrev pub audit_arch_x86_64 : ℕ
audit_arch_x86_64 = 0xC000003E

abbrev pub stmt : ℕ → ℕ → SockFilter
stmt code k = record { code = code; jt = 0; jf = 0; k = k }

abbrev pub jump : ℕ → ℕ → ℕ → ℕ → SockFilter
jump code jt jf k = record { code = code; jt = jt; jf = jf; k = k }

module _ (l : Libc) where
  -- `(BPF_LD | BPF_W | BPF_ABS) as u16`, and so on.
  abbrev pub load_word : ℕ
  load_word = bit_or (bit_or l.bpf_ld l.bpf_w) l.bpf_abs % 2 ^ 16

  abbrev pub jump_eq : ℕ
  jump_eq = bit_or (bit_or l.bpf_jmp l.bpf_jeq) l.bpf_k % 2 ^ 16

  abbrev pub return_k : ℕ
  return_k = bit_or l.bpf_ret l.bpf_k % 2 ^ 16

  unfoldable pub initialize_filters : List SockFilter
  initialize_filters =
      stmt load_word (l.offset_arch % 2 ^ 32)
      ∷ jump jump_eq 1 0 audit_arch_x86_64
      ∷ stmt return_k l.seccomp_ret_kill_process
      ∷ stmt load_word (l.offset_nr % 2 ^ 32)
      ∷ []

  -- The two instructions that a loop pushes for one call number.
  abbrev pub push_pair : List SockFilter → ℕ → ℕ → List SockFilter
  push_pair prog nr action = prog ++ jump jump_eq 0 1 (nr % 2 ^ 32) ∷ stmt return_k action ∷ []

  unfoldable pub push_numbers : List SockFilter → ℕ → List ℕ → List SockFilter
  push_numbers prog action [] = prog
  push_numbers prog action (nr ∷ numbers) = push_numbers (push_pair prog nr action) action numbers

  unfoldable pub push_rules : List SockFilter → List ResolveRule → List SockFilter
  push_rules prog [] = prog
  push_rules prog (rule ∷ rules) = push_rules (push_numbers prog rule.action rule.numbers) rules

  unfoldable pub push_dangerous : List SockFilter → List Syscall → List SockFilter
  push_dangerous prog [] = prog
  push_dangerous prog (s ∷ syscalls) =
      push_dangerous (push_pair prog (l.number s) l.seccomp_ret_kill_process) syscalls

  unfoldable pub build_filter : Option ResolvedProfile → List SockFilter
  build_filter (some profile) =
      push_rules initialize_filters profile.rules ++ stmt return_k profile.default_action ∷ []
  build_filter none =
      push_dangerous initialize_filters dangerous_syscalls ++ stmt return_k l.seccomp_ret_allow ∷ []
