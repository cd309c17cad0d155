-- ===== src/Seccomp/Libc.antt =====
-- The constants of the crate `libc` that src/seccomp.rs uses. They are a parameter of the model.
use boxed.Prelude.{ℕ, ◌^◌, ◌<◌, ◌≡◌}
use boxed.Seccomp.Syscalls.{Syscall}

pub record Libc : Type 0 where
  -- `SYS_x`
  pub number : Syscall → ℕ
  pub bpf_ld : ℕ
  pub bpf_w : ℕ
  pub bpf_abs : ℕ
  pub bpf_jmp : ℕ
  pub bpf_jeq : ℕ
  pub bpf_k : ℕ
  pub bpf_ret : ℕ
  pub seccomp_ret_allow : ℕ
  pub seccomp_ret_errno : ℕ
  pub seccomp_ret_kill : ℕ
  pub seccomp_ret_kill_process : ℕ
  -- `offset_of!(seccomp_data, arch)` and `offset_of!(seccomp_data, nr)`
  pub offset_arch : ℕ
  pub offset_nr : ℕ

-- Linux numbers its calls without repetition, in 32 bits.
pub record IsLibc (l : Libc) : Type 0 where
  pub number_fits : (s : Syscall) → l.number s < 2 ^ 32
  pub number_injective : (s t : Syscall) → l.number s ≡ l.number t → s ≡ t
