-- ===== src/Seccomp/Linux.antt =====
-- Linux on x86_64: the constants of the crate `libc` and an evaluator of seccomp programs, which
-- show that the parameters of src/seccomp.rs can be met.
use Prim.Native.Nat.{ℕ, zero, suc, ◌<◌, ◌^◌}
use boxed.Prelude.{
  map, ◌≡◌, refl, ◌==◌, List, [], ◌∷◌, Option, none, some, arith, if◌then◌else◌, drop,
}
use boxed.Seccomp.Syscalls.{
  syscall_arms, Syscall, sys_reboot, sys_acct, sys_swapon, sys_swapoff, sys_mount, sys_umount2,
  sys_pivot_root, sys_open_by_handle_at, sys_sysfs, sys_init_module, sys_finit_module,
  sys_delete_module, sys_kexec_load, sys_kexec_file_load, sys_ptrace, sys_process_vm_readv,
  sys_process_vm_writev, sys_kcmp, sys_iopl, sys_ioperm, sys_settimeofday, sys_clock_settime,
  sys_clock_adjtime, sys_adjtimex, sys_add_key, sys_request_key, sys_keyctl, sys_bpf,
  sys_perf_event_open, sys_io_uring_setup, sys_io_uring_enter, sys_io_uring_register, sys_mbind,
  sys_set_mempolicy, sys_get_mempolicy, sys_move_pages, sys_setns, sys_quotactl, sys_nfsservctl,
  sys_lookup_dcookie, sys_uselib, sys_ustat, sys_userfaultfd, sys_sysctl, sys_personality,
  sys_execve, sys_read, sys_write, sys_close, sys_openat, sys_fstat, sys_brk, sys_mmap,
  sys_mprotect, sys_munmap, sys_access, sys_arch_prctl, sys_set_tid_address, sys_set_robust_list,
  sys_rseq, sys_getrandom, sys_exit_group, sys_prlimit64, sys_pread64,
}
use boxed.Seccomp.Libc.{Libc, IsLibc}
use boxed.Seccomp.Filter.{SockFilter}
use boxed.Seccomp.Vm.{SeccompData, Vm}

unfoldable pub x86_64_number : Syscall → ℕ
x86_64_number sys_reboot = 169
x86_64_number sys_acct = 163
x86_64_number sys_swapon = 167
x86_64_number sys_swapoff = 168
x86_64_number sys_mount = 165
x86_64_number sys_umount2 = 166
x86_64_number sys_pivot_root = 155
x86_64_number sys_open_by_handle_at = 304
x86_64_number sys_sysfs = 139
x86_64_number sys_init_module = 175
x86_64_number sys_finit_module = 313
x86_64_number sys_delete_module = 176
x86_64_number sys_kexec_load = 246
x86_64_number sys_kexec_file_load = 320
x86_64_number sys_ptrace = 101
x86_64_number sys_process_vm_readv = 310
x86_64_number sys_process_vm_writev = 311
x86_64_number sys_kcmp = 312
x86_64_number sys_iopl = 172
x86_64_number sys_ioperm = 173
x86_64_number sys_settimeofday = 164
x86_64_number sys_clock_settime = 227
x86_64_number sys_clock_adjtime = 305
x86_64_number sys_adjtimex = 159
x86_64_number sys_add_key = 248
x86_64_number sys_request_key = 249
x86_64_number sys_keyctl = 250
x86_64_number sys_bpf = 321
x86_64_number sys_perf_event_open = 298
x86_64_number sys_io_uring_setup = 425
x86_64_number sys_io_uring_enter = 426
x86_64_number sys_io_uring_register = 427
x86_64_number sys_mbind = 237
x86_64_number sys_set_mempolicy = 238
x86_64_number sys_get_mempolicy = 239
x86_64_number sys_move_pages = 279
x86_64_number sys_setns = 308
x86_64_number sys_quotactl = 179
x86_64_number sys_nfsservctl = 180
x86_64_number sys_lookup_dcookie = 212
x86_64_number sys_uselib = 134
x86_64_number sys_ustat = 136
x86_64_number sys_userfaultfd = 323
x86_64_number sys_sysctl = 156
x86_64_number sys_personality = 135
x86_64_number sys_execve = 59
x86_64_number sys_read = 0
x86_64_number sys_write = 1
x86_64_number sys_close = 3
x86_64_number sys_openat = 257
x86_64_number sys_fstat = 5
x86_64_number sys_brk = 12
x86_64_number sys_mmap = 9
x86_64_number sys_mprotect = 10
x86_64_number sys_munmap = 11
x86_64_number sys_access = 21
x86_64_number sys_arch_prctl = 158
x86_64_number sys_set_tid_address = 218
x86_64_number sys_set_robust_list = 273
x86_64_number sys_rseq = 334
x86_64_number sys_getrandom = 318
x86_64_number sys_exit_group = 231
x86_64_number sys_prlimit64 = 302
x86_64_number sys_pread64 = 17

abbrev pub x86_64 : Libc
x86_64 = record {
  number = x86_64_number;
  bpf_ld = 0x00;
  bpf_w = 0x00;
  bpf_abs = 0x20;
  bpf_jmp = 0x05;
  bpf_jeq = 0x10;
  bpf_k = 0x00;
  bpf_ret = 0x06;
  seccomp_ret_allow = 0x7fff0000;
  seccomp_ret_errno = 0x00050000;
  seccomp_ret_kill = 0x00000000;
  seccomp_ret_kill_process = 0x80000000;
  offset_arch = 4;
  offset_nr = 0;
}

find_number : ℕ → List (ℕ × Syscall) → Option Syscall
find_number n [] = none
find_number n ((m, s) ∷ rows) = if n == m then some s else find_number n rows

x86_64_rows : List (ℕ × Syscall)
x86_64_rows = map (λ arm. (x86_64_number arm.1, arm.1)) syscall_arms

find_number-x86_64_number : (s : Syscall) → find_number (x86_64_number s) x86_64_rows ≡ some s
unfolding find_number x86_64_number x86_64_rows
find_number-x86_64_number sys_reboot = refl
find_number-x86_64_number _ = refl

x86_64_number_fits : (s : Syscall) → x86_64_number s < 2 ^ 32
unfolding x86_64_number
x86_64_number_fits sys_reboot = omega arith
x86_64_number_fits _ = omega arith

pub x86_64-IsLibc : IsLibc x86_64
x86_64-IsLibc = record {
  number_fits = x86_64_number_fits;
  number_injective = λ s t e. cc (find_number-x86_64_number s, find_number-x86_64_number t);
}

-- The accumulator after a load of the word at an offset.
unfoldable pub load : SeccompData → ℕ → Option ℕ
load d offset = if offset == 0 then some d.nr else if offset == 4 then some d.arch else none

-- The instructions left run by structural recursion on their list: `skip` counts those that the
-- last jump passes over.
unfoldable pub eval : SeccompData → ℕ → ℕ → List SockFilter → Option ℕ
eval d a skip [] = none
eval d a (suc skip) (i ∷ p) = eval d a skip p
eval d a zero (i ∷ p) =
    let next = λ (b : ℕ). eval d b 0 p in
    let jumped = eval d a (if a == i.k then i.jt else i.jf) p in
    if i.code == 0x20
    then elim (load d i.k) [ none ↦ none | some b ↦ next b ]
    else if i.code == 0x15
    then jumped
    else if i.code == 0x06
    then some i.k
    else none

pub eval-drop :
    (d : SeccompData) (a n : ℕ) (p : List SockFilter) → eval d a n p ≡ eval d a 0 (drop n p)
unfolding eval
eval-drop d a zero p = refl
eval-drop d a (suc n) [] = refl
eval-drop d a (suc n) (i ∷ p) = eval-drop d a n p

abbrev pub x86_64_vm : Vm x86_64
unfolding eval load
x86_64_vm = record {
  run = λ d a p. eval d a 0 p;
  run-load_arch = λ d a p. refl;
  run-load_nr = λ d a p. refl;
  run-jump_eq = λ d a jt jf k p. eval-drop d a (if a == k then jt else jf) p;
  run-return_k = λ d a k p. refl;
}
