-- ===== src/Seccomp/Syscalls.antt =====
-- The system calls that src/seccomp.rs names, the texts that name them in a profile, and the
-- calls that the default filter denies.
use boxed.Prelude.{
  Bool, true, ◌&&◌, ◌≡◌, refl, List, [], ◌∷◌, Option, none, some, arith, if◌then◌else◌,
}
use boxed.Text.{Text, codes, text_eq, text_eq_iff}

-- `libc::SYS_x` for each `x` of the file; the numbers are `Libc.number`.
pub data Syscall : Type 0 where
  sys_reboot sys_acct sys_swapon sys_swapoff sys_mount sys_umount2 sys_pivot_root : Syscall
  sys_open_by_handle_at sys_sysfs sys_init_module sys_finit_module sys_delete_module : Syscall
  sys_kexec_load sys_kexec_file_load sys_ptrace sys_process_vm_readv : Syscall
  sys_process_vm_writev sys_kcmp sys_iopl sys_ioperm sys_settimeofday : Syscall
  sys_clock_settime sys_clock_adjtime sys_adjtimex sys_add_key sys_request_key : Syscall
  sys_keyctl sys_bpf sys_perf_event_open sys_io_uring_setup sys_io_uring_enter : Syscall
  sys_io_uring_register sys_mbind sys_set_mempolicy sys_get_mempolicy sys_move_pages : Syscall
  sys_setns sys_quotactl sys_nfsservctl sys_lookup_dcookie sys_uselib sys_ustat : Syscall
  sys_userfaultfd sys_sysctl sys_personality sys_execve sys_read sys_write sys_close : Syscall
  sys_openat sys_fstat sys_brk sys_mmap sys_mprotect sys_munmap sys_access : Syscall
  sys_arch_prctl sys_set_tid_address sys_set_robust_list sys_rseq sys_getrandom : Syscall
  sys_exit_group sys_prlimit64 sys_pread64 : Syscall

-- The arms of the `match` of `syscall_number`, in order.
abbrev pub syscall_arms : List (Text × Syscall)
syscall_arms =
    (codes "reboot", sys_reboot)
    ∷ (codes "acct", sys_acct)
    ∷ (codes "swapon", sys_swapon)
    ∷ (codes "swapoff", sys_swapoff)
    ∷ (codes "mount", sys_mount)
    ∷ (codes "umount2", sys_umount2)
    ∷ (codes "pivot_root", sys_pivot_root)
    ∷ (codes "open_by_handle_at", sys_open_by_handle_at)
    ∷ (codes "sysfs", sys_sysfs)
    ∷ (codes "init_module", sys_init_module)
    ∷ (codes "finit_module", sys_finit_module)
    ∷ (codes "delete_module", sys_delete_module)
    ∷ (codes "kexec_load", sys_kexec_load)
    ∷ (codes "kexec_file_load", sys_kexec_file_load)
    ∷ (codes "ptrace", sys_ptrace)
    ∷ (codes "process_vm_readv", sys_process_vm_readv)
    ∷ (codes "process_vm_writev", sys_process_vm_writev)
    ∷ (codes "kcmp", sys_kcmp)
    ∷ (codes "iopl", sys_iopl)
    ∷ (codes "ioperm", sys_ioperm)
    ∷ (codes "settimeofday", sys_settimeofday)
    ∷ (codes "clock_settime", sys_clock_settime)
    ∷ (codes "clock_adjtime", sys_clock_adjtime)
    ∷ (codes "adjtimex", sys_adjtimex)
    ∷ (codes "add_key", sys_add_key)
    ∷ (codes "request_key", sys_request_key)
    ∷ (codes "keyctl", sys_keyctl)
    ∷ (codes "bpf", sys_bpf)
    ∷ (codes "perf_event_open", sys_perf_event_open)
    ∷ (codes "io_uring_setup", sys_io_uring_setup)
    ∷ (codes "io_uring_enter", sys_io_uring_enter)
    ∷ (codes "io_uring_register", sys_io_uring_register)
    ∷ (codes "mbind", sys_mbind)
    ∷ (codes "set_mempolicy", sys_set_mempolicy)
    ∷ (codes "get_mempolicy", sys_get_mempolicy)
    ∷ (codes "move_pages", sys_move_pages)
    ∷ (codes "setns", sys_setns)
    ∷ (codes "quotactl", sys_quotactl)
    ∷ (codes "nfsservctl", sys_nfsservctl)
    ∷ (codes "lookup_dcookie", sys_lookup_dcookie)
    ∷ (codes "uselib", sys_uselib)
    ∷ (codes "ustat", sys_ustat)
    ∷ (codes "userfaultfd", sys_userfaultfd)
    ∷ (codes "_sysctl", sys_sysctl)
    ∷ (codes "personality", sys_personality)
    ∷ (codes "execve", sys_execve)
    ∷ (codes "read", sys_read)
    ∷ (codes "write", sys_write)
    ∷ (codes "close", sys_close)
    ∷ (codes "openat", sys_openat)
    ∷ (codes "fstat", sys_fstat)
    ∷ (codes "brk", sys_brk)
    ∷ (codes "mmap", sys_mmap)
    ∷ (codes "mprotect", sys_mprotect)
    ∷ (codes "munmap", sys_munmap)
    ∷ (codes "access", sys_access)
    ∷ (codes "arch_prctl", sys_arch_prctl)
    ∷ (codes "set_tid_address", sys_set_tid_address)
    ∷ (codes "set_robust_list", sys_set_robust_list)
    ∷ (codes "rseq", sys_rseq)
    ∷ (codes "getrandom", sys_getrandom)
    ∷ (codes "exit_group", sys_exit_group)
    ∷ (codes "prlimit64", sys_prlimit64)
    ∷ (codes "pread64", sys_pread64)
    ∷ []

unfoldable pub find_arm : Text → List (Text × Syscall) → Option Syscall
find_arm name [] = none
find_arm name ((n, s) ∷ arms) = if text_eq name n then some s else find_arm name arms

-- The system call that a profile's name stands for.
unfoldable pub syscall_of : Text → Option Syscall
unfolding find_arm text_eq
syscall_of name = find_arm name syscall_arms

-- `DANGEROUS_SYSCALLS`
abbrev pub dangerous_syscalls : List Syscall
dangerous_syscalls =
    sys_reboot ∷ sys_acct ∷ sys_swapon ∷ sys_swapoff ∷ sys_mount ∷ sys_umount2 ∷ sys_pivot_root
    ∷ sys_open_by_handle_at ∷ sys_sysfs ∷ sys_init_module ∷ sys_finit_module ∷ sys_delete_module
    ∷ sys_kexec_load ∷ sys_kexec_file_load ∷ sys_ptrace ∷ sys_process_vm_readv
    ∷ sys_process_vm_writev ∷ sys_kcmp ∷ sys_iopl ∷ sys_ioperm ∷ sys_settimeofday
    ∷ sys_clock_settime ∷ sys_clock_adjtime ∷ sys_adjtimex ∷ sys_add_key ∷ sys_request_key
    ∷ sys_keyctl ∷ sys_bpf ∷ sys_perf_event_open ∷ sys_io_uring_setup ∷ sys_io_uring_enter
    ∷ sys_io_uring_register ∷ sys_mbind ∷ sys_set_mempolicy ∷ sys_get_mempolicy ∷ sys_move_pages
    ∷ sys_setns ∷ sys_quotactl ∷ sys_nfsservctl ∷ sys_lookup_dcookie ∷ sys_uselib ∷ sys_ustat
    ∷ sys_userfaultfd ∷ sys_sysctl ∷ sys_personality ∷ []

-- The kernel's name of a system call.
unfoldable pub name : Syscall → Text
name sys_reboot = codes "reboot"
name sys_acct = codes "acct"
name sys_swapon = codes "swapon"
name sys_swapoff = codes "swapoff"
name sys_mount = codes "mount"
name sys_umount2 = codes "umount2"
name sys_pivot_root = codes "pivot_root"
name sys_open_by_handle_at = codes "open_by_handle_at"
name sys_sysfs = codes "sysfs"
name sys_init_module = codes "init_module"
name sys_finit_module = codes "finit_module"
name sys_delete_module = codes "delete_module"
name sys_kexec_load = codes "kexec_load"
name sys_kexec_file_load = codes "kexec_file_load"
name sys_ptrace = codes "ptrace"
name sys_process_vm_readv = codes "process_vm_readv"
name sys_process_vm_writev = codes "process_vm_writev"
name sys_kcmp = codes "kcmp"
name sys_iopl = codes "iopl"
name sys_ioperm = codes "ioperm"
name sys_settimeofday = codes "settimeofday"
name sys_clock_settime = codes "clock_settime"
name sys_clock_adjtime = codes "clock_adjtime"
name sys_adjtimex = codes "adjtimex"
name sys_add_key = codes "add_key"
name sys_request_key = codes "request_key"
name sys_keyctl = codes "keyctl"
name sys_bpf = codes "bpf"
name sys_perf_event_open = codes "perf_event_open"
name sys_io_uring_setup = codes "io_uring_setup"
name sys_io_uring_enter = codes "io_uring_enter"
name sys_io_uring_register = codes "io_uring_register"
name sys_mbind = codes "mbind"
name sys_set_mempolicy = codes "set_mempolicy"
name sys_get_mempolicy = codes "get_mempolicy"
name sys_move_pages = codes "move_pages"
name sys_setns = codes "setns"
name sys_quotactl = codes "quotactl"
name sys_nfsservctl = codes "nfsservctl"
name sys_lookup_dcookie = codes "lookup_dcookie"
name sys_uselib = codes "uselib"
name sys_ustat = codes "ustat"
name sys_userfaultfd = codes "userfaultfd"
name sys_sysctl = codes "_sysctl"
name sys_personality = codes "personality"
name sys_execve = codes "execve"
name sys_read = codes "read"
name sys_write = codes "write"
name sys_close = codes "close"
name sys_openat = codes "openat"
name sys_fstat = codes "fstat"
name sys_brk = codes "brk"
name sys_mmap = codes "mmap"
name sys_mprotect = codes "mprotect"
name sys_munmap = codes "munmap"
name sys_access = codes "access"
name sys_arch_prctl = codes "arch_prctl"
name sys_set_tid_address = codes "set_tid_address"
name sys_set_robust_list = codes "set_robust_list"
name sys_rseq = codes "rseq"
name sys_getrandom = codes "getrandom"
name sys_exit_group = codes "exit_group"
name sys_prlimit64 = codes "prlimit64"
name sys_pread64 = codes "pread64"

-- Every arm matches the kernel's name of its call.
arms_match : List (Text × Syscall) → Bool
arms_match [] = true
arms_match ((n, s) ∷ arms) = text_eq n (name s) && arms_match arms

syscall_arms_match : arms_match syscall_arms ≡ true
unfolding arms_match text_eq name
syscall_arms_match = refl

find_arm_sound :
    (n : Text) (arms : List (Text × Syscall)) (s : Syscall)
    → arms_match arms ≡ true
    → find_arm n arms ≡ some s
    → n ≡ name s
unfolding find_arm arms_match
find_arm_sound n [] s h e = cc
find_arm_sound n ((m, t) ∷ arms) s h e =
    ground (arith, text_eq_iff n m, text_eq_iff m (name t), find_arm_sound n arms s)

-- A text that resolves to a call is the kernel's name of that call.
pub syscall_of_sound : (n : Text) (s : Syscall) → syscall_of n ≡ some s → n ≡ name s
unfolding syscall_of
syscall_of_sound n s e = find_arm_sound n syscall_arms s syscall_arms_match e

-- The kernel's name of each of the calls resolves to the call.
pub syscall_of-name : (s : Syscall) → syscall_of (name s) ≡ some s
unfolding syscall_of name
syscall_of-name sys_reboot = refl
syscall_of-name _ = refl
