-- ===== src/Types.antt =====
-- The types of the crates nix, libc and caps that the program names.
use boxed.Prelude.{ℕ, Bool}
use boxed.Text.{Text}

-- `nix::mount::MsFlags`, as the list of the flags that are joined.
pub data MsFlag : Type 0 where
  ms_private ms_rec ms_bind ms_nosuid ms_noexec ms_nodev : MsFlag

-- `caps::Capability`: those that src/capabilities.rs names, and the others.
pub data Capability : Type 0 where
  cap_chown cap_dac_override cap_fsetid cap_fowner cap_mknod cap_net_raw : Capability
  cap_setgid cap_setuid cap_setfcap cap_net_bind_service cap_sys_chroot : Capability
  cap_setpcap cap_audit_write : Capability
  other : ℕ → Capability

pub data CapSet : Type 0 where
  bounding effective permitted inheritable : CapSet

-- `nix::sys::signal::Signal`: those that the program names, and the others.
pub data Signal : Type 0 where
  sigint sigterm sighup : Signal
  other : ℕ → Signal

-- `nix::sched::CloneFlags`
pub data CloneFlag : Type 0 where
  clone_newpid clone_newuts clone_newns clone_newnet clone_newuser : CloneFlag

-- What `fs::read_dir` lists: an entry's file name and whether its type is a directory, or the error
-- of the entry or of its type.
pub data DirEntry : Type 0 where
  entry : Text → Bool → DirEntry
  unreadable : ℕ → DirEntry

-- What `stat` tells of a path: whether the `S_IFMT` bits of its mode are `S_IFBLK`, and the numbers
-- `major` and `minor` of the device that it refers to.
pub record FileStat : Type 0 where
  pub is_block : Bool
  pub major : ℕ
  pub minor : ℕ

pub data WaitStatus : Type 0 where
  exited : ℕ → ℕ → WaitStatus
  signaled : ℕ → Signal → WaitStatus
  stopped : ℕ → Signal → WaitStatus
  ptrace_event : ℕ → Signal → ℕ → WaitStatus
  ptrace_syscall : ℕ → WaitStatus
  continued : ℕ → WaitStatus
  still_alive : WaitStatus

pub data ForkResult : Type 0 where
  child : ForkResult
  parent : ℕ → ForkResult
