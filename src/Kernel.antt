-- ===== src/Kernel.antt =====
-- The operating system as the program sees it: each function of std::fs, nix, libc and caps that
-- the program calls is a `Call`, and a machine answers every call from the calls before it. The
-- machine is a parameter of every theorem, so a theorem holds for every environment. The program's
-- own state is the calls made so far and the static `CHILD_PID` of src/process.rs.
pub mod Script
pub mod Makes
pub mod Fails
pub mod Ensures
pub mod Heeds
pub mod Sample
use boxed.Prelude.{ℕ, List, [], ◌∷◌, ◌++◌, Option, none, some}
use boxed.Text.{Text}
use boxed.Types.{
  MsFlag, Capability, CapSet, Signal, CloneFlag, DirEntry, FileStat, WaitStatus, ForkResult,
}
use boxed.Error.{Message, os, Result, ok, err, with_context}
use boxed.Seccomp.Filter.{SockFilter}

pub data Call : Type 0 where
  read_to_string : Text → Call
  write_file : Text → Text → Call
  create_dir_all : Text → Call
  remove_dir : Text → Call
  remove_dir_all : Text → Call
  set_permissions : Text → ℕ → Call
  read_dir : Text → Call
  stat : Text → Call
  -- `OpenOptions::new().write(true).open(path)`, and `write_all` on the file that it opened.
  open_write : Text → Call
  write_all : Text → Text → Call
  mount : Option Text → Text → Option Text → List MsFlag → Option Text → Call
  -- `umount2(target, MNT_DETACH)`
  umount_detach : Text → Call
  chdir : Text → Call
  pivot_root : Text → Text → Call
  sethostname : Text → Call
  drop_cap : CapSet → Capability → Call
  set_no_new_privs : Call
  -- `prctl(PR_SET_SECCOMP, SECCOMP_MODE_FILTER, { len, filter })`
  install_seccomp : ℕ → List SockFilter → Call
  sig_block : List Signal → Call
  sig_unblock : List Signal → Call
  -- `signal(sig, Handler(forward_signal))`
  install_forwarding : Signal → Call
  kill : ℕ → Signal → Call
  fork : Call
  execvp : List Text → Call
  -- `waitpid` of a child, or of any child.
  waitpid : Option ℕ → Call
  -- The sync pipe: its creation, the write of the byte, and the drop of the parent's write end. The
  -- read end is dropped with the closure that `clone` takes.
  pipe2 : Call
  write_sync_byte : Call
  drop_write_fd : Call
  -- The sync pipe: the drop of the child's copy of the write end, and the read of one byte.
  drop_write_copy : Call
  read_sync_fd : Call
  clone : List CloneFlag → Call

abbrev pub Reply : Call → Type 0
Reply (read_to_string p) = Text
Reply (read_dir p) = List DirEntry
Reply (stat p) = FileStat
Reply fork = ForkResult
Reply (waitpid p) = WaitStatus
Reply (clone fs) = ℕ
Reply read_sync_fd = ℕ
Reply _ = Unit

-- An answer, or an `errno`.
pub data Outcome (A : Type 0) : Type 0 where
  done : A → Outcome A
  failed : ℕ → Outcome A

pub record Machine : Type 0 where
  pub answer : List Call → (c : Call) → Outcome (Reply c)
  -- `getuid`, `getgid`, `std::process::id` and `std::env::temp_dir`, which do not fail
  pub uid : ℕ
  pub gid : ℕ
  pub pid : ℕ
  pub temp_dir : Text
  -- `env::var("HOME")`, which fails if it is not set or is not UTF-8
  pub home : Option Text

pub record World : Type 0 where
  pub calls : List Call
  pub child_pid : ℕ

-- A function that may call the system and may fail.
abbrev pub Io : Type 0 → Type 0
Io A = Machine → World → Result A × World

abbrev pub to_result : {A : Type 0} → Outcome A → Result A
to_result (done a) = ok a
to_result (failed e) = err (os e)

unfoldable pub call : (c : Call) → Io (Reply c)
call c m w = (to_result (m.answer w.calls c), record w { calls = w.calls ++ c ∷ [] })

abbrev pub lift : {A : Type 0} → Result A → Io A
lift r m w = (r, w)

abbrev pub pure : {A : Type 0} → A → Io A
pure a = lift (ok a)

-- A value that the machine gives with no failure.
abbrev pub ask : {A : Type 0} → (Machine → A) → Io A
ask f m w = (ok (f m), w)

abbrev pub proceed : {A B : Type 0} → Result A → (A → Io B) → Io B
proceed (ok a) f m w = f a m w
proceed (err e) f m w = (err e, w)

infixl 10 ◌>>=◌ ◌>>◌
abbrev pub ◌>>=◌ : {A B : Type 0} → Io A → (A → Io B) → Io B
◌>>=◌ io f m w = proceed (io m w).0 f m (io m w).1

abbrev pub ◌>>◌ : {A B : Type 0} → Io A → Io B → Io B
io >> next = io >>= λ _. next

-- `.context(msg)`
abbrev pub within : {A : Type 0} → Message → Io A → Io A
within msg io m w = (with_context msg (io m w).0, (io m w).1)

-- The result of a call as a value, for a `match` on it.
abbrev pub attempt : {A : Type 0} → Io A → Io (Result A)
attempt io m w = (ok (io m w).0, (io m w).1)

-- `if let Some(a) = option { f(a) }`
abbrev pub for_some : {A : Type 0} → Option A → (A → Io (Unit {0})) → Io (Unit {0})
for_some none f = pure tt
for_some (some a) f = f a
