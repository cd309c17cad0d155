-- ===== src/Kernel/Sample.antt =====
-- A machine that grants every call, for the tests.
use boxed.Prelude.{ℕ, true, [], Option, none, some}
use boxed.Error.{Result, ok}
use boxed.Text.{codes}
use boxed.Types.{exited, parent, child}
use boxed.Kernel.{
  Call, Reply, Machine, World, done, read_to_string, write_file, create_dir_all, remove_dir,
  remove_dir_all, set_permissions, read_dir, stat, open_write, write_all, mount, umount_detach,
  chdir, pivot_root, sethostname, drop_cap, set_no_new_privs, install_seccomp, sig_block,
  sig_unblock, install_forwarding, kill, fork, execvp, waitpid, pipe2, write_sync_byte,
  drop_write_fd, drop_write_copy, read_sync_fd, clone,
}

abbrev grant : (c : Call) → Reply c
grant (read_to_string p) = codes "cpuset cpu io memory pids\n"
grant (write_file p v) = tt
grant (create_dir_all p) = tt
grant (remove_dir p) = tt
grant (remove_dir_all p) = tt
grant (set_permissions p n) = tt
grant (read_dir p) = []
grant (stat p) = record { is_block = true; major = 8; minor = 0 }
grant (open_write p) = tt
grant (write_all p v) = tt
grant (mount s t f fs d) = tt
grant (umount_detach p) = tt
grant (chdir p) = tt
grant (pivot_root p q) = tt
grant (sethostname h) = tt
grant (drop_cap s c) = tt
grant set_no_new_privs = tt
grant (install_seccomp n f) = tt
grant (sig_block s) = tt
grant (sig_unblock s) = tt
grant (install_forwarding s) = tt
grant (kill p s) = tt
grant fork = parent 42
grant (execvp a) = tt
grant (waitpid p) = exited 42 0
grant (clone fs) = 41
grant pipe2 = tt
grant write_sync_byte = tt
grant drop_write_fd = tt
grant drop_write_copy = tt
grant read_sync_fd = 1

abbrev pub granting : Machine
granting = record {
  answer = λ cs c. done (grant c);
  uid = 1000;
  gid = 1000;
  pid = 7;
  temp_dir = codes "/tmp";
  home = some (codes "/home/me");
}

-- The same, seen from the child of a fork.
abbrev grant_in_child : (c : Call) → Reply c → Reply c
grant_in_child fork r = child
grant_in_child c r = r

abbrev pub forking : Machine
forking = record granting { answer = λ cs c. done (grant_in_child c (grant c)) }

abbrev pub fresh : World
fresh = record { calls = []; child_pid = 0 }

-- What a run returns, or a default if it takes too many turns.
abbrev pub returned_pair : Option (Result ℕ × World) → Result ℕ × World
returned_pair none = (ok 0, fresh)
returned_pair (some p) = p
