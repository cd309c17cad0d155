-- ===== src/Rootfs.antt =====
-- src/rootfs.rs: the root file system of the container.
mod Tests
use boxed.Prelude.{List, [], ◌∷◌, ◌++◌, Option, none, some}
use boxed.Text.{Text, codes}
use boxed.Types.{MsFlag, ms_private, ms_rec, ms_bind, ms_nosuid, ms_noexec, ms_nodev}
use boxed.Error.{
  failed_to_make_root_private, failed_to_mount_onto_itself, failed_to_mount_proc,
  failed_to_change_directory, failed_to_pivot_root, failed_to_detach_old_root,
  failed_to_change_to_new_root,
}
use boxed.Kernel.{
  Machine, Io, call, pure, within, ◌>>=◌, ◌>>◌, mount, chdir, pivot_root, umount_detach,
}
use boxed.Kernel.Script.{Step, Runs, script_rules}

unfoldable pub setup : Text → Io (Unit {0})
setup rootfs_path = do
  within failed_to_make_root_private
      (call (mount none (codes "/") none (ms_private ∷ ms_rec ∷ []) none))
  within (failed_to_mount_onto_itself rootfs_path)
      (call (mount (some rootfs_path) rootfs_path none (ms_bind ∷ ms_rec ∷ []) none))
  let proc_path = rootfs_path ++ codes "/proc"
  within (failed_to_mount_proc proc_path) (
      call (
        mount (some (codes "proc")) proc_path (some (codes "proc"))
          (ms_nosuid ∷ ms_noexec ∷ ms_nodev ∷ []) none))
  within (failed_to_change_directory rootfs_path) (call (chdir rootfs_path))
  within (failed_to_pivot_root rootfs_path) (call (pivot_root (codes ".") (codes ".")))
  within failed_to_detach_old_root (call (umount_detach (codes ".")))
  within failed_to_change_to_new_root (call (chdir (codes "/")))
  pure tt

-- The steps of the sequence of pivot_root(2), with / private first and /proc mounted before the pivot.
abbrev pub setup_steps : Text → List Step
setup_steps root =
    record {
      action = mount none (codes "/") none (ms_private ∷ ms_rec ∷ []) none;
      contexts = failed_to_make_root_private ∷ [];
    }
    ∷ record {
      action = mount (some root) root none (ms_bind ∷ ms_rec ∷ []) none;
      contexts = failed_to_mount_onto_itself root ∷ [];
    }
    ∷ record {
      action =
          mount (some (codes "proc")) (root ++ codes "/proc") (some (codes "proc"))
            (ms_nosuid ∷ ms_noexec ∷ ms_nodev ∷ []) none;
      contexts = failed_to_mount_proc (root ++ codes "/proc") ∷ [];
    }
    ∷ record { action = chdir root; contexts = failed_to_change_directory root ∷ [] }
    ∷ record {
      action = pivot_root (codes ".") (codes ".");
      contexts = failed_to_pivot_root root ∷ [];
    }
    ∷ record { action = umount_detach (codes "."); contexts = failed_to_detach_old_root ∷ [] }
    ∷ record { action = chdir (codes "/"); contexts = failed_to_change_to_new_root ∷ [] }
    ∷ []

-- The setup makes / private, binds the root onto itself, mounts /proc in it, enters it, pivots,
-- detaches the old root and enters the new one: these seven calls in this order, up to the first
-- that fails, whose error it returns under the message of that call.
pub setup-Runs : (m : Machine) (root : Text) → Runs m (setup root) (setup_steps root)
unfolding setup
setup-Runs m root = search script_rules depth 9
