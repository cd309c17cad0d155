-- ===== src/Namespace/Run.antt =====
-- `run_in_namespace` of src/namespace.rs: the parent.
pub mod Setup
pub mod Leaves
pub mod Trace
pub mod Returns
pub mod Events
pub mod Protocol
pub mod Abort
pub mod Scratch
pub mod Exit
mod Tests
use boxed.Prelude.{
  ℕ, ◌≡◌, refl, Bool, true, false, List, [], ◌∷◌, ◌++◌, Option, none, some, if◌then◌else◌,
}
use mathlib.Core.Option
use boxed.Text.{Text}
use boxed.Error.{
  Result, ok, err, failed_to_create_pipe, clone_failed, failed_to_setup_forwarding,
  failed_to_signal_child,
}
use boxed.Kernel.{
  Machine, World, Io, call, lift, pure, ask, within, attempt, ◌>>=◌, ◌>>◌, pipe2, clone,
  write_sync_byte, drop_write_fd,
}
use boxed.Cgroups.Config.{CgroupConfig, is_some}
use boxed.Cgroups.Create.{Cgroup}
use boxed.Rootless.{RootlessConfig, setup_mappings}
use boxed.Seccomp.Profile.{ResolvedProfile}
use boxed.Process.{setup_signal_forwarding, wait_for_child}
use boxed.Namespace.{ChildContext, RuntimeConfig, runtime_config, setup_cgroup, drop_cgroup}

pub record RunOptions : Type 0 where
  pub command : List Text
  pub rootfs : Option Text
  pub image : Option Text
  pub hostname : Option Text
  pub limits : CgroupConfig
  pub seccomp_profile : Option ResolvedProfile

-- What the child is cloned with: it runs `ChildContext::enter` on it.
unfoldable pub child_context : RunOptions → ℕ → ChildContext
child_context opts run_id = record {
  command = opts.command;
  rootfs = opts.rootfs;
  image = opts.image;
  hostname = opts.hostname;
  seccomp_profile = opts.seccomp_profile;
  run_id = run_id;
}

-- `spawn_child`
unfoldable pub spawn_child : RuntimeConfig → Io ℕ
spawn_child runtime = within clone_failed (call (clone runtime.flags))

-- The `?` behind `spawn_child`: on an error the write end is dropped.
unfoldable pub keep_pipe : Result ℕ → Io ℕ
keep_pipe (ok child) = pure child
keep_pipe (err e) = attempt (call drop_write_fd) >> lift (err e)

-- From the pipe to the child.
unfoldable pub launch : RuntimeConfig → Io ℕ
launch runtime = do
  within failed_to_create_pipe (call pipe2)
  spawned ← attempt (spawn_child runtime)
  keep_pipe spawned

-- The closure `setup`, in two parts, since it leaves the cgroup in `_cgroup` also when it fails.
unfoldable pub setup_child : RuntimeConfig → ℕ → Io (Option Cgroup)
setup_child runtime child = do setup_mappings runtime.rootless child; setup_cgroup runtime child

unfoldable pub signal_child : ℕ → Io (Unit {0})
signal_child child = do
  within failed_to_setup_forwarding (setup_signal_forwarding child)
  within failed_to_signal_child (call write_sync_byte)
  pure tt

-- `_cgroup` and the value of `setup`.
abbrev pub Setup : Type 0
Setup = Option Cgroup × Result (Unit {0})

unfoldable pub after_setup_child : ℕ → Machine → Result (Option Cgroup) × World → Setup × World
after_setup_child child m (err e, w) = ((none, err e), w)
after_setup_child child m (ok cg, w) =
    ((cg, (signal_child child m w).0), (signal_child child m w).1)

unfoldable pub setup : RuntimeConfig → ℕ → Machine → World → Setup × World
setup runtime child m w = after_setup_child child m (setup_child runtime child m w)

-- The teardown of the overlay, if there is one; its error is only logged.
unfoldable pub overlay_teardown : Bool → Io (Unit {0})
overlay_teardown overlay_used =
    if overlay_used
    then (ask (λ m. m.pid) >>= λ run_id. attempt (boxed.Overlay.teardown run_id) >> pure tt)
    else pure tt

-- The end of `run_in_namespace`, from the value of `setup` and that of `wait_for_child`. The cgroup
-- is dropped when the function returns, which is last.
unfoldable pub conclude : Bool → Setup → Machine → Result ℕ × World → Result ℕ × World
conclude overlay_used (cg, err e) m (exit_code, w) = (err e, (drop_cgroup cg m w).1)
conclude overlay_used (cg, ok _) m (exit_code, w) =
    (exit_code, (drop_cgroup cg m (overlay_teardown overlay_used m w).1).1)

-- `drop(write_fd)` and what follows.
unfoldable pub supervise : ℕ → Bool → ℕ → Machine → Setup × World → Option (Result ℕ × World)
supervise fuel overlay_used child m (s, w) =
    Option.map (conclude overlay_used s m)
      (wait_for_child child fuel m (attempt (call drop_write_fd) m w).1)

unfoldable pub after_launch :
    ℕ → RuntimeConfig → Bool → Machine → Result ℕ × World → Option (Result ℕ × World)
after_launch fuel runtime overlay_used m (err e, w) = some (err e, w)
after_launch fuel runtime overlay_used m (ok child, w) =
    supervise fuel overlay_used child m (setup runtime child m w)

-- `run_in_namespace`, with at most `fuel` turns of the loop that waits.
unfoldable pub run_in_namespace :
    ℕ → RunOptions → RootlessConfig → Machine → World → Option (Result ℕ × World)
run_in_namespace fuel opts rootless m w =
    let runtime = runtime_config opts.limits rootless in
    after_launch fuel runtime (is_some opts.image) m (launch runtime m w)
