-- ===== src/Namespace.antt =====
-- src/namespace.rs: the run of a container.
pub mod Sync
pub mod Enter
pub mod Command
pub mod Joins
pub mod Shim
pub mod Watch
pub mod Run
mod Tests
mod Unit
use boxed.Prelude.{
  ℕ, ◌≡◌, refl, Bool, true, false, List, [], ◌∷◌, ◌++◌, map, Option, none, some, if◌then◌else◌,
  length, ◌==◌, ◌||◌,
}
use boxed.Text.{Text, codes}
use boxed.Types.{
  Capability, CloneFlag, clone_newpid, clone_newuts, clone_newns, clone_newnet, clone_newuser,
  ForkResult, child, parent,
}
use boxed.Error.{
  Error, Result, ok, err, bail, context, with_context, collect_map, nul_byte,
  failed_to_setup_overlay, failed_to_setup_rootfs_on_overlay, failed_to_setup_rootfs,
  received_closed_pipe, unreachable_image_and_rootfs, failed_to_fork, failed_to_read_sync_signal,
  failed_to_set_hostname, failed_to_drop_capabilities, failed_to_set_no_new_privs,
  failed_to_apply_filter, command_has_null_byte,
}
use boxed.Kernel.{
  Io, call, lift, pure, within, attempt, ◌>>=◌, ◌>>◌, sethostname, set_no_new_privs,
  install_seccomp, drop_write_copy, read_sync_fd, Machine, World, Outcome, done, failed, fork,
  execvp,
}
use boxed.Cgroups.Config.{CgroupConfig, is_noop}
use boxed.Cgroups.Create.{Cgroup, create, add_process, destroy}
use boxed.Rootless.{RootlessConfig}
use boxed.Capabilities.{drop_capabilities}
use boxed.Seccomp.Libc.{Libc}
use boxed.Seccomp.Profile.{ResolvedProfile}
use boxed.Seccomp.Install.{apply_default_filter}
use boxed.Process.{
  block_forwarded_signals, unblock_forwarded_signals, setup_signal_forwarding, reap_until_exit,
}

-- The fields of `ChildContext` but the two ends of the pipe.
pub record ChildContext : Type 0 where
  pub command : List Text
  pub rootfs : Option Text
  pub image : Option Text
  pub hostname : Option Text
  pub seccomp_profile : Option ResolvedProfile
  pub run_id : ℕ

pub record RuntimeConfig : Type 0 where
  pub limits : CgroupConfig
  pub flags : List CloneFlag
  pub rootless : RootlessConfig

unfoldable pub build_clone_flags : Bool → List CloneFlag
build_clone_flags is_rootless =
    let default_flags = clone_newpid ∷ clone_newuts ∷ clone_newns ∷ clone_newnet ∷ [] in
    if is_rootless then default_flags ++ clone_newuser ∷ [] else default_flags

-- `RuntimeConfig::new`
unfoldable pub runtime_config : CgroupConfig → RootlessConfig → RuntimeConfig
runtime_config limits rootless = record {
  limits = limits;
  flags = build_clone_flags rootless.enabled;
  rootless = rootless;
}

-- `Drop for Cgroup`, which ignores the error of `destroy`.
unfoldable pub drop_cgroup : Option Cgroup → Io (Unit {0})
drop_cgroup none = pure tt
drop_cgroup (some cg) = attempt (destroy cg) >> pure tt

-- The `?` behind `add_process`: on an error the cgroup is dropped.
unfoldable pub keep_cgroup : Cgroup → Result (Unit {0}) → Io (Option Cgroup)
keep_cgroup cg (ok _) = pure (some cg)
keep_cgroup cg (err e) = drop_cgroup (some cg) >> lift (err e)

unfoldable pub setup_cgroup : RuntimeConfig → ℕ → Io (Option Cgroup)
setup_cgroup runtime pid = if is_noop runtime.limits then pure none else (do
  cg ← create pid runtime.limits
  added ← attempt (add_process cg pid)
  keep_cgroup cg added)

-- The match of `config_fs`. The last branch is a panic: clap takes only one of the options.
unfoldable pub mount_root : Option Text → Option Text → ℕ → Io (Unit {0})
mount_root (some image) none run_id = do
  merged_path ← within (failed_to_setup_overlay image) (boxed.Overlay.setup image run_id)
  within (failed_to_setup_rootfs_on_overlay merged_path) (boxed.Rootfs.setup merged_path)
mount_root none (some rootfs) run_id =
    within (failed_to_setup_rootfs rootfs) (boxed.Rootfs.setup rootfs)
mount_root none none run_id = pure tt
mount_root (some image) (some rootfs) run_id = lift (bail unreachable_image_and_rootfs)

abbrev pub config_fs : ChildContext → Io (Unit {0})
config_fs ctx = mount_root ctx.image ctx.rootfs ctx.run_id

-- `hostname.as_deref().unwrap_or("boxed")`
abbrev pub hostname_or_boxed : Option Text → Text
hostname_or_boxed none = codes "boxed"
hostname_or_boxed (some hostname) = hostname

-- `CString::new`
unfoldable pub has_null : Text → Bool
has_null [] = false
has_null (c ∷ s) = c == 0 || has_null s

unfoldable pub c_string : Text → Result Text
unfolding has_null
c_string s = if has_null s then err nul_byte else ok s

-- The read of the byte of the parent.
unfoldable pub await_parent : Io (Unit {0})
await_parent = do
  n ← within failed_to_read_sync_signal (call read_sync_fd)
  if n == 0 then lift (bail received_closed_pipe) else pure tt

-- `enter` up to the fork. `caps::all` is the list `all`.
unfoldable pub prepare : Libc → List Capability → ChildContext → Io (List Text)
prepare l all ctx = do
  attempt (call drop_write_copy)
  await_parent
  within failed_to_set_hostname (call (sethostname (hostname_or_boxed ctx.hostname)))
  config_fs ctx
  within failed_to_drop_capabilities (drop_capabilities all)
  within failed_to_set_no_new_privs (call set_no_new_privs)
  within failed_to_apply_filter (apply_default_filter l ctx.seccomp_profile)
  args ← lift (with_context command_has_null_byte (collect_map c_string ctx.command))
  block_forwarded_signals
  pure args

-- How the forked child ends: it becomes the command, or exits.
pub data Executed : Type 0 where
  becomes : List Text → Executed
  exits : ℕ → Executed

unfoldable pub after_exec : List Text → Result (Unit {0}) × World → Executed × World
after_exec args (ok _, w) = (becomes args, w)
after_exec args (err _, w) = (exits 127, w)

unfoldable pub after_unblock : List Text → Machine → Result (Unit {0}) × World → Executed × World
after_unblock args m (err _, w) = (exits 127, w)
after_unblock args m (ok _, w) = after_exec args (call (execvp args) m w)

unfoldable pub exec_command : List Text → Machine → World → Executed × World
exec_command args m w = after_unblock args m (unblock_forwarded_signals m w)

-- How `enter` ends: in the process that clone made, or in the one that it forked.
pub data Entered : Type 0 where
  shim : Option (Result ℕ × World) → Entered
  command : Executed × World → Entered

-- The loop that reaps, behind the start of the forwarding.
unfoldable pub after_forwarding :
    ℕ → ℕ → Machine → Result (Unit {0}) × World → Option (Result ℕ × World)
after_forwarding fuel child_pid m (err e, w) = some (err e, w)
after_forwarding fuel child_pid m (ok _, w) = reap_until_exit child_pid fuel m w

unfoldable pub watch : ℕ → ℕ → Machine → World → Option (Result ℕ × World)
watch fuel child_pid m w =
    after_forwarding fuel child_pid m
      ((setup_signal_forwarding child_pid >> unblock_forwarded_signals) m w)

unfoldable pub after_fork : ℕ → List Text → Machine → Result ForkResult × World → Entered
after_fork fuel args m (err e, w) = shim (some (err e, w))
after_fork fuel args m (ok child, w) = command (exec_command args m w)
after_fork fuel args m (ok (parent pid), w) = shim (watch fuel pid m w)

unfoldable pub after_prepare : ℕ → Machine → Result (List Text) × World → Entered
after_prepare fuel m (err e, w) = shim (some (err e, w))
after_prepare fuel m (ok args, w) = after_fork fuel args m (within failed_to_fork (call fork) m w)

-- `enter`, with at most `fuel` turns of the loop that reaps.
unfoldable pub enter : Libc → List Capability → ℕ → ChildContext → Machine → World → Entered
enter l all fuel ctx m w = after_prepare fuel m (prepare l all ctx m w)

-- The closure `child_fn` of `spawn_child`, on what `enter` returns: what the child exits with.
unfoldable pub child_fn : Result ℕ → ℕ
child_fn (ok code) = code
child_fn (err e) = 1
