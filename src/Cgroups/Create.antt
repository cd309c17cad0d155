-- ===== src/Cgroups/Create.antt =====
-- The life of a cgroup: `Cgroup::create`, `add_process` and `destroy` of src/cgroups.rs.
pub mod Calls
pub mod Limits
pub mod Devices
pub mod Errors
mod Unit
pub mod Bounds
pub mod Cpuset
use boxed.Prelude.{ℕ, List, [], ◌∷◌, ◌++◌, Option, none, some}
use boxed.Text.{Text, codes, join_path}
use boxed.Text.Decimal.{to_string}
use boxed.Text.Words.{trim}
use boxed.Error.{
  Error, context, Result, ok, err, failed_to_write_controller, cpuset_rejected,
  cpuset_rejected_unreadable, failed_to_create_cgroup_root, failed_to_enable_controllers,
  failed_to_create_cgroup, failed_to_add_process, failed_to_remove_cgroup,
}
use boxed.Kernel.{
  Io, call, lift, pure, within, attempt, for_some, ◌>>=◌, ◌>>◌, read_to_string, write_file,
  create_dir_all, remove_dir,
}
use boxed.Cgroups.IoMax.{parse_io_max, render_io_max}
use boxed.Cgroups.Config.{CgroupConfig, required_controllers, resolve_device}
use boxed.Cgroups.Controllers.{read_controllers, validate_controllers}

abbrev pub cgroup_root : Text
cgroup_root = codes "/sys/fs/cgroup/boxed"

pub record Cgroup : Type 0 where
  pub path : Text

unfoldable pub write_controller : Text → Text → Text → Io (Unit {0})
write_controller cgroup_dir filename value =
    within (failed_to_write_controller filename)
      (call (write_file (join_path cgroup_dir filename) value))

-- The error of a rejected write, with what the `.effective` file says.
abbrev pub effective_file : Text → Text
effective_file cpuset_type = codes "cpuset." ++ (cpuset_type ++ codes ".effective")

unfoldable pub explain_rejection : Error → Text → Text → Text → Result Text → Result (Unit {0})
explain_rejection e cgroup_dir cpuset_type cpuset_value (ok effective) =
    err (context (cpuset_rejected cpuset_type cpuset_value cgroup_dir (trim effective)) e)
explain_rejection e cgroup_dir cpuset_type cpuset_value (err _) =
    err
      (context (cpuset_rejected_unreadable cpuset_type cpuset_value (effective_file cpuset_type)) e)

unfoldable pub handle_cpuset_write_error : Result (Unit {0}) → Text → Text → Text → Io (Unit {0})
handle_cpuset_write_error (ok _) cgroup_dir cpuset_type cpuset_value = pure tt
handle_cpuset_write_error (err e) cgroup_dir cpuset_type cpuset_value = do
  answer ← attempt (call (read_to_string (join_path cgroup_dir (effective_file cpuset_type))))
  lift (explain_rejection e cgroup_dir cpuset_type cpuset_value answer)

-- The write of `cpuset.cpus` or `cpuset.mems`, with the handling of its error.
unfoldable pub write_cpuset : Text → Text → Text → Io (Unit {0})
write_cpuset path cpuset_type cpuset_value = do
  ret ← attempt (write_controller path (codes "cpuset." ++ cpuset_type) cpuset_value)
  handle_cpuset_write_error ret path cpuset_type cpuset_value

-- The loop over `config.io_max`.
unfoldable pub write_io_max : Text → List Text → Io (Unit {0})
write_io_max path [] = pure tt
write_io_max path (spec ∷ specs) = do
  parsed ← lift (parse_io_max spec)
  device ← resolve_device parsed.device
  write_controller path (codes "io.max") (render_io_max device parsed.limits)
  write_io_max path specs

-- The part of `create` behind the creation of the directory.
unfoldable pub write_limits : Text → CgroupConfig → Io (Unit {0})
write_limits path config = do
  for_some config.cpu_quota
      (λ quota. write_controller path (codes "cpu.max") (to_string quota ++ codes " 100000"))
  for_some config.memory_max
      (λ memory. write_controller path (codes "memory.max") (to_string memory))
  for_some config.pids_limit (λ pids. write_controller path (codes "pids.max") (to_string pids))
  for_some config.cpuset_cpus (write_cpuset path (codes "cpus"))
  for_some config.cpuset_mems (write_cpuset path (codes "mems"))
  write_io_max path config.io_max

abbrev pub controllers_path : Text
controllers_path = join_path cgroup_root (codes "cgroup.controllers")

abbrev pub subtree_control_path : Text
subtree_control_path = join_path cgroup_root (codes "cgroup.subtree_control")

abbrev pub cgroup_path : ℕ → Text
cgroup_path pid = join_path cgroup_root (to_string pid)

unfoldable pub create : ℕ → CgroupConfig → Io Cgroup
create pid config = do
  within failed_to_create_cgroup_root (call (create_dir_all cgroup_root))
  available ← read_controllers controllers_path
  subtree_control ← lift (validate_controllers (required_controllers config) available)
  within (failed_to_enable_controllers subtree_control subtree_control_path)
      (call (write_file subtree_control_path subtree_control))
  within (failed_to_create_cgroup (cgroup_path pid)) (call (create_dir_all (cgroup_path pid)))
  write_limits (cgroup_path pid) config
  pure (record { path = cgroup_path pid })

unfoldable pub add_process : Cgroup → ℕ → Io (Unit {0})
add_process cg pid = do
  within failed_to_add_process
      (call (write_file (join_path cg.path (codes "cgroup.procs")) (to_string pid)))
  pure tt

unfoldable pub destroy : Cgroup → Io (Unit {0})
destroy cg = do within (failed_to_remove_cgroup cg.path) (call (remove_dir cg.path)); pure tt
