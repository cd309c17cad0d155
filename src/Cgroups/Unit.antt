-- ===== src/Cgroups/Unit.antt =====
-- The unit tests of src/cgroups.rs on configurations, controllers, devices and paths, under their
-- names.
use boxed.Prelude.{
  ℕ, ◌*◌, ◌≡◌, refl, Bool, true, false, not, ◌&&◌, ◌==◌, List, [], ◌∷◌, ◌++◌, map, none, some,
}
use boxed.Text.{Text, codes, text_eq, contains}
use boxed.Text.Decimal.{to_string}
use boxed.Text.Split.{join}
use boxed.Text.Words.{is_whitespace, split_whitespace}
use boxed.Display.{Debug, message_text}
use boxed.Text.Contains.{starts_with, contains_text}
use boxed.Asserts.{unwrap, unwrap_err, is_err, says, option_eq, list_eq, all_pass, quoting}
use boxed.Kernel.{Reply, Call, Machine, World, done, failed, call, ◌>>=◌, stat, write_file}
use boxed.Kernel.Sample.{granting, fresh}
use boxed.Cgroups.Config.{
  CgroupConfig, RequiredController, is_noop, required_controllers, resolve_device,
}
use boxed.Cgroups.Controllers.{read_controllers, validate_controllers, check_available}

abbrev config_all_none : Bool
config_all_none =
    let config : CgroupConfig = record {
      cpu_quota = none;
      memory_max = none;
      pids_limit = none;
      cpuset_cpus = none;
      cpuset_mems = none;
      io_max = [];
    } in
    is_noop config

abbrev config_with_values : Bool
config_with_values =
    let config : CgroupConfig = record {
      cpu_quota = some 50000;
      memory_max = some (256 * 1024 * 1024);
      pids_limit = some 100;
      cpuset_cpus = some (codes "0-1");
      cpuset_mems = some (codes "0");
      io_max = codes "/dev/sda:wbps=1048576" ∷ [];
    } in
    option_eq ◌==◌ config.cpu_quota (some 50000)
    && option_eq ◌==◌ config.memory_max (some 268435456)
    && option_eq ◌==◌ config.pids_limit (some 100)
    && option_eq text_eq config.cpuset_cpus (some (codes "0-1"))
    && option_eq text_eq config.cpuset_mems (some (codes "0"))
    && list_eq text_eq config.io_max (codes "/dev/sda:wbps=1048576" ∷ [])
    && not (is_noop config)

abbrev config_with_only_io_max_is_not_noop : Bool
config_with_only_io_max_is_not_noop =
    let config : CgroupConfig = record {
      cpu_quota = none;
      memory_max = none;
      pids_limit = none;
      cpuset_cpus = none;
      cpuset_mems = none;
      io_max = codes "/dev/sda:wbps=1048576" ∷ [];
    } in
    not (is_noop config)

abbrev cpu_quota_string_format : Bool
cpu_quota_string_format =
    text_eq (to_string 50000 ++ codes " 100000") (codes "50000 100000")
    && text_eq (to_string 10000 ++ codes " 100000") (codes "10000 100000")
    && text_eq (to_string 100000 ++ codes " 100000") (codes "100000 100000")

abbrev kernel_controllers : List Text
kernel_controllers =
    codes "cpuset"
    ∷ codes "cpu"
    ∷ codes "io"
    ∷ codes "memory"
    ∷ codes "hugetlb"
    ∷ codes "pids"
    ∷ codes "rdma"
    ∷ codes "misc"
    ∷ []

abbrev required_controller_names_are_real_kernel_controllers : Bool
required_controller_names_are_real_kernel_controllers =
    let config : CgroupConfig = record {
      cpu_quota = some 1;
      memory_max = some 1;
      pids_limit = some 1;
      cpuset_cpus = some (codes "0");
      cpuset_mems = some (codes "0");
      io_max = codes "/dev/sda:wbps=1" ∷ [];
    } in
    all_pass (
      map (λ (c : RequiredController). contains kernel_controllers c.name)
        (required_controllers config))

abbrev cpuset_controller_requested_once_for_both_flags : Bool
cpuset_controller_requested_once_for_both_flags =
    let config : CgroupConfig = record {
      cpu_quota = none;
      memory_max = none;
      pids_limit = none;
      cpuset_cpus = some (codes "0");
      cpuset_mems = some (codes "0");
      io_max = [];
    } in
    list_eq text_eq (map (λ (c : RequiredController). c.name) (required_controllers config))
      (codes "cpuset" ∷ [])

abbrev validate_controllers_builds_subtree_control_line : Bool
validate_controllers_builds_subtree_control_line =
    let required : List RequiredController =
      record { name = codes "cpu"; flag = codes "--cpu" }
      ∷ record { name = codes "memory"; flag = codes "--memory" }
      ∷ [] in
    let available = codes "cpu" ∷ codes "memory" ∷ codes "io" ∷ [] in
    unwrap (validate_controllers required available) (λ line. text_eq line (codes "+cpu +memory"))

abbrev validate_controllers_rejects_undelegated_controller : Debug → Bool
validate_controllers_rejects_undelegated_controller d =
    let required : List RequiredController =
      record { name = codes "io"; flag = codes "--io-max" } ∷ [] in
    let available = codes "cpu" ∷ codes "memory" ∷ [] in
    unwrap_err (validate_controllers required available)
      (λ e. says d e (codes "--io-max") && says d e (codes "cpu memory"))

-- The removal of the file at the end is left out.
abbrev read_controllers_splits_and_trims : Machine → World → Bool
read_controllers_splits_and_trims m w =
    let path = m.temp_dir ++ (codes "/boxed-controllers-" ++ to_string m.pid) in
    unwrap
      ((call (write_file path (codes "cpuset cpu io memory pids\n")) >>= λ written.
          read_controllers path)
        m w).0
      (λ controllers.
        list_eq text_eq controllers
          (codes "cpuset" ∷ codes "cpu" ∷ codes "io" ∷ codes "memory" ∷ codes "pids" ∷ []))

abbrev resolve_device_rejects_character_device : Debug → Machine → World → Bool
resolve_device_rejects_character_device d m w =
    unwrap_err (resolve_device (codes "/dev/null") m w).0
      (λ e. says d e (codes "not a block device"))

abbrev resolve_device_rejects_missing_path : Machine → World → Bool
resolve_device_rejects_missing_path m w =
    is_err (resolve_device (codes "/dev/boxed-no-such-device") m w).0

abbrev cgroup_path_contains_pid : Bool
cgroup_path_contains_pid =
    let pid : ℕ = 1234 in
    text_eq (codes "/sys/fs/cgroup/boxed/" ++ to_string pid) (codes "/sys/fs/cgroup/boxed/1234")

abbrev cgroup_path_unique_per_pid : Bool
cgroup_path_unique_per_pid =
    let p1 = codes "/sys/fs/cgroup/boxed/" ++ to_string 100 in
    let p2 = codes "/sys/fs/cgroup/boxed/" ++ to_string 200 in not (text_eq p1 p2)

-- A machine on which /dev/null is a character device, and no other path exists.
abbrev null_stat : (c : Call) → Reply c → Reply c
null_stat (stat p) r = record r { is_block = false }
null_stat c r = r

abbrev with_null : Machine
with_null = record granting {
  answer =
      λ cs c. elim (granting.answer cs c) [ done r ↦ done (null_stat c r) | failed e ↦ failed e ];
}

abbrev without_devices : Machine
without_devices = record granting { answer = λ cs c. failed 2 }

configs_pass :
    all_pass (
      config_all_none ∷ config_with_values ∷ config_with_only_io_max_is_not_noop
      ∷ cpu_quota_string_format ∷ cgroup_path_contains_pid ∷ cgroup_path_unique_per_pid ∷ [])
    ≡ true
unfolding is_noop text_eq to_string
configs_pass = refl

controllers_pass :
    all_pass (
      required_controller_names_are_real_kernel_controllers
      ∷ cpuset_controller_requested_once_for_both_flags
      ∷ validate_controllers_builds_subtree_control_line
      ∷ validate_controllers_rejects_undelegated_controller quoting
      ∷ read_controllers_splits_and_trims granting fresh
      ∷ [])
    ≡ true
unfolding required_controllers validate_controllers check_available contains text_eq join
    read_controllers split_whitespace is_whitespace call message_text contains_text starts_with
    to_string
controllers_pass = refl

devices_pass :
    all_pass (
      resolve_device_rejects_character_device quoting with_null fresh
      ∷ resolve_device_rejects_missing_path without_devices fresh
      ∷ [])
    ≡ true
unfolding resolve_device call message_text contains_text starts_with
devices_pass = refl
