-- ===== src/Cgroups/Tests.antt =====
-- The theorems on src/cgroups.rs at inputs.
use boxed.Prelude.{◌≡◌, refl, All, true, List, [], ◌∷◌, ◌++◌, map, none, some, arith}
use boxed.Text.{Text, codes, text_eq, contains}
use boxed.Text.Split.{join, split, split_once}
use boxed.Text.Words.{is_whitespace, split_whitespace}
use boxed.Error.{ok, bail, message, io_max_unknown_key, collect_map}
use boxed.Asserts.{quoting}
use boxed.Cgroups.IoMax.Blames.{Fault, Quotes, parse_io_max-Quotes}
use boxed.Cgroups.IoMax.{parse_pair, check_pair, check_spec}
use boxed.Kernel.{Machine, failed, done}
use boxed.Cgroups.Create.Cpuset.{Explains, write_cpuset-Explains}
use boxed.Kernel.{Call, World, create_dir_all, read_to_string, write_file}
use boxed.Kernel.Makes.{Makes}
use boxed.Kernel.Sample.{granting, fresh}
use boxed.Cgroups.IoMax.{IoMax, parse_io_max}
use boxed.Cgroups.IoMax.RoundTrip.{
  IsIoMax, print_io_max, ReadSpec, parse_io_max-print_io_max, parse_io_max_sound,
}
use boxed.Cgroups.Config.{CgroupConfig, required_controllers}
use boxed.Cgroups.Controllers.{
  read_controllers, check_available, validate_controllers, Checked, distinct, needed,
  validate_controllers-Checked, validate_controllers-words,
}
use boxed.Cgroups.Create.{
  Cgroup, cgroup_root, cgroup_path, controllers_path, write_limits, write_controller, write_cpuset,
  handle_cpuset_write_error, write_io_max, create,
}
use boxed.Cgroups.Create.Devices.{DeviceCalls}
use boxed.Cgroups.Create.Limits.{limit_calls}
use boxed.Cgroups.Create.Calls.{head_calls, create-calls}
use boxed.Cgroups.Create.Bounds.{confined, create-confined}

abbrev disk : IoMax
disk = record {
  device = codes "/dev/sda";
  limits = (codes "rbps", 1048576) ∷ (codes "wiops", 0) ∷ [];
}

disk-IsIoMax : IsIoMax disk
unfolding contains text_eq
disk-IsIoMax = record {
  device_lacks_colon = omega arith;
  device_not_empty = λ h. cc;
  limits_not_empty = λ h. cc;
  limits_are_limits = ((refl, omega arith), ((refl, omega arith), tt));
}

parse_io_max-print_io_max_example : parse_io_max (print_io_max disk) ≡ ok disk
parse_io_max-print_io_max_example = parse_io_max-print_io_max disk disk-IsIoMax

parse_io_max_sound_example : ReadSpec (print_io_max disk) disk
parse_io_max_sound_example =
    parse_io_max_sound (print_io_max disk) parse_io_max-print_io_max_example

abbrev misspelt : Text
misspelt = codes "/dev/sda:wpbs=1"

misspelt_rejected : parse_io_max misspelt ≡ bail (io_max_unknown_key (codes "wpbs"))
unfolding parse_io_max split_once split check_spec parse_pair check_pair contains text_eq
    collect_map
misspelt_rejected = refl

parse_io_max-Quotes_example :
    Fault misspelt (message (io_max_unknown_key (codes "wpbs")))
    × Quotes quoting misspelt (message (io_max_unknown_key (codes "wpbs")))
parse_io_max-Quotes_example = parse_io_max-Quotes quoting misspelt misspelt_rejected

abbrev config : CgroupConfig
config = record {
  cpu_quota = some 50000;
  memory_max = none;
  pids_limit = some 64;
  cpuset_cpus = some (codes "0-1");
  cpuset_mems = none;
  io_max = [];
}

abbrev available : List Text
available = codes "cpuset" ∷ codes "cpu" ∷ codes "pids" ∷ []

validate_controllers-Checked_example :
    Checked
      (required_controllers config)
      (required_controllers config)
      available
      (validate_controllers (required_controllers config) available)
validate_controllers-Checked_example =
    validate_controllers-Checked (required_controllers config) available

abbrev line : Text
line = codes "+cpu +pids +cpuset"

validate_controllers-words_example :
    (split_whitespace line ≡ map (λ (n : Text). b'+' ∷ n) (needed config))
    × (distinct (needed config) ≡ true)
    × All (λ n. contains available n ≡ true) (needed config)
unfolding required_controllers validate_controllers contains text_eq join
validate_controllers-words_example = validate_controllers-words config available {line = line} refl

abbrev cgroup : Cgroup
cgroup = record { path = cgroup_path 41 }

create-calls_example :
    (content : Text) × (line : Text) × (last : List Call) × (granting.answer
        ([] ++ create_dir_all cgroup_root ∷ [])
        (read_to_string controllers_path)
      ≡ done content)
    × (validate_controllers (required_controllers config) (split_whitespace content) ≡ ok line)
    × ((create 41 config granting fresh).1.calls
        ≡ [] ++ (head_calls 41 line ++ (limit_calls (cgroup_path 41) config ++ last)))
    × DeviceCalls granting
        (cgroup_path 41)
        config.io_max
        (([] ++ head_calls 41 line) ++ limit_calls (cgroup_path 41) config)
        last
    × (cgroup ≡ record { path = cgroup_path 41 })
unfolding create read_controllers split_whitespace is_whitespace required_controllers
    validate_controllers check_available contains text_eq join write_limits write_controller
    write_cpuset handle_cpuset_write_error write_io_max boxed.Kernel.call
create-calls_example = create-calls granting fresh 41 config {cg = cgroup} refl

create-confined_example : Makes (confined (cgroup_path 41)) (create 41 config)
create-confined_example = create-confined 41 config

-- A machine that refuses every call with EACCES.
abbrev refusing : Machine
refusing = record granting { answer = λ cs c. failed 13 }

write_cpuset-Explains_example :
    Explains
      (codes "/sys/fs/cgroup/boxed/7")
      (codes "cpus")
      fresh
      (write_file (codes "/sys/fs/cgroup/boxed/7/cpuset.cpus") (codes "0-3"))
      (failed 13)
      (write_cpuset (codes "/sys/fs/cgroup/boxed/7") (codes "cpus") (codes "0-3") refusing fresh)
write_cpuset-Explains_example =
    write_cpuset-Explains (codes "/sys/fs/cgroup/boxed/7") (codes "cpus") (codes "0-3") refusing
      fresh
