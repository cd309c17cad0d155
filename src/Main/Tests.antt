-- ===== src/Main/Tests.antt =====
-- The theorems on src/main.rs at inputs.
use boxed.Cgroups.Create.{
  create, write_limits, write_controller, write_cpuset, handle_cpuset_write_error, write_io_max,
}
use boxed.Cgroups.Create.Errors.{is_spec_error}
use boxed.Cgroups.Controllers.{read_controllers, validate_controllers, check_available}
use boxed.Main.Typos.{check_options-create}
use boxed.Prelude.{◌%◌, ◌^◌, length, Option, ℕ, ◌≡◌, refl, false, List, [], ◌∷◌, ◌++◌, none, some}
use boxed.Text.{codes, text_eq, contains}
use boxed.Text.Split.{join, split, split_once}
use boxed.Text.Words.{is_whitespace, split_whitespace}
use boxed.Text.Decimal.{parse_u64, to_string}
use boxed.Error.{Error, Result, ok, err, collect_map, context, os, failed_to_stat}
use boxed.Kernel.{Call, World, call, Reply, Outcome, Machine, failed, stat}
use boxed.Kernel.Sample.{granting, fresh, returned_pair}
use boxed.Rootless.{new}
use boxed.Seccomp.Profile.{SeccompProfile, resolve, resolve_action}
use boxed.Seccomp.Load.{FromStr, from_file, load_profile}
use boxed.Seccomp.Linux.{x86_64, x86_64_number, x86_64-IsLibc, x86_64_vm}
use boxed.Namespace.Run.{RunOptions}
use boxed.Config.{config_dir, create_config_dir}
use boxed.Cgroups.IoMax.{parse_io_max, parse_pair, check_pair, check_spec}
use boxed.Cgroups.Config.{required_controllers, resolve_device, validate_specs, validate}
use boxed.Capabilities.{drop_capabilities, contains_cap, cap_code, cap_eq, drop_each}
use boxed.Seccomp.Install.{apply_default_filter, install_filter}
use boxed.Seccomp.Syscalls.{Syscall}
use boxed.Seccomp.Filter.{SockFilter, audit_arch_x86_64}
use boxed.Kernel.{fork, execvp, install_seccomp, done, sig_block, sig_unblock}
use boxed.Kernel.Sample.{forking}
use boxed.Process.{block_forwarded_signals, unblock_forwarded_signals, forwarded_signal_set}
use boxed.Namespace.{
  prepare, await_parent, mount_root, c_string, has_null, exec_command, after_unblock, after_exec,
  after_fork, after_prepare, enter, command, becomes,
}
use boxed.Namespace.Run.{child_context}
use boxed.Main.Filter.{decreed, check_options-enter}
use boxed.Main.{Run, to_config, check_options, main}
use boxed.Main.Loads.{GivenBy}

-- A parser that gives the empty profile.
abbrev from_str : FromStr
from_str text =
    ok (record { default_action = codes "SCMP_ACT_ALLOW"; architectures = []; syscalls = [] })

abbrev args : Run
args = record {
  rootfs = some (codes "/srv/root");
  image = none;
  limits = record {
    cpu = none;
    memory = none;
    pids_limit = none;
    cpuset_cpus = none;
    cpuset_mems = none;
    io_max = codes "/dev/sda:rbps=1" ∷ [];
  };
  command = codes "sh" ∷ [];
  hostname = none;
  rootless = false;
  uid = none;
  gid = none;
  seccomp_profile = some (codes "/profile.json");
}

abbrev returned : Result ℕ × World
returned = returned_pair (main x86_64 from_str 1 args granting fresh)

abbrev opts : RunOptions
opts = record {
  command = codes "sh" ∷ [];
  rootfs = some (codes "/srv/root");
  image = none;
  hostname = none;
  limits = to_config args.limits;
  seccomp_profile = some (record { rules = []; default_action = 0x7fff0000 });
}

checks_pass :
    (check_options x86_64 from_str args granting fresh).0
    ≡ ok (opts, record { enabled = false; uid = 0; gid = 0 })
unfolding check_options create_config_dir config_dir call load_profile from_file resolve collect_map
    resolve_action text_eq validate to_config parse_io_max split_once split parse_pair check_pair
    check_spec resolve_device validate_specs parse_u64 to_string split_whitespace is_whitespace new
    contains
checks_pass = refl

abbrev executed : World
executed =
    (exec_command (codes "sh" ∷ []) forking
      (record (prepare x86_64 [] (child_context opts 7) forking fresh).1 {
        calls = (prepare x86_64 [] (child_context opts 7) forking fresh).1.calls ++ fork ∷ [];
      })).1

command_runs :
    enter x86_64 [] 1 (child_context opts 7) forking fresh
    ≡ command (becomes (codes "sh" ∷ []), executed)
unfolding enter after_prepare after_fork exec_command after_unblock after_exec
    unblock_forwarded_signals prepare await_parent mount_root boxed.Rootfs.setup drop_capabilities
    drop_each contains_cap cap_eq cap_code apply_default_filter install_filter collect_map c_string
    has_null block_forwarded_signals call child_context
command_runs = refl

check_options-enter_example :
    (p : Option SeccompProfile) × (filter : List SockFilter) × (before : List Call) × GivenBy
      from_str granting
      (create_config_dir granting fresh).1
      (some (codes "/profile.json"))
      p
    × (forking.answer before (install_seccomp (length filter % 2 ^ 16) filter) ≡ done tt)
    × (executed.calls
        ≡ before
          ++ install_seccomp (length filter % 2 ^ 16) filter
            ∷ sig_block forwarded_signal_set
            ∷ fork
            ∷ sig_unblock forwarded_signal_set
            ∷ execvp (codes "sh" ∷ [])
            ∷ [])
    × ((s : Syscall) (a : ℕ)
        → x86_64_vm.run (record { nr = x86_64_number s; arch = audit_arch_x86_64 }) a filter
          ≡ decreed x86_64 p s)
check_options-enter_example =
    check_options-enter x86_64 x86_64-IsLibc x86_64_vm from_str [] 1 7 args granting forking fresh
      fresh executed opts (record { enabled = false; uid = 0; gid = 0 }) (codes "sh" ∷ [])
      checks_pass command_runs

-- A machine on which the device has gone when the cgroup is made.
abbrev answer_gone : List Call → (c : Call) → Outcome (Reply c)
answer_gone cs (stat p) = failed 2
answer_gone cs c = granting.answer cs c

abbrev gone : Machine
gone = record granting { answer = answer_gone }

gone_fails :
    (create 41 opts.limits gone fresh).0 ≡ err (context (failed_to_stat (codes "/dev/sda")) (os 2))
unfolding create read_controllers split_whitespace is_whitespace required_controllers
    validate_controllers check_available contains text_eq join write_limits write_controller
    write_cpuset handle_cpuset_write_error write_io_max call to_string parse_io_max split_once split
    collect_map parse_pair check_pair check_spec parse_u64 resolve_device to_config
gone_fails = refl

check_options-create_example :
    is_spec_error (context (failed_to_stat (codes "/dev/sda")) (os 2)) ≡ false
check_options-create_example =
    check_options-create x86_64 from_str args granting fresh opts
      (record { enabled = false; uid = 0; gid = 0 }) checks_pass 41 gone fresh
      (context (failed_to_stat (codes "/dev/sda")) (os 2)) gone_fails
