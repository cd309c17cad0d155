-- ===== src/Main.antt =====
-- src/main.rs: the options of `boxed run`, and what is done with them. clap's parser gives a `Run`.
pub mod Loads
pub mod Checks
pub mod Filter
pub mod Typos
mod Tests
use boxed.Prelude.{ℕ, Bool, List, Option, some}
use boxed.Text.{Text}
use boxed.Error.{Result, ok, err}
use boxed.Kernel.{Machine, World, Io, lift, pure, ◌>>=◌, ◌>>◌}
use boxed.Config.{create_config_dir}
use boxed.Cgroups.Config.{CgroupConfig, validate}
use boxed.Rootless.{RootlessConfig, new}
use boxed.Seccomp.Libc.{Libc}
use boxed.Seccomp.Load.{FromStr, load_profile}
use boxed.Namespace.Run.{RunOptions, run_in_namespace}

pub record CgroupArgs : Type 0 where
  pub cpu : Option ℕ
  pub memory : Option ℕ
  pub pids_limit : Option ℕ
  pub cpuset_cpus : Option Text
  pub cpuset_mems : Option Text
  pub io_max : List Text

-- `Commands::Run`
pub record Run : Type 0 where
  pub rootfs : Option Text
  pub image : Option Text
  pub limits : CgroupArgs
  pub command : List Text
  pub hostname : Option Text
  pub rootless : Bool
  pub uid : Option ℕ
  pub gid : Option ℕ
  pub seccomp_profile : Option Text

-- `From<CgroupArgs> for CgroupConfig`
unfoldable pub to_config : CgroupArgs → CgroupConfig
to_config value = record {
  cpu_quota = value.cpu;
  memory_max = value.memory;
  pids_limit = value.pids_limit;
  cpuset_cpus = value.cpuset_cpus;
  cpuset_mems = value.cpuset_mems;
  io_max = value.io_max;
}

-- `main` between the parsing of the options and `run_in_namespace`.
unfoldable pub check_options : Libc → FromStr → Run → Io (RunOptions × RootlessConfig)
check_options l from_str args = do
  create_config_dir
  seccomp_profile ← load_profile l from_str args.seccomp_profile
  let limits = to_config args.limits
  validate limits
  let opts : RunOptions = record {
    command = args.command;
    rootfs = args.rootfs;
    image = args.image;
    hostname = args.hostname;
    limits = limits;
    seccomp_profile = seccomp_profile;
  }
  rootless ← lift (new args.rootless args.uid args.gid)
  pure (opts, rootless)

unfoldable pub after_checks :
    ℕ → Machine → Result (RunOptions × RootlessConfig) × World → Option (Result ℕ × World)
after_checks fuel m (err e, w) = some (err e, w)
after_checks fuel m (ok (opts, rootless), w) = run_in_namespace fuel opts rootless m w

-- `main`: `ok code` is `exit(code)`, and an error is returned from `main`.
unfoldable pub main : Libc → FromStr → ℕ → Run → Machine → World → Option (Result ℕ × World)
main l from_str fuel args m w = after_checks fuel m (check_options l from_str args m w)
