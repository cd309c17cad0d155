-- ===== src/Cgroups/Config.antt =====
-- `CgroupConfig` and the controllers that it needs.
use boxed.Prelude.{
  ℕ, ◌≡◌, Bool, true, false, not, ◌&&◌, ◌||◌, List, [], ◌∷◌, ◌++◌, Option, none, some,
  if◌then◌else◌, is_empty, arith,
}
use boxed.Text.{Text, codes}
use boxed.Error.{not_a_block_device, failed_to_stat, bail}
use boxed.Kernel.{Io, call, lift, pure, within, ◌>>=◌, ◌>>◌, stat}
use boxed.Text.Decimal.{to_string}
use boxed.Cgroups.IoMax.{parse_io_max}

pub record CgroupConfig : Type 0 where
  pub cpu_quota : Option ℕ
  pub memory_max : Option ℕ
  pub pids_limit : Option ℕ
  pub cpuset_cpus : Option Text
  pub cpuset_mems : Option Text
  pub io_max : List Text

abbrev pub is_some {ℓ} : {A : Type ℓ} → Option A → Bool
is_some none = false
is_some (some a) = true

abbrev is_none {ℓ} : {A : Type ℓ} → Option A → Bool
is_none none = true
is_none (some a) = false

pub record RequiredController : Type 0 where
  pub name : Text
  pub flag : Text

unfoldable pub is_noop : CgroupConfig → Bool
is_noop config =
    is_none config.cpu_quota
    && is_none config.memory_max
    && is_none config.pids_limit
    && is_none config.cpuset_cpus
    && is_none config.cpuset_mems
    && is_empty config.io_max

-- `if test { required.push(controller) }`
abbrev pub push_if : Bool → Text → Text → List RequiredController → List RequiredController
push_if test name flag required =
    if test then required ++ record { name = name; flag = flag } ∷ [] else required

unfoldable pub required_controllers : CgroupConfig → List RequiredController
required_controllers config =
    push_if (not (is_empty config.io_max)) (codes "io") (codes "--io-max") (
      push_if (is_some config.cpuset_cpus || is_some config.cpuset_mems) (codes "cpuset")
        (codes "--cpuset-cpus/--cpuset-mems")
        (push_if (is_some config.pids_limit) (codes "pids") (codes "--pids-limit") (
          push_if (is_some config.memory_max) (codes "memory") (codes "--memory")
            (push_if (is_some config.cpu_quota) (codes "cpu") (codes "--cpu") []))))

-- A configuration asks for nothing exactly if it needs no controller.
is_noop-required_controllers :
    (config : CgroupConfig) → is_noop config ≡ is_empty (required_controllers config)
unfolding is_noop required_controllers
is_noop-required_controllers config = ground arith

-- `resolve_device`
unfoldable pub resolve_device : Text → Io Text
resolve_device path = do
  info ← within (failed_to_stat path) (call (stat path))
  if not info.is_block
      then lift (bail (not_a_block_device path))
      else pure (to_string info.major ++ b':' ∷ to_string info.minor)

unfoldable pub validate_specs : List Text → Io (Unit {0})
validate_specs [] = pure tt
validate_specs (spec ∷ specs) = do
  parsed ← lift (parse_io_max spec)
  resolve_device parsed.device
  validate_specs specs

-- `CgroupConfig::validate`
unfoldable pub validate : CgroupConfig → Io (Unit {0})
unfolding validate_specs
validate config = validate_specs config.io_max
