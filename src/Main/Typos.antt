-- ===== src/Main/Typos.antt =====
-- Malformed values of `--io-max`, from `main` of src/main.rs to `Cgroup::create` of src/cgroups.rs.
use mathlib.Core.Path.{subst}
use boxed.Prelude.{ℕ, ◌≡◌, refl, sym, ap, true, false, List, All, All-map}
use boxed.Text.{Text}
use boxed.Error.{Error, ok, err, is_ok}
use boxed.Kernel.{Machine, World}
use boxed.Cgroups.IoMax.{parse_io_max}
use boxed.Cgroups.Create.{create}
use boxed.Cgroups.Create.Errors.{is_spec_error, create-Other}
use boxed.Rootless.{RootlessConfig}
use boxed.Seccomp.Libc.{Libc}
use boxed.Seccomp.Load.{FromStr}
use boxed.Namespace.Run.{RunOptions}
use boxed.Main.{Run, to_config, check_options}
use boxed.Main.Loads.{Parses}
use boxed.Main.Checks.{check_options-Checked}

Parses-is_ok :
    (specs : List Text) → All Parses specs → All (λ spec. is_ok (parse_io_max spec) ≡ true) specs
Parses-is_ok = All-map Parses (λ spec. is_ok (parse_io_max spec) ≡ true) (λ spec (x, h). rw h refl)

-- Typing errors are reported before a process is cloned. If the checks of `main` pass, then whatever
-- the system answers later, the creation of a cgroup with the limits of the run does not fail on a
-- value of `--io-max`: none of its errors is one of the parser of these values.
pub check_options-create :
    (l : Libc) (from_str : FromStr) (args : Run) (m : Machine) (w : World) (opts : RunOptions)
    (rootless : RootlessConfig)
    → (check_options l from_str args m w).0 ≡ ok (opts, rootless)
    → (pid : ℕ) (m' : Machine) (w' : World) (e : Error) → (create pid opts.limits m' w').0 ≡ err e
    → is_spec_error e ≡ false
unfolding to_config
check_options-create l from_str args m w opts rootless h pid m' w' e h' =
    let (p, profile, given, resolves, parses, same, ids) =
      check_options-Checked l from_str args m w opts rootless h in
    let limits = ap (λ (o : RunOptions). o.limits) same in
    let valid =
      subst (λ specs. All (λ spec. is_ok (parse_io_max spec) ≡ true) specs)
        (sym (ap (λ (o : RunOptions). o.limits.io_max) same))
        (Parses-is_ok args.limits.io_max parses) in
    (create-Other pid opts.limits valid).error_of m' w' e h'
