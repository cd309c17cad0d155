-- ===== src/Cgroups/Create/Errors.antt =====
-- The errors of `Cgroup::create` of src/cgroups.rs, once the values of `--io-max` are valid.
use boxed.Prelude.{
  ℕ, ◌≡◌, refl, Bool, true, false, not, List, [], ◌∷◌, ◌++◌, All, Bool-cases, inl, inr,
}
use mathlib.Core.Path.{subst}
use boxed.Text.{Text, codes, contains, join_path}
use boxed.Text.Decimal.{to_string}
use boxed.Text.Words.{split_whitespace}
use boxed.Error.{
  Error, message, context, Result, ok, err, err_injective, is_ok, bail, io_max_without_colon,
  io_max_empty_device, io_max_without_limits, io_max_without_equals, io_max_unknown_key,
  io_max_bad_value, failed_to_read_controllers, failed_to_write_controller,
  failed_to_create_cgroup_root, failed_to_enable_controllers, failed_to_create_cgroup,
  failed_to_stat, not_a_block_device,
}
use boxed.Kernel.{
  call, lift, pure, within, attempt, read_to_string, write_file, create_dir_all, stat,
}
use boxed.Kernel.Fails.{
  Fails, Fails-checked, Fails-lift, Fails-pure, Fails-attempt, Fails-if, Fails-bind, Fails-option,
}
use boxed.Cgroups.IoMax.{parse_io_max, render_io_max}
use boxed.Cgroups.Config.{CgroupConfig, RequiredController, required_controllers, resolve_device}
use boxed.Cgroups.Controllers.{read_controllers, check_available, validate_controllers}
use boxed.Cgroups.Create.{
  cgroup_root, cgroup_path, controllers_path, subtree_control_path, write_controller,
  effective_file, explain_rejection, handle_cpuset_write_error, write_cpuset, write_io_max,
  write_limits, create,
}

-- The errors of `parse_io_max`.
unfoldable pub is_spec_error : Error → Bool
is_spec_error (message (io_max_without_colon spec)) = true
is_spec_error (message (io_max_empty_device spec)) = true
is_spec_error (message (io_max_without_limits spec)) = true
is_spec_error (message (io_max_without_equals pair)) = true
is_spec_error (message (io_max_unknown_key key)) = true
is_spec_error (context (io_max_bad_value value key) e) = true
is_spec_error _ = false

abbrev Other : Error → Type 0
Other e = is_spec_error e ≡ false

write_controller-Other : (dir file value : Text) → Fails Other (write_controller dir file value)
unfolding write_controller is_spec_error
write_controller-Other dir file value =
    Fails-checked (failed_to_write_controller file) (write_file (join_path dir file) value)
      (λ n. refl)

explain_rejection-Other :
    (e : Error) (dir cpuset_type value : Text) (r : Result Text) (z : Error)
    → explain_rejection e dir cpuset_type value r ≡ err z
    → Other z
unfolding explain_rejection is_spec_error
explain_rejection-Other e dir cpuset_type value (ok t) z h = subst Other (err_injective h) refl
explain_rejection-Other e dir cpuset_type value (err x) z h = subst Other (err_injective h) refl

handle-Other :
    (ret : Result (Unit {0})) (dir cpuset_type value : Text)
    → Fails Other (handle_cpuset_write_error ret dir cpuset_type value)
unfolding handle_cpuset_write_error
handle-Other (ok _) dir cpuset_type value = Fails-pure tt
handle-Other (err e) dir cpuset_type value =
    let read = call (read_to_string (join_path dir (effective_file cpuset_type))) in
    Fails-bind (attempt read) _ (Fails-attempt read) (λ answer.
      Fails-lift (explain_rejection e dir cpuset_type value answer)
        (explain_rejection-Other e dir cpuset_type value answer))

write_cpuset-Other :
    (dir cpuset_type value : Text) → Fails Other (write_cpuset dir cpuset_type value)
unfolding write_cpuset
write_cpuset-Other dir cpuset_type value =
    let write = write_controller dir (codes "cpuset." ++ cpuset_type) value in
    Fails-bind (attempt write) _ (Fails-attempt write)
      (λ ret. handle-Other ret dir cpuset_type value)

resolve_device-Other : (path : Text) → Fails Other (resolve_device path)
unfolding resolve_device is_spec_error
resolve_device-Other path =
    Fails-bind (within (failed_to_stat path) (call (stat path))) _
      (Fails-checked (failed_to_stat path) (stat path) (λ n. refl))
      (λ info.
        Fails-if (not info.is_block) (lift (bail (not_a_block_device path)))
          (pure (to_string info.major ++ b':' ∷ to_string info.minor))
          (Fails-lift (bail (not_a_block_device path)) (λ e h. subst Other (err_injective h) refl))
          (Fails-pure (to_string info.major ++ b':' ∷ to_string info.minor)))

write_io_max-Other :
    (dir : Text) (specs : List Text)
    → All (λ spec. is_ok (parse_io_max spec) ≡ true) specs
    → Fails Other (write_io_max dir specs)
unfolding write_io_max
write_io_max-Other dir [] h = Fails-pure tt
write_io_max-Other dir (spec ∷ specs) (p, h) =
    Fails-bind (lift (parse_io_max spec)) _ (Fails-lift (parse_io_max spec) (λ e q. cc)) (λ parsed.
      Fails-bind (resolve_device parsed.device) _ (resolve_device-Other parsed.device) (λ device.
        Fails-bind (write_controller dir (codes "io.max") (render_io_max device parsed.limits)) _
          (write_controller-Other dir (codes "io.max") (render_io_max device parsed.limits))
          (λ _. write_io_max-Other dir specs h)))

write_limits-Other :
    (dir : Text) (config : CgroupConfig)
    → All (λ spec. is_ok (parse_io_max spec) ≡ true) config.io_max
    → Fails Other (write_limits dir config)
unfolding write_limits
write_limits-Other dir config h =
    Fails-option config.cpu_quota _ _
      (λ quota. write_controller-Other dir (codes "cpu.max") (to_string quota ++ codes " 100000"))
      (Fails-option config.memory_max _ _
        (λ memory. write_controller-Other dir (codes "memory.max") (to_string memory))
        (Fails-option config.pids_limit _ _
          (λ pids. write_controller-Other dir (codes "pids.max") (to_string pids))
          (Fails-option config.cpuset_cpus _ _ (write_cpuset-Other dir (codes "cpus")) (
            Fails-option config.cpuset_mems _ _ (write_cpuset-Other dir (codes "mems"))
              (write_io_max-Other dir config.io_max h)))))

check_available-Other :
    (all required : List RequiredController) (available : List Text) (e : Error)
    → check_available all required available ≡ err e
    → Other e
unfolding check_available is_spec_error
check_available-Other all [] available e h = cc
check_available-Other all (c ∷ required) available e h =
    elim (Bool-cases (contains available c.name)) [
      | inl found ↦ check_available-Other all required available e (rw found at h)
      | inr missing ↦ subst Other (err_injective (rw missing at h)) refl
    ]

-- If every specification of io.max parses, then an error of the creation is none of the parser.
pub create-Other :
    (pid : ℕ) (config : CgroupConfig)
    → All (λ spec. is_ok (parse_io_max spec) ≡ true) config.io_max
    → Fails Other (create pid config)
unfolding create read_controllers validate_controllers is_spec_error
create-Other pid config h =
    Fails-bind _ _
      (Fails-checked failed_to_create_cgroup_root (create_dir_all cgroup_root) (λ n. refl))
      (λ _.
        Fails-bind (read_controllers controllers_path) _
          (Fails-bind _ _
            (Fails-checked (failed_to_read_controllers controllers_path)
              (read_to_string controllers_path) (λ n. refl))
            (λ content. Fails-pure (split_whitespace content)))
          (λ available.
            Fails-bind (lift (validate_controllers (required_controllers config) available)) _
              (Fails-lift (validate_controllers (required_controllers config) available) (
                check_available-Other (required_controllers config) (required_controllers config)
                  available))
              (λ line.
                Fails-bind _ _
                  (Fails-checked (failed_to_enable_controllers line subtree_control_path)
                    (write_file subtree_control_path line) (λ n. refl))
                  (λ _.
                    Fails-bind _ _
                      (Fails-checked (failed_to_create_cgroup (cgroup_path pid))
                        (create_dir_all (cgroup_path pid)) (λ n. refl))
                      (λ _.
                        Fails-bind (write_limits (cgroup_path pid) config) _
                          (write_limits-Other (cgroup_path pid) config h)
                          (λ _. Fails-pure (record { path = cgroup_path pid })))))))
