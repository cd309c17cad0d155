-- ===== src/Cgroups/Create/Bounds.antt =====
-- What `Cgroup::create` of src/cgroups.rs can touch, also when it fails.
use boxed.Prelude.{
  ℕ, ◌≡◌, refl, ◌==◌, Option, Bool, true, false, not, ◌&&◌, ◌||◌, List, [], ◌∷◌, ◌++◌, arith,
}
use boxed.Text.{Text, codes, join_path, text_eq, text_eq_iff}
use boxed.Text.Decimal.{to_string}
use boxed.Error.{
  Result, ok, err, bail, not_a_block_device, failed_to_stat, failed_to_read_controllers,
  failed_to_write_controller, failed_to_create_cgroup_root, failed_to_enable_controllers,
  failed_to_create_cgroup,
}
use boxed.Kernel.{
  Call, Io, call, lift, pure, within, attempt, for_some, ◌>>◌, read_to_string, write_file,
  create_dir_all, stat,
}
use boxed.Kernel.Makes.{
  Makes, Makes-bind, Makes-call, Makes-checked, Makes-lift, Makes-if, Makes-attempt, Makes-for_some,
}
use boxed.Text.Words.{split_whitespace}
use boxed.Cgroups.IoMax.{parse_io_max, render_io_max}
use boxed.Cgroups.Config.{CgroupConfig, required_controllers, resolve_device}
use boxed.Cgroups.Controllers.{read_controllers, validate_controllers}
use boxed.Cgroups.Create.{
  cgroup_root, cgroup_path, controllers_path, subtree_control_path, write_controller,
  effective_file, explain_rejection, handle_cpuset_write_error, write_cpuset, write_io_max,
  write_limits, create,
}

abbrev starts_with : Text → Text → Bool
starts_with [] t = true
starts_with (a ∷ p) [] = false
starts_with (a ∷ p) (b ∷ t) = a == b && starts_with p t

-- A directory is made only for the root or for the own cgroup; a file is written only in the own
-- cgroup, or it is the root's cgroup.subtree_control; reads are below the root; nothing else
-- changes the system, and nothing is removed.
unfoldable pub confined : Text → Call → Bool
confined own (create_dir_all p) = text_eq p cgroup_root || text_eq p own
confined own (write_file p v) = text_eq p subtree_control_path || starts_with (own ++ codes "/") p
confined own (read_to_string p) = starts_with (cgroup_root ++ codes "/") p
confined own (stat p) = true
confined own _ = false

or-true : (b : Bool) → (b || true) ≡ true
or-true b = ground arith

starts_with-join_path :
    (dir file : Text) → starts_with (dir ++ codes "/") (join_path dir file) ≡ true
starts_with-join_path [] file = refl
starts_with-join_path (c ∷ dir) file = ground (arith, starts_with-join_path dir file)

module _ (own : Text)
    (below : (file : Text)
      → starts_with (cgroup_root ++ codes "/") (join_path own file) ≡ true) where
  abbrev Confined : {A : Type 0} → Io A → Type 0
  Confined = Makes (confined own)

  write_controller-Confined : (file value : Text) → Confined (write_controller own file value)
  unfolding write_controller confined
  write_controller-Confined file value =
      Makes-checked (failed_to_write_controller file) (write_file (join_path own file) value)
        (rw starts_with-join_path (or-true (text_eq (join_path own file) subtree_control_path)))

  handle-Confined :
      (ret : Result (Unit {0})) (cpuset_type value : Text)
      → Confined (handle_cpuset_write_error ret own cpuset_type value)
  unfolding handle_cpuset_write_error confined
  handle-Confined (ok _) cpuset_type value = Makes-lift (ok tt)
  handle-Confined (err e) cpuset_type value =
      let read = call (read_to_string (join_path own (effective_file cpuset_type))) in
      Makes-bind (attempt read) _
        (Makes-attempt read (
          Makes-call (read_to_string (join_path own (effective_file cpuset_type)))
            (below (effective_file cpuset_type))))
        (λ answer. Makes-lift (explain_rejection e own cpuset_type value answer))

  write_cpuset-Confined : (cpuset_type value : Text) → Confined (write_cpuset own cpuset_type value)
  unfolding write_cpuset
  write_cpuset-Confined cpuset_type value =
      let write = write_controller own (codes "cpuset." ++ cpuset_type) value in
      Makes-bind (attempt write) _
        (Makes-attempt write (write_controller-Confined (codes "cpuset." ++ cpuset_type) value))
        (λ ret. handle-Confined ret cpuset_type value)

  resolve_device-Confined : (path : Text) → Confined (resolve_device path)
  unfolding resolve_device confined
  resolve_device-Confined path =
      Makes-bind (within (failed_to_stat path) (call (stat path))) _
        (Makes-checked (failed_to_stat path) (stat path) refl)
        (λ info.
          Makes-if (not info.is_block) (lift (bail (not_a_block_device path)))
            (pure (to_string info.major ++ b':' ∷ to_string info.minor))
            (Makes-lift (bail (not_a_block_device path)))
            (Makes-lift (ok (to_string info.major ++ b':' ∷ to_string info.minor))))

  write_io_max-Confined : (specs : List Text) → Confined (write_io_max own specs)
  unfolding write_io_max
  write_io_max-Confined [] = Makes-lift (ok tt)
  write_io_max-Confined (spec ∷ specs) =
      Makes-bind (lift (parse_io_max spec)) _ (Makes-lift (parse_io_max spec)) (λ parsed.
        Makes-bind (resolve_device parsed.device) _ (resolve_device-Confined parsed.device)
          (λ device.
            Makes-bind (write_controller own (codes "io.max") (render_io_max device parsed.limits))
              _ (write_controller-Confined (codes "io.max") (render_io_max device parsed.limits))
              (λ _. write_io_max-Confined specs)))

  then_option :
      {A : Type 0} (o : Option A) (f : A → Io (Unit {0})) (next : Io (Unit {0}))
      → ((a : A) → Confined (f a))
      → Confined next
      → Confined (for_some o f >> next)
  then_option o f next h k = Makes-bind (for_some o f) (λ _. next) (Makes-for_some o f h) (λ _. k)

  write_limits-Confined : (config : CgroupConfig) → Confined (write_limits own config)
  unfolding write_limits
  write_limits-Confined config =
      then_option config.cpu_quota _ _
        (λ quota. write_controller-Confined (codes "cpu.max") (to_string quota ++ codes " 100000"))
        (then_option config.memory_max _ _
          (λ memory. write_controller-Confined (codes "memory.max") (to_string memory))
          (then_option config.pids_limit _ _
            (λ pids. write_controller-Confined (codes "pids.max") (to_string pids))
            (then_option config.cpuset_cpus _ _ (write_cpuset-Confined (codes "cpus")) (
              then_option config.cpuset_mems _ _ (write_cpuset-Confined (codes "mems"))
                (write_io_max-Confined config.io_max)))))

read_controllers-confined : (own : Text) → Makes (confined own) (read_controllers controllers_path)
unfolding read_controllers confined
read_controllers-confined own =
    Makes-bind
      (within (failed_to_read_controllers controllers_path)
        (call (read_to_string controllers_path)))
      _
      (Makes-checked (failed_to_read_controllers controllers_path) (read_to_string controllers_path)
        refl)
      (λ content. Makes-lift (ok (split_whitespace content)))

make_dir-confined : (own : Text) → confined own (create_dir_all own) ≡ true
unfolding confined
make_dir-confined own = rw ((text_eq_iff own own).1 refl) (or-true (text_eq own cgroup_root))

make_root-confined : (own : Text) → confined own (create_dir_all cgroup_root) ≡ true
unfolding confined text_eq
make_root-confined own = refl

write_line-confined : (own line : Text) → confined own (write_file subtree_control_path line) ≡ true
unfolding confined text_eq
write_line-confined own line = refl

-- Whether it succeeds or fails, the creation of a cgroup makes no directory but the root and its
-- own, writes no file but the root's cgroup.subtree_control and those in its own directory, reads
-- only below the root, and removes nothing.
pub create-confined :
    (pid : ℕ) (config : CgroupConfig) → Makes (confined (cgroup_path pid)) (create pid config)
unfolding create
create-confined pid config =
    let own = cgroup_path pid in
    Makes-bind (within failed_to_create_cgroup_root (call (create_dir_all cgroup_root))) _
      (Makes-checked failed_to_create_cgroup_root (create_dir_all cgroup_root)
        (make_root-confined own))
      (λ _.
        Makes-bind (read_controllers controllers_path) _ (read_controllers-confined own)
          (λ available.
            Makes-bind (lift (validate_controllers (required_controllers config) available)) _
              (Makes-lift (validate_controllers (required_controllers config) available))
              (λ line.
                Makes-bind
                  (within (failed_to_enable_controllers line subtree_control_path)
                    (call (write_file subtree_control_path line)))
                  _
                  (Makes-checked (failed_to_enable_controllers line subtree_control_path)
                    (write_file subtree_control_path line) (write_line-confined own line))
                  (λ _.
                    Makes-bind (within (failed_to_create_cgroup own) (call (create_dir_all own))) _
                      (Makes-checked (failed_to_create_cgroup own) (create_dir_all own)
                        (make_dir-confined own))
                      (λ _.
                        Makes-bind (write_limits own config) _
                          (write_limits-Confined own (λ file. refl) config)
                          (λ _. Makes-lift (ok (record { path = own }))))))))
