-- ===== src/Cgroups/Create/Unit.antt =====
-- The unit tests of src/cgroups.rs that create a cgroup, under their names.
use boxed.Prelude.{◌*◌, ◌≡◌, refl, Bool, true, false, not, ◌&&◌, ◌||◌, List, [], ◌∷◌, none, some}
use boxed.Text.{Text, codes, text_eq, contains}
use boxed.Text.Decimal.{to_string}
use boxed.Text.Split.{join}
use boxed.Text.Words.{is_whitespace, split_whitespace}
use boxed.Asserts.{unwrap, all_pass}
use boxed.Kernel.{Call, Machine, World, call, create_dir_all, remove_dir}
use boxed.Kernel.Sample.{granting, fresh}
use boxed.Cgroups.Config.{CgroupConfig, required_controllers}
use boxed.Cgroups.Controllers.{read_controllers, validate_controllers, check_available}
use boxed.Cgroups.Create.{
  create, destroy, write_limits, write_controller, write_cpuset, handle_cpuset_write_error,
  write_io_max,
}

-- `exists` stands for `Path::exists`.
module _ (exists : World → Text → Bool) (m : Machine) (w : World) where
  abbrev create_and_destroy : Bool
  create_and_destroy =
      let config : CgroupConfig = record {
        cpu_quota = some 50000;
        memory_max = some (64 * 1024 * 1024);
        pids_limit = some 100;
        cpuset_cpus = some (codes "0");
        cpuset_mems = some (codes "0");
        io_max = [];
      } in
      let (created, w1) = create 99997 config m w in
      unwrap created (λ cg.
        let (destroyed, w2) = destroy cg m w1 in
        exists w1 cg.path && unwrap destroyed (λ _. not (exists w2 cg.path)))

  abbrev create_cpu_only : Bool
  create_cpu_only =
      let config : CgroupConfig = record {
        cpu_quota = some 25000;
        memory_max = none;
        pids_limit = none;
        cpuset_cpus = none;
        cpuset_mems = none;
        io_max = [];
      } in
      let (created, w1) = create 99998 config m w in
      unwrap created (λ cg.
        let (destroyed, w2) = destroy cg m w1 in exists w1 cg.path && unwrap destroyed (λ _. true))

  abbrev create_mem_only : Bool
  create_mem_only =
      let config : CgroupConfig = record {
        cpu_quota = none;
        memory_max = some (32 * 1024 * 1024);
        pids_limit = none;
        cpuset_cpus = none;
        cpuset_mems = none;
        io_max = [];
      } in
      let (created, w1) = create 99999 config m w in
      unwrap created (λ cg.
        let (destroyed, w2) = destroy cg m w1 in exists w1 cg.path && unwrap destroyed (λ _. true))

  abbrev create_cpuset_only : Bool
  create_cpuset_only =
      let config : CgroupConfig = record {
        cpu_quota = none;
        memory_max = none;
        pids_limit = none;
        cpuset_cpus = some (codes "0");
        cpuset_mems = none;
        io_max = [];
      } in
      let (created, w1) = create 99996 config m w in
      unwrap created (λ cg.
        let (destroyed, w2) = destroy cg m w1 in exists w1 cg.path && unwrap destroyed (λ _. true))

-- Whether the last of the calls on a path made it.
abbrev made_last : Bool → List Call → Text → Bool
made_last there [] path = there
made_last there (create_dir_all p ∷ cs) path = made_last (there || text_eq p path) cs path
made_last there (remove_dir p ∷ cs) path = made_last (there && not (text_eq p path)) cs path
made_last there (c ∷ cs) path = made_last there cs path

abbrev is_there : World → Text → Bool
is_there w = made_last false w.calls

create_pass :
    all_pass (
      create_and_destroy is_there granting fresh
      ∷ create_cpu_only is_there granting fresh
      ∷ create_mem_only is_there granting fresh
      ∷ create_cpuset_only is_there granting fresh
      ∷ [])
    ≡ true
unfolding create destroy read_controllers split_whitespace is_whitespace required_controllers
    validate_controllers check_available contains text_eq join write_limits write_controller
    write_cpuset handle_cpuset_write_error write_io_max call to_string
create_pass = refl
