-- ===== src/Namespace/Run/Tests.antt =====
-- The theorems on `run_in_namespace` of src/namespace.rs at inputs.
use boxed.Prelude.{
  ◌%◌, ◌^◌, ltb, ℕ, suc, ◌≡◌, refl, ◌⊎◌, Bool, true, false, List, [], ◌∷◌, ◌++◌, none, some,
  if◌then◌else◌, arith,
}
use boxed.Text.{codes}
use boxed.Types.{Capability, cap_chown}
use boxed.Error.{Result, ok, is_ok}
use boxed.Kernel.{failed, waitpid, Call, World, call, pipe2, clone}
use boxed.Kernel.Sample.{granting, fresh, returned_pair}
use boxed.Seccomp.Linux.{x86_64}
use boxed.Process.{exit_code, setup_signal_forwarding, wait_turn, wait_loop, wait_for_child}
use boxed.Namespace.{runtime_config, setup_cgroup, drop_cgroup, build_clone_flags}
use boxed.Rootless.{RootlessConfig, setup_mappings}
use boxed.Cgroups.Config.{is_noop}
use boxed.Overlay.{removable, teardown}
use boxed.Namespace.Run.{
  child_context, setup, setup_child, after_setup_child, signal_child, overlay_teardown, conclude,
  RunOptions, spawn_child, keep_pipe, launch, supervise, after_launch, run_in_namespace,
}
use boxed.Kernel.Script.{after}
use boxed.Namespace.Run.Leaves.{Completes}
use boxed.Namespace.Run.Trace.{runtime_of, NotLaunched, Supervised, run_in_namespace-Supervised}
use boxed.Process.Returns.{waits}
use boxed.Namespace.Run.Returns.{Interrupts, run_in_namespace_returns}
use boxed.Overlay.{
  directories, subdirectories, sort_layers, insert_layer, text_le, discover_lower_layers,
  create_overlay_scratch, mount_overlay, get_overlay_root,
}
use boxed.Text.Decimal.{to_string}
use boxed.Types.{entry}
use boxed.Kernel.{Outcome, Reply, Machine, done, read_dir, set_permissions, remove_dir_all}
use boxed.Namespace.Joins.{JoinsOrDrops, setup_cgroup-JoinsOrDrops}
use boxed.Types.{exited}
use boxed.Capabilities.{drop_capabilities, contains_cap, cap_code, cap_eq, drop_each}
use boxed.Seccomp.Install.{apply_default_filter, install_filter}
use boxed.Process.{block_forwarded_signals, reap_turn, reap_until_exit, unblock_forwarded_signals}
use boxed.Error.{collect_map}
use boxed.Namespace.{
  after_prepare, prepare, await_parent, mount_root, c_string, after_fork, watch, after_forwarding,
  has_null, Entered, shim, enter, child_fn,
}
use boxed.Namespace.Shim.{CommandEnds, Fails}
use boxed.Namespace.Shim.Returns.{Settles, Comes, enter_returns}
use boxed.Namespace.Run.Exit.{Reports, run_in_namespace-enter}
use boxed.Namespace.Run.Scratch.{MadeIn, overlay_teardown-setup}
use boxed.Namespace.Run.Abort.{bytes, written, ReadsWritten, Aborts, enter-run_in_namespace}
use boxed.Namespace.Run.Events.{events}
use boxed.Namespace.Run.Protocol.{follow, run_in_namespace-follows}
use boxed.Namespace.Sync.{sync, setting_up, returned, exited}

abbrev caps : List Capability
caps = cap_chown ∷ Capability.other 21 ∷ []

abbrev options : RunOptions
options = record {
  command = codes "sh" ∷ [];
  rootfs = none;
  image = some (codes "/img");
  hostname = none;
  limits = record {
    cpu_quota = none;
    memory_max = none;
    pids_limit = some 20;
    cpuset_cpus = none;
    cpuset_mems = none;
    io_max = [];
  };
  seccomp_profile = none;
}

abbrev rootful : RootlessConfig
rootful = record { enabled = false; uid = 0; gid = 0 }

abbrev run_result : Result ℕ × World
run_result = returned_pair (run_in_namespace 1 options rootful granting fresh)

ran : run_in_namespace 1 options rootful granting fresh ≡ some run_result
unfolding run_in_namespace after_launch launch call keep_pipe spawn_child supervise wait_for_child
    wait_loop wait_turn
ran = refl

run_in_namespace-Supervised_example :
    NotLaunched (build_clone_flags false) granting fresh run_result.0 run_result.1
    ⊎ Supervised (runtime_of options rootful) true granting fresh run_result.0 run_result.1
run_in_namespace-Supervised_example =
    run_in_namespace-Supervised 1 options rootful granting fresh run_result.0 run_result.1 ran

-- A machine that interrupts the first wait.
abbrev answer_interrupting : List Call → (c : Call) → Outcome (Reply c)
answer_interrupting cs (waitpid child) =
    if ltb 0 (waits cs) then granting.answer cs (waitpid child) else failed 4
answer_interrupting cs c = granting.answer cs c

abbrev interrupting : Machine
interrupting = record granting { answer = answer_interrupting }

interrupting-Interrupts : Interrupts 1 interrupting
interrupting-Interrupts cs child h = ground arith

run_in_namespace_returns_example :
    (r : Result ℕ) × (w' : World) × (run_in_namespace 2 options rootful interrupting fresh
      ≡ some (r, w'))
run_in_namespace_returns_example =
    run_in_namespace_returns interrupting 1 interrupting-Interrupts options rootful fresh

-- The same without limits, so without a cgroup.
abbrev unlimited : RunOptions
unlimited = record options { limits = record (options.limits) { pids_limit = none } }

abbrev unlimited_result : Result ℕ × World
unlimited_result = returned_pair (run_in_namespace 1 unlimited rootful granting fresh)

unlimited_ran : run_in_namespace 1 unlimited rootful granting fresh ≡ some unlimited_result
unfolding run_in_namespace after_launch launch call keep_pipe spawn_child supervise wait_for_child
    wait_loop wait_turn
unlimited_ran = refl

granting-ReadsWritten : ReadsWritten granting fresh (written granting [] unlimited_result.1.calls)
unfolding written bytes run_in_namespace after_launch launch call keep_pipe spawn_child supervise
    wait_for_child wait_loop wait_turn conclude setup after_setup_child setup_child setup_mappings
    runtime_config setup_cgroup is_noop signal_child setup_signal_forwarding overlay_teardown
    teardown removable drop_cgroup exit_code
granting-ReadsWritten k h = omega arith

enter-run_in_namespace_example :
    Aborts x86_64 caps 1 unlimited 7 granting fresh
    ⊎ (let runtime = runtime_of unlimited rootful in
        (run : Supervised runtime true granting fresh unlimited_result.0 unlimited_result.1)
        × (run.value ≡ ok tt)
        × Completes runtime run.child granting
            (after (after fresh pipe2) (clone runtime.flags))
            run.cgroup)
enter-run_in_namespace_example =
    enter-run_in_namespace x86_64 caps 1 1 unlimited rootful granting granting fresh
      unlimited_result.1 fresh unlimited_result.0 unlimited_result.1.calls unlimited_ran refl
      granting-ReadsWritten

run_in_namespace-follows_example :
    NotLaunched (build_clone_flags false) granting fresh run_result.0 run_result.1
    ⊎ (behind : List Call) × (succeeds : Bool) × (run_result.1.calls
        ≡ [] ++ pipe2 ∷ clone (build_clone_flags false) ∷ behind)
      × (succeeds ≡ false → is_ok run_result.0 ≡ false)
      × ((child_entered copy : Bool) (n : ℕ)
          → follow
              (events granting false ([] ++ pipe2 ∷ clone (build_clone_flags false) ∷ []) behind)
              (sync setting_up (exited child_entered) true copy n)
            ≡ some (
                sync
                  (returned succeeds)
                  (exited child_entered)
                  false
                  copy
                  (if succeeds then suc n else n)))
run_in_namespace-follows_example =
    run_in_namespace-follows 1 options rootful granting fresh run_result.0 run_result.1 ran

setup_cgroup-JoinsOrDrops_example :
    JoinsOrDrops options.limits 41 granting fresh
      (setup_cgroup (runtime_config options.limits rootful) 41 granting fresh)
unfolding runtime_config
setup_cgroup-JoinsOrDrops_example =
    setup_cgroup-JoinsOrDrops (runtime_config options.limits rootful) 41 granting fresh

-- A machine on which the image holds one layer.
abbrev list_layer : (c : Call) → Reply c → Reply c
list_layer (read_dir p) r = entry (codes "0") true ∷ []
list_layer c r = r

abbrev layered : Machine
layered = record granting {
  answer =
      λ cs c. elim (granting.answer cs c) [ done r ↦ done (list_layer c r) | failed e ↦ failed e ];
}

set_up_image :
    (boxed.Overlay.setup (codes "/img") (child_context options 7).run_id layered fresh).0
    ≡ ok (codes "/tmp/boxed-overlay-7/merged")
unfolding child_context boxed.Overlay.setup discover_lower_layers subdirectories call directories
    sort_layers insert_layer text_le create_overlay_scratch mount_overlay to_string
set_up_image = refl

overlay_teardown-setup_example :
    MadeIn
      (codes "/tmp/boxed-overlay-7")
      (discover_lower_layers (codes "/img") layered fresh).1.calls
      (codes "/tmp/boxed-overlay-7/merged")
      (boxed.Overlay.setup (codes "/img") (child_context options 7).run_id layered fresh).1.calls
    × ((overlay_teardown true granting fresh).1.calls
        ≡ set_permissions (codes "/tmp/boxed-overlay-7/work/work") 0o700
          ∷ remove_dir_all (codes "/tmp/boxed-overlay-7")
          ∷ [])
unfolding to_string
overlay_teardown-setup_example =
    overlay_teardown-setup options (codes "/img") granting layered fresh fresh
      (codes "/tmp/boxed-overlay-7/merged") refl set_up_image refl

-- A machine on which the command exits with 7, and the child with what the shim returns.
abbrev end_with : (c : Call) → Reply c → Reply c
end_with (waitpid none) r = exited 42 7
end_with (waitpid (some pid)) r = exited pid 7
end_with c r = r

abbrev ending : Machine
ending = record granting {
  answer =
      λ cs c. elim (granting.answer cs c) [ done r ↦ done (end_with c r) | failed e ↦ failed e ];
}

-- A run without a root of its own.
abbrev bare : RunOptions
bare = record unlimited { image = none }

abbrev bare_world : World
bare_world = (returned_pair (run_in_namespace 1 bare rootful ending fresh)).1

bare_ran : run_in_namespace 1 bare rootful ending fresh ≡ some (ok 7, bare_world)
unfolding run_in_namespace after_launch launch call keep_pipe spawn_child supervise wait_for_child
    wait_loop wait_turn conclude setup after_setup_child setup_child setup_mappings runtime_config
    setup_cgroup is_noop overlay_teardown signal_child drop_cgroup exit_code setup_signal_forwarding
bare_ran = refl

abbrev shim_world : Entered → World
shim_world (shim (some p)) = p.1
shim_world _ = fresh

abbrev entered_world : World
entered_world = shim_world (enter x86_64 caps 1 (child_context bare 7) ending fresh)

bare_entered :
    enter x86_64 caps 1 (child_context bare 7) ending fresh ≡ shim (some (ok 7, entered_world))
unfolding enter after_prepare prepare await_parent call mount_root child_context drop_capabilities
    contains_cap apply_default_filter install_filter collect_map c_string block_forwarded_signals
    after_fork watch after_forwarding setup_signal_forwarding cap_code cap_eq drop_each has_null
    exit_code reap_turn reap_until_exit unblock_forwarded_signals wait_loop
bare_entered = refl

ending-Reports : Reports ending (ok 7)
unfolding child_fn
ending-Reports cs child status h = cc

run_in_namespace-enter_example :
    (Fails (ok 7) × (◌≡◌ {A = ℕ} 7 1))
    ⊎ ((ended : CommandEnds ending entered_world (ok 7)) × (7 ≡ exit_code ended.status % 2 ^ 8))
run_in_namespace-enter_example =
    run_in_namespace-enter x86_64 caps 1 1 bare rootful ending ending fresh bare_world fresh
      entered_world 7 (ok 7) bare_ran bare_entered ending-Reports

-- The child of `ending` is the process that the shim has forked.
ending-Settles : Settles 0 ending
ending-Settles before pid same cs few goes = goes (cc)

enter_returns_example : Comes (enter x86_64 caps 1 (child_context bare 7) ending fresh)
enter_returns_example =
    enter_returns ending 0 ending-Settles x86_64 caps (child_context bare 7) fresh
