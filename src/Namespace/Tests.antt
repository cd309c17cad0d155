-- ===== src/Namespace/Tests.antt =====
-- The theorems on src/namespace.rs at inputs.
use boxed.Prelude.{ℕ, inl, arith, ◌≡◌, refl, true, false, List, [], ◌∷◌, ◌++◌, none, some}
use boxed.Text.{codes}
use boxed.Types.{Capability, cap_chown, clone_newpid, clone_newuts, clone_newns, clone_newnet}
use boxed.Error.{ok, collect_map, with_context, command_has_null_byte}
use boxed.Kernel.{failed, Call, World, call, pipe2, clone, fork, sig_unblock, execvp}
use boxed.Kernel.Sample.{granting, forking, fresh}
use boxed.Capabilities.{cap_code, cap_eq, contains_cap, drop_each, drop_capabilities}
use boxed.Seccomp.Install.{install_filter, apply_default_filter}
use boxed.Seccomp.Linux.{x86_64}
use boxed.Process.{block_forwarded_signals, unblock_forwarded_signals, forwarded_signal_set}
use boxed.Namespace.{
  ChildContext, build_clone_flags, has_null, c_string, await_parent, mount_root, prepare,
  exec_command, after_exec, after_unblock, after_fork, after_prepare, enter,
}
use boxed.Types.{sigint, sigterm, sighup}
use boxed.Kernel.{kill, sig_block, install_forwarding}
use boxed.Process.Signals.{
  Shim, Event as SignalEvent, arrives, stores, makes, has_signal, signal_eq, own_events, replay,
}
use boxed.Process.Signals.Delivery.{Among}
use boxed.Namespace.Watch.{perform, Goes, watch-forwarded}
use boxed.Namespace.{watch}
use boxed.Namespace.Command.{enter-command}
use boxed.Kernel.Heeds.{Answered}
use boxed.Namespace.Enter.{confinement, named, RootCalls, prepared, prepare-calls}
use boxed.Kernel.{Reply, Machine, done, read_dir, set_permissions, remove_dir_all}
use boxed.Namespace.Sync.{
  Sync, sync, set_up, running, Event, setup_succeeds, drop_copy, read_returns, sync_step,
  parent_step, child_step, read_sync, Reachable, start, next, Reachable-succeeded,
}

-- clone_flags_excludes_newuser_when_not_rootless
baseline : build_clone_flags false ≡ clone_newpid ∷ clone_newuts ∷ clone_newns ∷ clone_newnet ∷ []
unfolding build_clone_flags
baseline = refl

abbrev past_read : Sync
past_read = sync (set_up true) running true false 0

past_read-Reachable : Reachable past_read
unfolding sync_step parent_step child_step read_sync
past_read-Reachable = next read_returns (next drop_copy (next setup_succeeds start refl) refl) refl

Reachable-succeeded_example : (true ≡ true → true ≡ true) × (false ≡ true → false ≡ true)
Reachable-succeeded_example =
    Reachable-succeeded (set_up true) running true false 0 past_read-Reachable

abbrev ctx : ChildContext
ctx = record {
  command = codes "sh" ∷ [];
  rootfs = some (codes "/srv/root");
  image = none;
  hostname = none;
  seccomp_profile = none;
  run_id = 7;
}

abbrev caps : List Capability
caps = cap_chown ∷ Capability.other 21 ∷ []

prepare-calls_example :
    (root : List Call) × ((prepare x86_64 caps ctx granting fresh).1.calls
      ≡ [] ++ prepared x86_64 caps ctx root)
    × RootCalls 7 none (some (codes "/srv/root")) granting (named ctx fresh) root
    × Answered granting ((named ctx fresh).calls ++ root) (confinement x86_64 caps ctx)
    × (with_context command_has_null_byte (collect_map c_string (codes "sh" ∷ []))
        ≡ ok (codes "sh" ∷ []))
unfolding prepare await_parent mount_root boxed.Rootfs.setup drop_capabilities drop_each
    contains_cap cap_eq cap_code apply_default_filter install_filter collect_map c_string
    block_forwarded_signals boxed.Kernel.call
prepare-calls_example = prepare-calls x86_64 caps ctx granting fresh (codes "sh" ∷ []) refl

abbrev executed : World
executed =
    (exec_command (codes "sh" ∷ []) forking (record (prepare x86_64 caps ctx forking fresh).1 {
      calls = (prepare x86_64 caps ctx forking fresh).1.calls ++ fork ∷ [];
    })).1

enter-command_example :
    (root : List Call) × (executed.calls
      ≡ ([] ++ prepared x86_64 caps ctx root)
        ++ fork ∷ sig_unblock forwarded_signal_set ∷ execvp (codes "sh" ∷ []) ∷ [])
    × RootCalls 7 none (some (codes "/srv/root")) forking (named ctx fresh) root
    × Answered forking ((named ctx fresh).calls ++ root) (confinement x86_64 caps ctx)
    × (with_context command_has_null_byte (collect_map c_string (codes "sh" ∷ []))
        ≡ ok (codes "sh" ∷ []))
unfolding enter after_prepare after_fork exec_command after_unblock after_exec
    unblock_forwarded_signals prepare await_parent mount_root boxed.Rootfs.setup drop_capabilities
    drop_each contains_cap cap_eq cap_code apply_default_filter install_filter collect_map c_string
    has_null block_forwarded_signals boxed.Kernel.call
enter-command_example =
    enter-command x86_64 caps 1 ctx forking fresh executed (codes "sh" ∷ []) refl

-- The shim behind its fork, with the forwarded signals blocked.
abbrev blocking : Shim
blocking = record {
  world = record { calls = sig_block forwarded_signal_set ∷ []; child_pid = 0 };
  blocked = forwarded_signal_set;
  handled = [];
  pending = [];
}

-- SIGTERM arrives before its handler is installed.
abbrev early : List SignalEvent
early =
    stores 42
    ∷ arrives sigterm
    ∷ makes (install_forwarding sigint)
    ∷ makes (install_forwarding sigterm)
    ∷ makes (install_forwarding sighup)
    ∷ []

watch-forwarded_example :
    (let events = early ++ makes (sig_unblock forwarded_signal_set) ∷ [] in
      ((fuel : ℕ) (m' : Machine) (w : World)
        → Goes fuel 42 m' w (perform (own_events events) m' w) (watch fuel 42 m' w))
      × Among (kill 42 sigterm) (replay granting events blocking).world.calls)
unfolding own_events has_signal signal_eq
watch-forwarded_example =
    watch-forwarded granting 42 blocking early [] sigterm (omega arith) refl refl refl refl (
      inl (
        stores 42 ∷ [],
        makes (install_forwarding sigint)
            ∷ makes (install_forwarding sigterm)
            ∷ makes (install_forwarding sighup)
            ∷ [],
        refl,
      ))
