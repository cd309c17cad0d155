-- ===== src/Main/Filter.antt =====
-- From the options of `main` in src/main.rs to the filter that the command of src/namespace.rs runs
-- under.
use mathlib.Core.Path.{subst}
use boxed.Prelude.{
  ℕ, ◌%◌, ◌^◌, ◌≡◌, ◌∙◌, ap, sym, List, [], ◌∷◌, ◌++◌, append_assoc, map, length, Option, none,
  some, if◌then◌else◌,
}
use boxed.Text.{Text, contains}
use boxed.Types.{Capability}
use boxed.Error.{ok}
use boxed.Kernel.{
  Call, done, Machine, World, fork, execvp, sig_unblock, sig_block, install_seccomp,
  set_no_new_privs,
}
use boxed.Kernel.Script.{actions}
use boxed.Config.{create_config_dir}
use boxed.Rootless.{RootlessConfig}
use boxed.Capabilities.{drop_steps}
use boxed.Process.{forwarded_signal_set}
use boxed.Seccomp.Libc.{Libc, IsLibc}
use boxed.Seccomp.Syscalls.{Syscall, dangerous_syscalls, name}
use boxed.Seccomp.Profile.{SeccompProfile, ResolvedProfile, resolve_action}
use boxed.Seccomp.Filter.{audit_arch_x86_64, build_filter, SockFilter}
use boxed.Seccomp.Vm.{Vm}
use boxed.Seccomp.Names.{named_action, run-build_filter-name, run-build_filter-none-name}
use boxed.Seccomp.Load.{FromStr}
use boxed.Namespace.{command, becomes, enter}
use boxed.Kernel.Heeds.{Answered-last, Succeeds-done}
use boxed.Namespace.Enter.{named}
use boxed.Namespace.Command.{enter-command}
use boxed.Namespace.Run.{RunOptions, child_context}
use boxed.Main.{Run, check_options}
use boxed.Main.Loads.{GivenBy, Resolves}
use boxed.Main.Checks.{check_options-Checked}

-- What the kernel does at a call: what the profile's texts say, or without one what the default
-- filter does.
abbrev pub decreed : Libc → Option SeccompProfile → Syscall → Option ℕ
decreed l none s = some (
    if contains (map name dangerous_syscalls) (name s)
    then l.seccomp_ret_kill_process
    else l.seccomp_ret_allow)
decreed l (some p) s = resolve_action l (named_action (name s) p.syscalls p.default_action)

module _ (l : Libc) (lawful : IsLibc l) (vm : Vm l) where
  decreed-run :
      (a : ℕ) (p : Option SeccompProfile) (profile : Option ResolvedProfile) (s : Syscall)
      → Resolves l p profile
      → vm.run (record { nr = l.number s; arch = audit_arch_x86_64 }) a (build_filter l profile)
        ≡ decreed l p s
  decreed-run a none none s h = run-build_filter-none-name l lawful vm a s
  decreed-run a (some p) (some r) s h = run-build_filter-name l lawful vm a p h s
  decreed-run a none (some r) s h = absurd h
  decreed-run a (some p) none s h = absurd h

  -- The filter in force is that of the command line. If the checks of `main` pass, and a child of
  -- the run executes the command, then the child has installed a filter before, the installation
  -- succeeded, and behind it there are only the block of the signals, the fork, the unblocking and
  -- the execvp. On x86_64 the filter returns for each call of the table what the profile says that
  -- was read from the path given; without a path it kills the process at the dangerous calls and
  -- allows the others.
  pub check_options-enter :
      (from_str : FromStr) (all : List Capability) (fuel run_id : ℕ) (args : Run) (m m' : Machine)
      (w v v' : World) (opts : RunOptions) (rootless : RootlessConfig) (cmd : List Text)
      → (check_options l from_str args m w).0 ≡ ok (opts, rootless)
      → enter l all fuel (child_context opts run_id) m' v ≡ command (becomes cmd, v')
      → (p : Option SeccompProfile) × (filter : List SockFilter) × (before : List Call) × GivenBy
          from_str m
          (create_config_dir m w).1
          args.seccomp_profile
          p
        × (m'.answer before (install_seccomp (length filter % 2 ^ 16) filter) ≡ done tt)
        × (v'.calls
            ≡ before
              ++ install_seccomp (length filter % 2 ^ 16) filter
                ∷ sig_block forwarded_signal_set
                ∷ fork
                ∷ sig_unblock forwarded_signal_set
                ∷ execvp cmd
                ∷ [])
        × ((s : Syscall) (a : ℕ)
            → vm.run (record { nr = l.number s; arch = audit_arch_x86_64 }) a filter
              ≡ decreed l p s)
  unfolding child_context
  check_options-enter from_str all fuel run_id args m m' w v v' opts rootless cmd h h' =
      let (p, profile, given, resolves, parses, same, ids) =
        check_options-Checked l from_str args m w opts rootless h in
      let ctx = child_context opts run_id in
      let (root, calls, is_root, answered, collected) =
        enter-command l all fuel ctx m' v v' cmd h' in
      let filter = build_filter l opts.seccomp_profile in
      let rooted = (named ctx v).calls ++ root in
      let (privileged, (installed, rest)) =
        Answered-last m' rooted (actions (drop_steps all))
          (set_no_new_privs
            ∷ install_seccomp (length filter % 2 ^ 16) filter
            ∷ sig_block forwarded_signal_set
            ∷ [])
          answered in
      (
        p,
        filter,
        (rooted ++ actions (drop_steps all)) ++ set_no_new_privs ∷ [],
        given,
        Succeeds-done _ installed,
        calls ∙ simp append_assoc,
        λ s a.
            decreed-run a p opts.seccomp_profile s (
              subst (Resolves l p) (ap (λ (o : RunOptions). o.seccomp_profile) (sym same))
                resolves),
      )
