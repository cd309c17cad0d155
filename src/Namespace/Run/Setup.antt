-- ===== src/Namespace/Run/Setup.antt =====
-- What the closure `setup` of `run_in_namespace` in src/namespace.rs has done when it ends.
use boxed.Prelude.{
  ℕ, ◌≡◌, refl, ◌∙◌, ap, sym, ◌⊎◌, inl, inr, All, All-append, Bool, Bool-cases, true, false, List,
  [], ◌∷◌, ◌++◌, append_assoc, append-nil, Option, none, some, if◌then◌else◌,
}
use boxed.Types.{sigint, sigterm, sighup}
use boxed.Error.{
  Result, ok, err, with_context, failed_to_signal_child, failed_to_setup_forwarding,
  failed_to_add_process, failed_to_remove_cgroup, failed_to_install_handler,
}
use boxed.Text.{codes, join_path}
use boxed.Text.Decimal.{to_string}
use boxed.Kernel.{
  Call, Outcome, done, failed, to_result, Machine, World, Io, call, pure, within, attempt, proceed,
  ◌>>◌, open_write, write_all, write_file, create_dir_all, read_to_string, stat, remove_dir,
  install_forwarding, write_sync_byte,
}
use boxed.Kernel.Script.{after}
use boxed.Kernel.Makes.{
  Makes, Makes-bind, Makes-lift, Makes-if, Makes-attempt, Makes-checked, Makes-weaken,
}
use boxed.Kernel.Ensures.{Runs-Makes}
use boxed.Rootless.{RootlessConfig, setup_mappings, setup_mappings_steps, setup_mappings-Runs}
use boxed.Cgroups.Config.{is_noop}
use boxed.Cgroups.Create.{Cgroup, cgroup_path, create, add_process, destroy}
use boxed.Cgroups.Create.Bounds.{confined, create-confined}
use boxed.Process.{store_child_pid, setup_signal_forwarding}
use boxed.Namespace.{RuntimeConfig, setup_cgroup, drop_cgroup, keep_cgroup}
use boxed.Namespace.Run.{setup_child, signal_child, after_setup_child, setup}

-- The calls that map ids, make and leave a cgroup, and install signal handlers.
unfoldable pub is_setup_call : Call → Bool
is_setup_call (open_write p) = true
is_setup_call (write_all p v) = true
is_setup_call (write_file p v) = true
is_setup_call (create_dir_all p) = true
is_setup_call (read_to_string p) = true
is_setup_call (stat p) = true
is_setup_call (remove_dir p) = true
is_setup_call (install_forwarding s) = true
is_setup_call _ = false

abbrev pub SetsUp : {A : Type 0} → Io A → Type 0
SetsUp = Makes is_setup_call

confined-is_setup_call :
    (pid : ℕ) (c : Call) → confined (cgroup_path pid) c ≡ true → is_setup_call c ≡ true
unfolding confined is_setup_call
confined-is_setup_call pid (create_dir_all p) h = refl
confined-is_setup_call pid (write_file p v) h = refl
confined-is_setup_call pid (read_to_string p) h = refl
confined-is_setup_call pid (stat p) h = refl
confined-is_setup_call pid c h = cc

setup_mappings-SetsUp : (config : RootlessConfig) (pid : ℕ) → SetsUp (setup_mappings config pid)
unfolding is_setup_call
setup_mappings-SetsUp config pid =
    Runs-Makes (setup_mappings config pid)
      (λ m. if config.enabled then setup_mappings_steps m.uid m.gid pid config else [])
      (λ m. setup_mappings-Runs m pid config)
      (λ m. elim (Bool-cases config.enabled) [
        | inl rootless ↦ rw rootless (refl, (refl, (refl, (refl, (refl, (refl, tt))))))
        | inr not_rootless ↦ rw not_rootless tt
      ])

destroy-SetsUp : (cg : Cgroup) → SetsUp (destroy cg)
unfolding destroy is_setup_call
destroy-SetsUp cg =
    Makes-bind (within (failed_to_remove_cgroup cg.path) (call (remove_dir cg.path))) _
      (Makes-checked (failed_to_remove_cgroup cg.path) (remove_dir cg.path) refl)
      (λ _. Makes-lift (ok tt))

drop_cgroup-SetsUp : (cg : Option Cgroup) → SetsUp (drop_cgroup cg)
unfolding drop_cgroup
drop_cgroup-SetsUp none = Makes-lift (ok tt)
drop_cgroup-SetsUp (some cg) =
    Makes-bind (attempt (destroy cg)) _ (Makes-attempt (destroy cg) (destroy-SetsUp cg))
      (λ _. Makes-lift (ok tt))

add_process-SetsUp : (cg : Cgroup) (pid : ℕ) → SetsUp (add_process cg pid)
unfolding add_process is_setup_call
add_process-SetsUp cg pid =
    let write = write_file (join_path cg.path (codes "cgroup.procs")) (to_string pid) in
    Makes-bind (within failed_to_add_process (call write)) _
      (Makes-checked failed_to_add_process write refl) (λ _. Makes-lift (ok tt))

keep_cgroup-SetsUp : (cg : Cgroup) (added : Result (Unit {0})) → SetsUp (keep_cgroup cg added)
unfolding keep_cgroup
keep_cgroup-SetsUp cg (ok _) = Makes-lift (ok (some cg))
keep_cgroup-SetsUp cg (err e) =
    Makes-bind (drop_cgroup (some cg)) _ (drop_cgroup-SetsUp (some cg)) (λ _. Makes-lift (err e))

setup_cgroup-SetsUp : (runtime : RuntimeConfig) (pid : ℕ) → SetsUp (setup_cgroup runtime pid)
unfolding setup_cgroup
setup_cgroup-SetsUp runtime pid =
    Makes-if (is_noop runtime.limits) (pure none) _ (Makes-lift (ok none)) (
      Makes-bind (create pid runtime.limits) _
        (Makes-weaken (create pid runtime.limits) (confined-is_setup_call pid)
          (create-confined pid runtime.limits))
        (λ cg.
          Makes-bind (attempt (add_process cg pid)) _
            (Makes-attempt (add_process cg pid) (add_process-SetsUp cg pid))
            (λ added. keep_cgroup-SetsUp cg added)))

setup_child-SetsUp : (runtime : RuntimeConfig) (pid : ℕ) → SetsUp (setup_child runtime pid)
unfolding setup_child
setup_child-SetsUp runtime pid =
    Makes-bind (setup_mappings runtime.rootless pid) _ (setup_mappings-SetsUp runtime.rootless pid)
      (λ _. setup_cgroup-SetsUp runtime pid)

pub setup_signal_forwarding-SetsUp : (pid : ℕ) → SetsUp (setup_signal_forwarding pid)
unfolding setup_signal_forwarding is_setup_call
setup_signal_forwarding-SetsUp pid =
    Makes-bind (store_child_pid pid) _
      (record { calls_of = λ m w. ([], sym (append-nil w.calls), tt) })
      (λ _.
        Makes-bind (within (failed_to_install_handler sigint) (call (install_forwarding sigint))) _
          (Makes-checked (failed_to_install_handler sigint) (install_forwarding sigint) refl)
          (λ _.
            Makes-bind
              (within (failed_to_install_handler sigterm) (call (install_forwarding sigterm))) _
              (Makes-checked (failed_to_install_handler sigterm) (install_forwarding sigterm) refl)
              (λ _.
                Makes-bind
                  (within (failed_to_install_handler sighup) (call (install_forwarding sighup))) _
                  (Makes-checked (failed_to_install_handler sighup) (install_forwarding sighup)
                    refl)
                  (λ _. Makes-lift (ok tt)))))

-- `made` ends with the write of the byte, answered by `o`, and only sets up before it.
abbrev pub Sends : Machine → World → List Call → Outcome (Unit {0}) → Type 0
Sends m w made o =
    (before : List Call) × (made ≡ before ++ write_sync_byte ∷ [])
    × All (λ c. is_setup_call c ≡ true) before
    × (m.answer (w.calls ++ before) write_sync_byte ≡ o)

-- The calls of a setup by its value: a success has sent the byte, a failure has not tried to, or
-- could not.
abbrev pub SetUp : Machine → World → List Call → Result (Unit {0}) → Type 0
SetUp m w made (ok _) = Sends m w made (done tt)
SetUp m w made (err e) =
    All (λ c. is_setup_call c ≡ true) made ⊎ (n : ℕ) × Sends m w made (failed n)

module _ (m : Machine) (w : World) where
  -- A value and the world behind it, after the calls of a setup.
  abbrev Settles : Result (Unit {0}) × World → Type 0
  Settles (r, w') = (made : List Call) × (w'.calls ≡ w.calls ++ made) × SetUp m w made r

  send-Settles :
      (w' : World) (before : List Call) (o : Outcome (Unit {0}))
      → w'.calls ≡ w.calls ++ before
      → All (λ c. is_setup_call c ≡ true) before
      → m.answer w'.calls write_sync_byte ≡ o
      → Settles (
          proceed
            (with_context failed_to_signal_child (to_result o))
            (λ _. pure tt)
            m
            (after w' write_sync_byte))
  send-Settles w' before (done _) e all a = (
    before ++ write_sync_byte ∷ [],
    rw e (append_assoc w.calls before (write_sync_byte ∷ [])),
    (before, refl, all, rw e at a),
  )
  send-Settles w' before (failed n) e all a = (
    before ++ write_sync_byte ∷ [],
    rw e (append_assoc w.calls before (write_sync_byte ∷ [])),
    inr (n, (before, refl, all, rw e at a)),
  )

  signal-Settles :
      (r : Result (Unit {0})) (w' : World) (made : List Call)
      → w'.calls ≡ w.calls ++ made
      → All (λ c. is_setup_call c ≡ true) made
      → Settles
          (proceed r (λ _. within failed_to_signal_child (call write_sync_byte) >> pure tt) m w')
  unfolding call
  signal-Settles (err e) w' made same all = (made, same, inl all)
  signal-Settles (ok _) w' made same all =
      send-Settles w' made (m.answer w'.calls write_sync_byte) same all refl

  signal_child-Settles :
      (child : ℕ) (w' : World) (made : List Call)
      → w'.calls ≡ w.calls ++ made
      → All (λ c. is_setup_call c ≡ true) made
      → Settles (signal_child child m w')
  unfolding signal_child
  signal_child-Settles child w' made same all =
      let forward = within failed_to_setup_forwarding (setup_signal_forwarding child) in
      let (more, e, all') = (setup_signal_forwarding-SetsUp child).calls_of m w' in
      signal-Settles (forward m w').0 (forward m w').1 (made ++ more)
        (e ∙ (ap (λ cs. cs ++ more) same ∙ append_assoc w.calls made more))
        (All-append (λ c. is_setup_call c ≡ true) made more all all')

  after_setup_child-Settles :
      (child : ℕ) (r : Result (Option Cgroup)) (w' : World) (made : List Call)
      → w'.calls ≡ w.calls ++ made
      → All (λ c. is_setup_call c ≡ true) made
      → let ended = after_setup_child child m (r, w') in Settles (ended.0.1, ended.1)
  unfolding after_setup_child
  after_setup_child-Settles child (err e) w' made same all = (made, same, inl all)
  after_setup_child-Settles child (ok cg) w' made same all =
      signal_child-Settles child w' made same all

  -- Whatever the machine answers, the setup only maps ids, handles the cgroup and installs signal
  -- handlers, until it sends the byte as its last call; its value is `ok` exactly if the byte was
  -- sent.
  pub setup-Settles :
      (runtime : RuntimeConfig) (child : ℕ)
      → let ended = setup runtime child m w in Settles (ended.0.1, ended.1)
  unfolding setup
  setup-Settles runtime child =
      let (made, e, all) = (setup_child-SetsUp runtime child).calls_of m w in
      after_setup_child-Settles child (setup_child runtime child m w).0
        (setup_child runtime child m w).1 made e all
