-- ===== src/Namespace/Run/Trace.antt =====
-- The calls of `run_in_namespace` of src/namespace.rs, from the pipe to the return.
use mathlib.Core.Option
use mathlib.Core.Path.{subst}
use boxed.Prelude.{
  ℕ, ◌≡◌, refl, ◌∙◌, ap, sym, ◌⊎◌, inl, inr, Bool, true, false, List, [], ◌∷◌, ◌++◌, append_assoc,
  append-nil, Bool-cases, if◌then◌else◌, Option, none, some, some_injective,
}
use boxed.Types.{CloneFlag}
use boxed.Text.{codes, join_path}
use boxed.Error.{os, context, Result, ok, err, with_context, failed_to_create_pipe, clone_failed}
use boxed.Kernel.{
  Call, Outcome, done, failed, to_result, Machine, World, call, attempt, proceed, ◌>>=◌, pipe2,
  clone, drop_write_fd, set_permissions, remove_dir_all,
}
use boxed.Kernel.Script.{after}
use boxed.Cgroups.Config.{is_some}
use boxed.Cgroups.Create.{Cgroup}
use boxed.Rootless.{RootlessConfig}
use boxed.Overlay.{get_overlay_root}
use boxed.Overlay.Mount.{tolerated, teardown_lem}
use boxed.Process.{wait_for_child}
use boxed.Process.Wait.{Loops, WaitGoesOn, WaitReturns, wait_for_child-Loops}
use boxed.Namespace.{RuntimeConfig, runtime_config, build_clone_flags}
use boxed.Namespace.Joins.{cgroup_calls, drop_cgroup-calls}
use boxed.Namespace.Run.{
  RunOptions, spawn_child, keep_pipe, launch, setup, overlay_teardown, conclude, supervise,
  after_launch, run_in_namespace,
}
use boxed.Namespace.Run.Setup.{SetUp, setup-Settles}
use boxed.Namespace.Run.Leaves.{Leaves, setup-Leaves}

-- The runtime of a run.
abbrev pub runtime_of : RunOptions → RootlessConfig → RuntimeConfig
runtime_of opts rootless = record {
  limits = opts.limits;
  flags = build_clone_flags rootless.enabled;
  rootless = rootless;
}

-- The teardown of the overlay, if there is one, behind the calls `before`: the directory of overlayfs
-- in the scratch directory of the run is made readable, and unless that fails on a directory that
-- is there, the scratch directory is removed.
abbrev pub TeardownCalls : Bool → Machine → List Call → List Call → Type 0
TeardownCalls true m before cs =
    let root = get_overlay_root m.pid m.temp_dir in
    let readable =
      set_permissions (join_path (join_path root (codes "work")) (codes "work")) 0o700 in
    cs ≡ readable ∷ (if tolerated (m.answer before readable) then remove_dir_all root ∷ [] else [])
TeardownCalls false m before cs = cs ≡ []

-- How the run ends, from the value of the setup and of the wait: a failed setup is the result, and
-- only the cgroup is removed; otherwise the result is that of the wait, and the overlay goes first.
abbrev pub Concludes :
    Bool
    → Machine
    → List Call
    → Option Cgroup
    → Result (Unit {0})
    → Result ℕ
    → Result ℕ
    → List Call
    → Type 0
Concludes overlay m before cg (err e) exit r last = (r ≡ err e) × (last ≡ cgroup_calls cg)
Concludes overlay m before cg (ok _) exit r last =
    (r ≡ exit)
    × (torn : List Call) × TeardownCalls overlay m before torn
    × (last ≡ torn ++ cgroup_calls cg)

-- A run with a child, by its calls: the pipe, the clone, the setup, the drop of the write end, the
-- wait for the child up to its end at the world `waited`, and the removals.
pub record Supervised (runtime : RuntimeConfig) (overlay : Bool) (m : Machine) (w : World)
    (r : Result ℕ) (w' : World) : Type 0 where
  pub child : ℕ
  pub launched : m.answer (w.calls ++ pipe2 ∷ []) (clone runtime.flags) ≡ done child
  pub cgroup : Option Cgroup
  pub value : Result (Unit {0})
  pub set : List Call
  pub set_up : SetUp m (after (after w pipe2) (clone runtime.flags)) set value
  pub leaves : Leaves runtime child m (after (after w pipe2) (clone runtime.flags)) cgroup value
  pub dropped : World
  pub dropped_calls :
      dropped.calls ≡ w.calls ++ pipe2 ∷ clone runtime.flags ∷ (set ++ drop_write_fd ∷ [])
  pub exit : Result ℕ
  pub waited : World
  pub waits : Loops (some child) WaitGoesOn WaitReturns m exit waited dropped
  pub last : List Call
  pub last_calls : w'.calls ≡ waited.calls ++ last
  pub concludes : Concludes overlay m waited.calls cgroup value exit r last

-- A run without a child: the pipe could not be made, or the clone failed and the write end is dropped.
abbrev pub NotLaunched : List CloneFlag → Machine → World → Result ℕ → World → Type 0
NotLaunched flags m w r w' =
    ((n : ℕ) × (r ≡ err (context failed_to_create_pipe (os n)))
      × (w'.calls ≡ w.calls ++ pipe2 ∷ []))
    ⊎ ((n : ℕ) × (r ≡ err (context clone_failed (os n)))
        × (w'.calls ≡ w.calls ++ pipe2 ∷ clone flags ∷ drop_write_fd ∷ []))

overlay_teardown-calls :
    (overlay : Bool) (m : Machine) (w : World)
    → (torn : List Call) × TeardownCalls overlay m w.calls torn
      × ((overlay_teardown overlay m w).1.calls ≡ w.calls ++ torn)
unfolding overlay_teardown
overlay_teardown-calls true m w =
    let root = get_overlay_root m.pid m.temp_dir in
    let readable =
      set_permissions (join_path (join_path root (codes "work")) (codes "work")) 0o700 in
    elim (Bool-cases (tolerated (m.answer w.calls readable))) [
      | inl gone ↦ (
        readable ∷ remove_dir_all root ∷ [],
        rw gone refl,
        rw (teardown_lem, gone) (append_assoc w.calls _ _),
      )
      | inr kept ↦ (readable ∷ [], rw kept refl, rw (teardown_lem, kept) refl)
    ]
overlay_teardown-calls false m w = ([], refl, sym (append-nil w.calls))

conclude-Concludes :
    (overlay : Bool) (cg : Option Cgroup) (value : Result (Unit {0})) (exit : Result ℕ)
    (m : Machine) (w : World)
    → let (r, w') = conclude overlay (cg, value) m (exit, w) in
      (last : List Call) × (w'.calls ≡ w.calls ++ last)
      × Concludes overlay m w.calls cg value exit r last
unfolding conclude
conclude-Concludes overlay cg (err e) exit m w =
    (cgroup_calls cg, drop_cgroup-calls cg m w, (refl, refl))
conclude-Concludes overlay cg (ok _) exit m w =
    let (torn, all, e) = overlay_teardown-calls overlay m w in
    (
      torn ++ cgroup_calls cg,
      drop_cgroup-calls cg m (overlay_teardown overlay m w).1
          ∙ (ap (λ cs. cs ++ cgroup_calls cg) e ∙ append_assoc w.calls torn (cgroup_calls cg)),
      (refl, torn, all, refl),
    )

some-of_map :
    {A B : Type 0} (f : A → B) (o : Option A) {b : B}
    → Option.map f o ≡ some b
    → (a : A) × (o ≡ some a) × (f a ≡ b)
some-of_map f none h = cc
some-of_map f (some a) h = (a, refl, some_injective h)

-- What `launch` gives.
abbrev Launched : List CloneFlag → Machine → World → Result ℕ × World → Type 0
Launched flags m w (ok child, w') =
    (m.answer (w.calls ++ pipe2 ∷ []) (clone flags) ≡ done child)
    × (w' ≡ after (after w pipe2) (clone flags))
Launched flags m w (err e, w') = NotLaunched flags m w (err e) w'

module _ (runtime : RuntimeConfig) (m : Machine) (w : World) where
  keep_pipe-Launched :
      (o : Outcome ℕ)
      → m.answer (w.calls ++ pipe2 ∷ []) (clone runtime.flags) ≡ o
      → Launched runtime.flags m w (
          keep_pipe
            (with_context clone_failed (to_result o))
            m
            (after (after w pipe2) (clone runtime.flags)))
  unfolding keep_pipe call
  keep_pipe-Launched (done child) e = (e, refl)
  keep_pipe-Launched (failed n) e = inr (n, refl, simp append_assoc)

  pipe-Launched :
      (o : Outcome (Unit {0}))
      → Launched runtime.flags m w (
          proceed
            (with_context failed_to_create_pipe (to_result o))
            (λ _. attempt (spawn_child runtime) >>= keep_pipe)
            m
            (after w pipe2))
  unfolding spawn_child call
  pipe-Launched (done _) =
      keep_pipe-Launched (m.answer (w.calls ++ pipe2 ∷ []) (clone runtime.flags)) refl
  pipe-Launched (failed n) = inl (n, refl, refl)

  launch-Launched : Launched runtime.flags m w (launch runtime m w)
  unfolding launch call
  launch-Launched = pipe-Launched (m.answer w.calls pipe2)

  supervise-Supervised :
      (fuel : ℕ) (overlay : Bool) (child : ℕ) (r : Result ℕ) (w' : World)
      → m.answer (w.calls ++ pipe2 ∷ []) (clone runtime.flags) ≡ done child
      → (let v = after (after w pipe2) (clone runtime.flags) in
          supervise fuel overlay child m (setup runtime child m v) ≡ some (r, w'))
      → Supervised runtime overlay m w r w'
  unfolding supervise call
  supervise-Supervised fuel overlay child r w' launched h =
      let v = after (after w pipe2) (clone runtime.flags) in
      let (set, e, set_up) = setup-Settles m v runtime child in
      let ((cg, value), behind) = setup runtime child m v in
      let dropped = after behind drop_write_fd in
      let ((exit, waited), returned, concluded) =
        some-of_map (conclude overlay (cg, value) m) (wait_for_child child fuel m dropped) h in
      let (last, last_calls, concludes) =
        subst
          (λ (p : Result ℕ × World).
            (last : List Call) × (p.1.calls ≡ waited.calls ++ last)
            × Concludes overlay m waited.calls cg value exit p.0 last)
          concluded (conclude-Concludes overlay cg value exit m waited) in
      record {
        child = child;
        launched = launched;
        cgroup = cg;
        value = value;
        set = set;
        set_up = set_up;
        leaves = setup-Leaves runtime child m v;
        dropped = dropped;
        dropped_calls = rw e (simp append_assoc);
        exit = exit;
        waited = waited;
        waits = (wait_for_child-Loops m child dropped waited exit).0 fuel returned;
        last = last;
        last_calls = last_calls;
        concludes = concludes;
      }

  after_launch-Supervised :
      (fuel : ℕ) (overlay : Bool) (l : Result ℕ) (v : World) (r : Result ℕ) (w' : World)
      → Launched runtime.flags m w (l, v)
      → after_launch fuel runtime overlay m (l, v) ≡ some (r, w')
      → NotLaunched runtime.flags m w r w' ⊎ Supervised runtime overlay m w r w'
  unfolding after_launch
  after_launch-Supervised fuel overlay (err e) v r w' not_launched h = inl (
      subst (λ (p : Result ℕ × World). NotLaunched runtime.flags m w p.0 p.1) (some_injective h)
        not_launched)
  after_launch-Supervised fuel overlay (ok child) v r w' (launched, same) h =
      inr (supervise-Supervised fuel overlay child r w' launched (rw same at h))

-- A run that returns has launched no child, and returns the error of the pipe or of the clone; or it
-- has set the child up, dropped the write end of the pipe, waited for the child to its end, and
-- then removed what was made. The setup succeeds exactly if the ids are mapped, the cgroup is set
-- up, the signals are forwarded and the byte is sent; then the result is that of the wait, and
-- otherwise the error of the first of these that fails. If the setup succeeded and the run has an
-- image, the scratch directory of its overlay is removed, unless the directory of overlayfs in it
-- is there and cannot be made readable; and last of all the cgroup that the setup has left is
-- removed, if there is one.
pub run_in_namespace-Supervised :
    (fuel : ℕ) (opts : RunOptions) (rootless : RootlessConfig) (m : Machine) (w : World)
    (r : Result ℕ) (w' : World)
    → run_in_namespace fuel opts rootless m w ≡ some (r, w')
    → NotLaunched (build_clone_flags rootless.enabled) m w r w'
      ⊎ Supervised (runtime_of opts rootless) (is_some opts.image) m w r w'
unfolding run_in_namespace runtime_config
run_in_namespace-Supervised fuel opts rootless m w r w' h =
    let runtime = runtime_config opts.limits rootless in
    after_launch-Supervised runtime m w fuel (is_some opts.image) (launch runtime m w).0
      (launch runtime m w).1 r w' (launch-Launched runtime m w) h
