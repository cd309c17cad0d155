-- ===== src/Namespace/Joins.antt =====
-- What `setup_cgroup` of src/namespace.rs leaves behind.
use mathlib.Core.Path.{subst}
use boxed.Prelude.{
  ℕ, ◌≡◌, refl, ◌∙◌, ap, sym, ◌⊎◌, inl, inr, Bool-cases, true, false, List, [], ◌∷◌, ◌++◌,
  append_assoc, append-nil, Option, none, some,
}
use boxed.Text.{codes, join_path}
use boxed.Text.Decimal.{to_string}
use boxed.Error.{
  os, context, Result, ok, err, with_context, failed_to_add_process, failed_to_remove_cgroup,
}
use boxed.Kernel.{
  Call, Outcome, done, failed, to_result, Machine, World, call, pure, attempt, proceed, ◌>>=◌,
  write_file, remove_dir,
}
use boxed.Kernel.Script.{after}
use boxed.Cgroups.Config.{CgroupConfig, is_noop}
use boxed.Cgroups.Create.{Cgroup, cgroup_path, create, add_process, destroy}
use boxed.Cgroups.Create.Calls.{create-calls}
use boxed.Namespace.{RuntimeConfig, drop_cgroup, keep_cgroup, setup_cgroup}

-- The removal of the cgroup, if there is one.
abbrev pub cgroup_calls : Option Cgroup → List Call
cgroup_calls none = []
cgroup_calls (some cg) = remove_dir cg.path ∷ []

pub drop_cgroup-calls :
    (cg : Option Cgroup) (m : Machine) (w : World)
    → (drop_cgroup cg m w).1.calls ≡ w.calls ++ cgroup_calls cg
unfolding drop_cgroup destroy call
drop_cgroup-calls none m w = sym (append-nil w.calls)
drop_cgroup-calls (some cg) m w = go (m.answer w.calls (remove_dir cg.path))
  where
    go :
        (o : Outcome (Unit {0}))
        → (proceed
            (with_context (failed_to_remove_cgroup cg.path) (to_result o))
            (λ _. pure tt)
            m
            (after w (remove_dir cg.path))).1.calls
          ≡ w.calls ++ remove_dir cg.path ∷ []
    go (done _) = refl
    go (failed n) = refl

-- The call that puts a process into its cgroup.
abbrev pub join_call : ℕ → Call
join_call pid = write_file (join_path (cgroup_path pid) (codes "cgroup.procs")) (to_string pid)

-- How the setup of a cgroup ends: with none, if there is nothing to limit; with a cgroup that the
-- process has joined; with the error of the creation; or with that of the join, and then the
-- directory is removed.
abbrev pub JoinsOrDrops :
    CgroupConfig → ℕ → Machine → World → Result (Option Cgroup) × World → Type 0
JoinsOrDrops limits pid m w (ok none, w') = (is_noop limits ≡ true) × (w' ≡ w)
JoinsOrDrops limits pid m w (ok (some cg), w') =
    (is_noop limits ≡ false)
    × (cg.path ≡ cgroup_path pid)
    × (v : World) × (create pid limits m w ≡ (ok cg, v))
    × (m.answer v.calls (join_call pid) ≡ done tt)
    × (w' ≡ after v (join_call pid))
JoinsOrDrops limits pid m w (err e, w') =
    (is_noop limits ≡ false)
    × ((create pid limits m w ≡ (err e, w'))
        ⊎ (cg : Cgroup) × (v : World) × (n : ℕ) × (create pid limits m w ≡ (ok cg, v))
          × (m.answer v.calls (join_call pid) ≡ failed n)
          × (e ≡ context failed_to_add_process (os n))
          × (w'.calls ≡ v.calls ++ join_call pid ∷ remove_dir (cgroup_path pid) ∷ []))

module _ (runtime : RuntimeConfig) (pid : ℕ) (m : Machine) (w : World) where
  added :
      (v : World) (o : Outcome (Unit {0}))
      → is_noop runtime.limits ≡ false
      → (let cg : Cgroup = record { path = cgroup_path pid } in
          create pid runtime.limits m w ≡ (ok cg, v))
      → m.answer v.calls (join_call pid) ≡ o
      → JoinsOrDrops runtime.limits pid m w (
          let (r, v') =
            proceed
              (with_context failed_to_add_process (to_result o))
              (λ _. pure tt)
              m
              (after v (join_call pid)) in
          keep_cgroup (record { path = cgroup_path pid }) r m v')
  unfolding keep_cgroup drop_cgroup
  added v (done _) limited made answer = (limited, refl, v, made, answer, refl)
  added v (failed n) limited made answer =
      let cg : Cgroup = record { path = cgroup_path pid } in
      (
        limited,
        inr (
          cg,
          v,
          n,
          made,
          answer,
          refl,
          drop_cgroup-calls (some cg) m (after v (join_call pid))
              ∙ append_assoc v.calls (join_call pid ∷ []) (remove_dir (cgroup_path pid) ∷ []),
        ),
      )

  created :
      (c : Result Cgroup) (v : World)
      → is_noop runtime.limits ≡ false
      → create pid runtime.limits m w ≡ (c, v)
      → JoinsOrDrops runtime.limits pid m w
          (proceed c (λ cg. attempt (add_process cg pid) >>= keep_cgroup cg) m v)
  unfolding add_process call
  created (err e) v limited made = (limited, inl made)
  created (ok cg) v limited made =
      let (content, line, more, answer, enabled, calls, devices, same) =
        create-calls m w pid runtime.limits (ap (λ (p : Result Cgroup × World). p.0) made) in
      subst
        (λ (g : Cgroup).
          create pid runtime.limits m w ≡ (ok g, v)
          → JoinsOrDrops runtime.limits pid m w
              ((attempt (add_process g pid) >>= keep_cgroup g) m v))
        (sym same) (λ made'. added v (m.answer v.calls (join_call pid)) limited made' refl) made

-- The setup of a cgroup ends with none exactly where no limit is set, and then makes no call; with a
-- cgroup only if the process has joined it; and if the join fails, its directory is removed. An
-- error is that of the creation or of the join.
pub setup_cgroup-JoinsOrDrops :
    (runtime : RuntimeConfig) (pid : ℕ) (m : Machine) (w : World)
    → JoinsOrDrops runtime.limits pid m w (setup_cgroup runtime pid m w)
unfolding setup_cgroup
setup_cgroup-JoinsOrDrops runtime pid m w = elim (Bool-cases (is_noop runtime.limits)) [
  | inl unlimited ↦ rw unlimited (unlimited, refl)
  | inr limited ↦ rw limited (
      created runtime pid m w (create pid runtime.limits m w).0 (create pid runtime.limits m w).1
        limited refl)
]
