-- ===== src/Cgroups/Create/Limits.antt =====
-- The calls of `Cgroup::create` of src/cgroups.rs that set the limits.
use mathlib.Core.Path.{subst}
use boxed.Prelude.{◌≡◌, refl, ◌∙◌, ap, List, ◌++◌, append_assoc, Option}
use boxed.Text.{Text, codes}
use boxed.Text.Decimal.{to_string}
use boxed.Error.{Error, Result, ok, err}
use boxed.Kernel.{Call, Machine, World, Io, call, ◌>>◌, for_some}
use boxed.Kernel.Ensures.{Exactly, Exactly-for_some, option_calls, proceed-ok}
use boxed.Cgroups.Config.{CgroupConfig}
use boxed.Cgroups.Create.{
  write_controller, explain_rejection, handle_cpuset_write_error, write_cpuset, write_limits,
}
use boxed.Cgroups.Create.Devices.{
  limit_call, DeviceCalls, write_controller-Exactly, write_io_max-calls,
}

-- The writes of the limits that the configuration gives, all but those of io.max.
abbrev pub limit_calls : Text → CgroupConfig → List Call
limit_calls path config =
    option_calls config.cpu_quota
      (λ quota. limit_call path (codes "cpu.max") (to_string quota ++ codes " 100000"))
    ++ (option_calls config.memory_max
          (λ memory. limit_call path (codes "memory.max") (to_string memory))
        ++ (option_calls config.pids_limit
              (λ pids. limit_call path (codes "pids.max") (to_string pids))
            ++ (option_calls config.cpuset_cpus (limit_call path (codes "cpuset.cpus"))
                ++ option_calls config.cpuset_mems (limit_call path (codes "cpuset.mems")))))

module _ (path cpuset_type value : Text) (m : Machine) where
  explain_rejection-ne-ok :
      (e : Error) (r : Result Text) {u : Unit {0}}
      → explain_rejection e path cpuset_type value r ≡ ok u
      → ⊥
  unfolding explain_rejection
  explain_rejection-ne-ok e (ok x) h = cc
  explain_rejection-ne-ok e (err x) h = cc

  handle-Exactly :
      (ret : Result (Unit {0})) (w : World) (a : Unit {0})
      → (handle_cpuset_write_error ret path cpuset_type value m w).0 ≡ ok a
      → (handle_cpuset_write_error ret path cpuset_type value m w).1 ≡ w
  unfolding handle_cpuset_write_error
  handle-Exactly (ok x) w a h = refl
  handle-Exactly (err e) w a h = absurd (explain_rejection-ne-ok e _ h)

-- A rejected write is an error, whatever the `.effective` file says.
write_cpuset-Exactly :
    (path cpuset_type value : Text)
    → Exactly
        (limit_call path (codes "cpuset." ++ cpuset_type) value)
        (write_cpuset path cpuset_type value)
unfolding write_cpuset write_controller call
write_cpuset-Exactly path cpuset_type value = record {
  ensured = λ m w a h.
      (_, ap (λ (v : World). v.calls) (handle-Exactly path cpuset_type value m _ _ a h), refl);
}

write_option-Exactly :
    {A : Type 0} (path file : Text) (o : Option A) (value : A → Text)
    → Exactly
        (option_calls o (λ a. limit_call path file (value a)))
        (for_some o (λ a. write_controller path file (value a)))
write_option-Exactly path file o value =
    Exactly-for_some o (λ a. write_controller path file (value a))
      (λ a. limit_call path file (value a)) (λ a. write_controller-Exactly path file (value a))

write_cpusets-Exactly :
    (path cpuset_type : Text) (o : Option Text)
    → Exactly
        (option_calls o (limit_call path (codes "cpuset." ++ cpuset_type)))
        (for_some o (write_cpuset path cpuset_type))
write_cpusets-Exactly path cpuset_type o =
    Exactly-for_some o (write_cpuset path cpuset_type)
      (limit_call path (codes "cpuset." ++ cpuset_type)) (write_cpuset-Exactly path cpuset_type)

-- Code behind a step that makes the calls `cs`.
behind-Exactly :
    {A B : Type 0} {cs : List Call} (io : Io A) (next : Io B) (m : Machine) (w : World) {b : B}
    → Exactly cs io
    → ((io >> next) m w).0 ≡ ok b
    → (v : World) × (v.calls ≡ w.calls ++ cs)
      × ((next m v).0 ≡ ok b)
      × ((io >> next) m w ≡ next m v)
behind-Exactly io next m w exactly h =
    let (a, p, h', e) = proceed-ok (io m w).0 (λ _. next) m (io m w).1 h in
    let (made, calls, same) = exactly.ensured m w a p in
    ((io m w).1, calls ∙ ap (λ cs. w.calls ++ cs) same, h', e)

chain_lem :
    (l a b c d e v1 v2 v3 v4 v5 : List Call)
    → v1 ≡ l ++ a
    → v2 ≡ v1 ++ b
    → v3 ≡ v2 ++ c
    → v4 ≡ v3 ++ d
    → v5 ≡ v4 ++ e
    → v5 ≡ l ++ (a ++ (b ++ (c ++ (d ++ e))))
chain_lem l a b c d e v1 v2 v3 v4 v5 e1 e2 e3 e4 e5 = rw (e5, e4, e3, e2, e1) (simp append_assoc)

pub write_limits-calls :
    (path : Text) (config : CgroupConfig) (m : Machine) (w : World)
    → (write_limits path config m w).0 ≡ ok tt
    → (last : List Call) × ((write_limits path config m w).1.calls
        ≡ w.calls ++ (limit_calls path config ++ last))
      × DeviceCalls m path config.io_max (w.calls ++ limit_calls path config) last
unfolding write_limits
write_limits-calls path config m w h =
    let (v1, c1, h1, e1) =
      behind-Exactly _ _ m w
        (write_option-Exactly path (codes "cpu.max") config.cpu_quota
          (λ quota. to_string quota ++ codes " 100000"))
        h in
    let (v2, c2, h2, e2) =
      behind-Exactly _ _ m v1
        (write_option-Exactly path (codes "memory.max") config.memory_max to_string) h1 in
    let (v3, c3, h3, e3) =
      behind-Exactly _ _ m v2
        (write_option-Exactly path (codes "pids.max") config.pids_limit to_string) h2 in
    let (v4, c4, h4, e4) =
      behind-Exactly _ _ m v3 (write_cpusets-Exactly path (codes "cpus") config.cpuset_cpus) h3 in
    let (v5, c5, h5, e5) =
      behind-Exactly _ _ m v4 (write_cpusets-Exactly path (codes "mems") config.cpuset_mems) h4 in
    let (last, calls, devices) = write_io_max-calls path config.io_max m v5 h5 in
    let limits =
      chain_lem w.calls _ _ _ _ _ v1.calls v2.calls v3.calls v4.calls v5.calls c1 c2 c3 c4 c5 in
    (
      last,
      ap (λ (x : Result (Unit {0}) × World). x.1.calls) (e1 ∙ e2 ∙ e3 ∙ e4 ∙ e5)
          ∙ calls
          ∙ ap (λ cs. cs ++ last) limits
          ∙ append_assoc w.calls (limit_calls path config) last,
      subst (λ cs. DeviceCalls m path config.io_max cs last) limits devices,
    )
