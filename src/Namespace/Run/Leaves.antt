-- ===== src/Namespace/Run/Leaves.antt =====
-- What the closure `setup` of `run_in_namespace` in src/namespace.rs gives, step by step.
use boxed.Prelude.{ℕ, ◌≡◌, refl, ◌⊎◌, inl, inr, Option, none}
use boxed.Error.{
  Error, os, context, Result, ok, err, with_context, failed_to_setup_forwarding,
  failed_to_signal_child,
}
use boxed.Kernel.{
  Outcome, done, failed, to_result, Machine, World, call, pure, within, proceed, ◌>>◌,
  write_sync_byte,
}
use boxed.Kernel.Script.{after}
use boxed.Rootless.{setup_mappings}
use boxed.Cgroups.Create.{Cgroup}
use boxed.Process.{setup_signal_forwarding}
use boxed.Namespace.{RuntimeConfig, setup_cgroup}
use boxed.Namespace.Run.{Setup, setup_child, signal_child, after_setup_child, setup}

module _ (runtime : RuntimeConfig) (child : ℕ) (m : Machine) (w : World) where
  -- The ids are mapped, then the cgroup is set up, then the signals are forwarded.
  abbrev mapped : Result (Unit {0}) × World
  mapped = setup_mappings runtime.rootless child m w

  abbrev limited : Result (Option Cgroup) × World
  limited = setup_cgroup runtime child m mapped.1

  abbrev forwards : Result (Unit {0}) × World
  forwards = setup_signal_forwarding child m limited.1

  -- Every step of the setup succeeds, the write of the byte is done, and the cgroup is `cg`.
  abbrev pub Completes : Option Cgroup → Type 0
  Completes cg =
      (mapped.0 ≡ ok tt)
      × (limited.0 ≡ ok cg)
      × (forwards.0 ≡ ok tt)
      × (m.answer forwards.1.calls write_sync_byte ≡ done tt)

  -- The cgroup and the value that the setup leaves: the error is that of the first step that fails,
  -- and there is no cgroup to remove before that step has succeeded.
  abbrev pub Leaves : Option Cgroup → Result (Unit {0}) → Type 0
  Leaves cg (ok _) = Completes cg
  Leaves cg (err e) =
      ((mapped.0 ≡ err e) × (cg ≡ none))
      ⊎ ((mapped.0 ≡ ok tt) × (limited.0 ≡ err e) × (cg ≡ none))
      ⊎ ((mapped.0 ≡ ok tt)
          × (limited.0 ≡ ok cg)
          × (e' : Error) × (forwards.0 ≡ err e')
          × (e ≡ context failed_to_setup_forwarding e'))
      ⊎ ((mapped.0 ≡ ok tt)
          × (limited.0 ≡ ok cg)
          × (forwards.0 ≡ ok tt)
          × (n : ℕ) × (m.answer forwards.1.calls write_sync_byte ≡ failed n)
          × (e ≡ context failed_to_signal_child (os n)))

  abbrev LeavesOf : Setup × World → Type 0
  LeavesOf ((cg, value), v) = Leaves cg value

  send-Leaves :
      (cg : Option Cgroup) (o : Outcome (Unit {0}))
      → mapped.0 ≡ ok tt
      → limited.0 ≡ ok cg
      → forwards.0 ≡ ok tt
      → m.answer forwards.1.calls write_sync_byte ≡ o
      → Leaves cg
          (proceed
            (with_context failed_to_signal_child (to_result o))
            (λ _. pure tt)
            m
            (after forwards.1 write_sync_byte)).0
  send-Leaves cg (done _) p q r s = (p, q, r, s)
  send-Leaves cg (failed n) p q r s = inr (inr (inr (p, q, r, n, s, refl)))

  forward-Leaves :
      (cg : Option Cgroup) (f : Result (Unit {0}))
      → mapped.0 ≡ ok tt
      → limited.0 ≡ ok cg
      → forwards.0 ≡ f
      → Leaves cg
          (proceed
            (with_context failed_to_setup_forwarding f)
            (λ _. within failed_to_signal_child (call write_sync_byte) >> pure tt)
            m
            forwards.1).0
  unfolding call
  forward-Leaves cg (err e) p q r = inr (inr (inl (p, q, e, r, refl)))
  forward-Leaves cg (ok _) p q r =
      send-Leaves cg (m.answer forwards.1.calls write_sync_byte) p q r refl

  limit-Leaves :
      (c : Result (Option Cgroup))
      → mapped.0 ≡ ok tt
      → limited.0 ≡ c
      → LeavesOf (after_setup_child child m (c, limited.1))
  unfolding after_setup_child signal_child
  limit-Leaves (err e) p q = inr (inl (p, q, refl))
  limit-Leaves (ok cg) p q = forward-Leaves cg forwards.0 p q refl

  map-Leaves :
      (r : Result (Unit {0}))
      → mapped.0 ≡ r
      → LeavesOf
          (after_setup_child child m (proceed r (λ _. setup_cgroup runtime child) m mapped.1))
  unfolding after_setup_child
  map-Leaves (err e) p = inl (p, refl)
  map-Leaves (ok _) p = limit-Leaves limited.0 p refl

  pub setup-Leaves : LeavesOf (setup runtime child m w)
  unfolding setup setup_child
  setup-Leaves = map-Leaves mapped.0 refl
