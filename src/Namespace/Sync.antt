-- ===== src/Namespace/Sync.antt =====
-- The handshake of src/namespace.rs between `run_in_namespace`, the parent, and
-- `ChildContext::enter`, the child, on the sync pipe. After clone both hold the write end.
use boxed.Prelude.{
  ℕ, zero, suc, ◌≡◌, refl, ap, inl, inr, Bool, true, false, ◌&&◌, ◌||◌, Option, none, some,
  if◌then◌else◌, arith, Bool-cases,
}
use mathlib.Core.Path.{subst}

-- Where the parent is: in the `setup` block, behind it with its result, behind `drop(write_fd)`,
-- and behind `wait_for_child`. The result tells whether the setup succeeded.
pub data ParentAt : Type 0 where
  setting_up : ParentAt
  set_up : Bool → ParentAt
  waiting : Bool → ParentAt
  returned : Bool → ParentAt

-- Where the child is: before it drops its copy of the write end, at the read, behind the read with
-- a byte, and exited, with whether it came past the read.
pub data ChildAt : Type 0 where
  cloned : ChildAt
  reading : ChildAt
  running : ChildAt
  exited : Bool → ChildAt

-- The two, whether the parent's end and the child's copy of the write end are open, and the number
-- of bytes in the pipe.
pub data Sync : Type 0 where
  sync : ParentAt → ChildAt → Bool → Bool → ℕ → Sync

pub data Event : Type 0 where
  -- The steps of the parent.
  setup_succeeds setup_fails drop_write_fd wait_returns : Event
  -- The steps of the child.
  drop_copy read_returns read_fails enter_returns : Event

abbrev pub initial : Sync
initial = sync setting_up cloned true true 0

-- `setup_succeeds` includes the write of the byte, which is its last call.
unfoldable pub parent_step : Event → Sync → Option Sync
parent_step setup_succeeds (sync setting_up c pe ce n) = some (sync (set_up true) c pe ce (suc n))
parent_step setup_fails (sync setting_up c pe ce n) = some (sync (set_up false) c pe ce n)
parent_step drop_write_fd (sync (set_up r) c pe ce n) = some (sync (waiting r) c false ce n)
parent_step wait_returns (sync (waiting r) (exited b) pe ce n) =
    some (sync (returned r) (exited b) pe ce n)
parent_step _ _ = none

-- A read of an empty pipe blocks while a write end is open, and returns 0 bytes otherwise.
unfoldable pub read_sync : ParentAt → Bool → Bool → ℕ → Option Sync
read_sync p pe ce zero = if pe || ce then none else some (sync p (exited false) pe ce 0)
read_sync p pe ce (suc n) = some (sync p running pe ce n)

unfoldable pub child_step : Event → Sync → Option Sync
child_step drop_copy (sync p cloned pe ce n) = some (sync p reading pe false n)
child_step read_returns (sync p reading pe ce n) = read_sync p pe ce n
child_step read_fails (sync p reading pe ce n) = some (sync p (exited false) pe ce n)
child_step enter_returns (sync p running pe ce n) = some (sync p (exited true) pe ce n)
child_step _ _ = none

unfoldable pub sync_step : Event → Sync → Option Sync
sync_step setup_succeeds s = parent_step setup_succeeds s
sync_step setup_fails s = parent_step setup_fails s
sync_step drop_write_fd s = parent_step drop_write_fd s
sync_step wait_returns s = parent_step wait_returns s
sync_step drop_copy s = child_step drop_copy s
sync_step read_returns s = child_step read_returns s
sync_step read_fails s = child_step read_fails s
sync_step enter_returns s = child_step enter_returns s

-- The states that some interleaving of the two reaches.
pub data Reachable : Sync → Type 0 where
  start : Reachable initial
  next : {s s' : Sync} (e : Event) → Reachable s → sync_step e s ≡ some s' → Reachable s'

-- The setup has succeeded; the child has come past the read.
abbrev pub succeeded : ParentAt → Bool
succeeded setting_up = false
succeeded (set_up r) = r
succeeded (waiting r) = r
succeeded (returned r) = r

abbrev pub entered : ChildAt → Bool
entered cloned = false
entered reading = false
entered running = true
entered (exited b) = b

abbrev holds_end : ParentAt → Bool
holds_end setting_up = true
holds_end (set_up r) = true
holds_end (waiting r) = false
holds_end (returned r) = false

abbrev holds_copy : ChildAt → Bool
holds_copy cloned = true
holds_copy reading = false
holds_copy running = false
holds_copy (exited b) = false

abbrev sent : Bool → ℕ
sent true = 1
sent false = 0

abbrev is_returned : ParentAt → Bool
is_returned (returned r) = true
is_returned _ = false

abbrev is_exited : ChildAt → Bool
is_exited (exited b) = true
is_exited _ = false

-- The pipe's ends and bytes follow from where the two are, the child has a byte only from a
-- parent whose setup succeeded, and the parent has returned only behind the child's exit.
abbrev Synced : Sync → Type 0
Synced (sync p c pe ce n) =
    (pe ≡ holds_end p)
    × (ce ≡ holds_copy c)
    × (entered c ≡ false → n ≡ sent (succeeded p))
    × (entered c ≡ true → succeeded p ≡ true)
    × (is_returned p ≡ true → is_exited c ≡ true)

-- The state behind a step is the one that it computed.
becomes : {a s' : Sync} → some a ≡ some s' → Synced a → Synced s'
becomes {a} {s'} h v = subst Synced (some_inj h) v
  where
    some_inj : some a ≡ some s' → a ≡ s'
    some_inj e = cc

sent-succeeded : (b : Bool) (n : ℕ) → suc n ≡ sent b → b ≡ true
sent-succeeded true n h = refl
sent-succeeded false n h = absurd (omega arith)

parent_step-Synced : (e : Event) (s s' : Sync) → Synced s → parent_step e s ≡ some s' → Synced s'
unfolding parent_step
parent_step-Synced setup_succeeds (sync setting_up c pe ce n) s' (e, e', b, d, w) h =
    becomes h (e, e', (λ q. ap suc (b q)), (λ q. refl), w)
parent_step-Synced setup_fails (sync setting_up c pe ce n) s' (e, e', b, d, w) h =
    becomes h (e, e', b, d, w)
parent_step-Synced drop_write_fd (sync (set_up r) c pe ce n) s' (e, e', b, d, w) h =
    becomes h (refl, e', b, d, w)
parent_step-Synced wait_returns (sync (waiting r) (exited x) pe ce n) s' (e, e', b, d, w) h =
    becomes h (e, e', b, d, λ q. refl)
parent_step-Synced e s s' v h = cc

child_step-Synced : (e : Event) (s s' : Sync) → Synced s → child_step e s ≡ some s' → Synced s'
unfolding child_step read_sync
child_step-Synced drop_copy (sync p cloned pe ce n) s' (e, e', b, d, w) h =
    becomes h (e, refl, b, d, w)
child_step-Synced read_returns (sync p reading pe ce zero) s' (e, e', b, d, w) h =
    elim (Bool-cases (pe || ce)) [
      | inl held ↦ cc
      | inr closed ↦ becomes (rw closed at h) (e, e', b, (λ q. cc), λ q. refl)
    ]
child_step-Synced read_returns (sync p reading pe ce (suc n)) s' (e, e', b, d, w) h =
    becomes h (e, e', (λ q. cc), (λ q. sent-succeeded (succeeded p) n (b refl)), w)
child_step-Synced read_fails (sync p reading pe ce n) s' (e, e', b, d, w) h =
    becomes h (e, e', b, (λ q. cc), λ q. refl)
child_step-Synced enter_returns (sync p running pe ce n) s' (e, e', b, d, w) h =
    becomes h (e, e', (λ q. cc), (λ q. d refl), λ q. refl)
child_step-Synced e s s' v h = cc

sync_step-Synced : (e : Event) (s s' : Sync) → Synced s → sync_step e s ≡ some s' → Synced s'
unfolding sync_step
sync_step-Synced setup_succeeds s s' v h = parent_step-Synced setup_succeeds s s' v h
sync_step-Synced setup_fails s s' v h = parent_step-Synced setup_fails s s' v h
sync_step-Synced drop_write_fd s s' v h = parent_step-Synced drop_write_fd s s' v h
sync_step-Synced wait_returns s s' v h = parent_step-Synced wait_returns s s' v h
sync_step-Synced drop_copy s s' v h = child_step-Synced drop_copy s s' v h
sync_step-Synced read_returns s s' v h = child_step-Synced read_returns s s' v h
sync_step-Synced read_fails s s' v h = child_step-Synced read_fails s s' v h
sync_step-Synced enter_returns s s' v h = child_step-Synced enter_returns s s' v h

Reachable-Synced : (s : Sync) → Reachable s → Synced s
Reachable-Synced _ start = (refl, refl, (λ q. refl), (λ q. cc), λ q. cc)
Reachable-Synced s (next {s = before} e r h) =
    sync_step-Synced e before s (Reachable-Synced before r) h

-- In every interleaving, the child comes past the read only behind a setup of the parent that
-- succeeded, and the parent returns only behind the exit of the child.
pub Reachable-succeeded :
    (p : ParentAt) (c : ChildAt) (pe ce : Bool) (n : ℕ)
    → Reachable (sync p c pe ce n)
    → (entered c ≡ true → succeeded p ≡ true) × (is_returned p ≡ true → is_exited c ≡ true)
Reachable-succeeded p c pe ce n r =
    let (e, e', b, d, w) = Reachable-Synced (sync p c pe ce n) r in (d, w)

abbrev pub is_finished : Sync → Bool
is_finished (sync p c pe ce n) = is_returned p && is_exited c

abbrev Steps : Sync → Type 0
Steps s = (e : Event) × (s' : Sync) × (sync_step e s ≡ some s')
