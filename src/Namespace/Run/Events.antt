-- ===== src/Namespace/Run/Events.antt =====
-- The calls of `run_in_namespace` of src/namespace.rs as steps of the parent of the handshake.
use boxed.Prelude.{
  Bool-cases, ℕ, ◌≡◌, refl, ◌∙◌, ap, sym, inl, inr, All, All-append, All-map, Bool, true, false,
  List, [], ◌∷◌, ◌++◌, append_assoc, append-nil, Option, none, some, if◌then◌else◌, ◌==◌, arith,
}
use boxed.Types.{WaitStatus}
use boxed.Error.{Result, ok, err, is_ok}
use boxed.Kernel.{
  set_permissions, Call, Outcome, done, failed, Machine, World, write_sync_byte, drop_write_fd,
  waitpid,
}
use boxed.Kernel.Script.{after}
use boxed.Cgroups.Create.{Cgroup}
use boxed.Process.{eintr}
use boxed.Process.Wait.{Loops, again, last, WaitGoesOn, WaitReturns}
use boxed.Namespace.Joins.{cgroup_calls}
use boxed.Namespace.Sync.{Event, setup_succeeds, setup_fails, wait_returns}
use boxed.Namespace.Run.Setup.{is_setup_call, SetUp, Sends}
use boxed.Text.{codes, join_path}
use boxed.Overlay.{get_overlay_root}
use boxed.Overlay.Mount.{tolerated}
use boxed.Namespace.Run.Trace.{TeardownCalls, Concludes}

abbrev pub is_done : {A : Type 0} → Outcome A → Bool
is_done (done a) = true
is_done (failed e) = false

abbrev is_interrupted : {A : Type 0} → Outcome A → Bool
is_interrupted (done a) = false
is_interrupted (failed e) = e == eintr

-- The steps of the handshake that calls are, behind the calls `before`: the write of the byte if it
-- succeeds, the drop of the write end, with the failure of a setup that has not sent the byte, and
-- a wait that is not interrupted.
unfoldable pub events : Machine → Bool → List Call → List Call → List Event
events m sent before [] = []
events m sent before (write_sync_byte ∷ cs) =
    let yes_sent = events m true (before ++ write_sync_byte ∷ []) cs in
    let not_sent = events m sent (before ++ write_sync_byte ∷ []) cs in
    if is_done (m.answer before write_sync_byte) then setup_succeeds ∷ yes_sent else not_sent
events m sent before (drop_write_fd ∷ cs) =
    let rest = events m sent (before ++ drop_write_fd ∷ []) cs in
    if sent then Event.drop_write_fd ∷ rest else setup_fails ∷ Event.drop_write_fd ∷ rest
events m sent before (waitpid child ∷ cs) =
    let rest = events m sent (before ++ waitpid child ∷ []) cs in
    if is_interrupted (m.answer before (waitpid child)) then rest else wait_returns ∷ rest
events m sent before (c ∷ cs) = events m sent (before ++ c ∷ []) cs

-- The calls that are steps of the handshake.
unfoldable pub is_step : Call → Bool
is_step write_sync_byte = true
is_step drop_write_fd = true
is_step (waitpid child) = true
is_step _ = false

abbrev pub IsQuiet : Call → Type 0
IsQuiet c = is_step c ≡ false

pub setup_call-IsQuiet : (c : Call) → is_setup_call c ≡ true → IsQuiet c
unfolding is_step is_setup_call
setup_call-IsQuiet write_sync_byte h = cc
setup_call-IsQuiet drop_write_fd h = cc
setup_call-IsQuiet (waitpid child) h = cc
setup_call-IsQuiet c h = refl

cgroup_calls-IsQuiet : (cg : Option Cgroup) → All IsQuiet (cgroup_calls cg)
unfolding is_step
cgroup_calls-IsQuiet none = tt
cgroup_calls-IsQuiet (some cg) = (refl, tt)

TeardownCalls-IsQuiet :
    (overlay : Bool) (m : Machine) (before cs : List Call)
    → TeardownCalls overlay m before cs
    → All IsQuiet cs
unfolding is_step
TeardownCalls-IsQuiet true m before cs h =
    let root = get_overlay_root m.pid m.temp_dir in
    let readable =
      set_permissions (join_path (join_path root (codes "work")) (codes "work")) 0o700 in
    elim (Bool-cases (tolerated (m.answer before readable))) [
      | inl gone ↦ rw (h, gone) (refl, (refl, tt))
      | inr kept ↦ rw (h, kept) (refl, tt)
    ]
TeardownCalls-IsQuiet false m before cs h = rw h tt

pub Concludes-IsQuiet :
    (overlay : Bool) (m : Machine) (before : List Call) (cg : Option Cgroup)
    (value : Result (Unit {0})) (exit r : Result ℕ) (end_calls : List Call)
    → Concludes overlay m before cg value exit r end_calls
    → All IsQuiet end_calls
Concludes-IsQuiet overlay m before cg (err e) exit r end_calls (same, h) =
    rw h (cgroup_calls-IsQuiet cg)
Concludes-IsQuiet overlay m before cg (ok _) exit r end_calls (same, torn, quiet, h) = rw h (
    All-append IsQuiet torn (cgroup_calls cg) (TeardownCalls-IsQuiet overlay m before torn quiet)
      (cgroup_calls-IsQuiet cg))

returns-is_interrupted :
    (o : Outcome WaitStatus) (r : Result ℕ) → WaitReturns o r → is_interrupted o ≡ false
returns-is_interrupted (done status) r h = refl
returns-is_interrupted (failed e) r (other, h) = ground arith

module _ (m : Machine) where
  events-quiet :
      (sent : Bool) (before quiet cs : List Call)
      → All IsQuiet quiet
      → events m sent before (quiet ++ cs) ≡ events m sent (before ++ quiet) cs
  unfolding events is_step
  events-quiet sent before [] cs h = rw append-nil refl
  events-quiet sent before (write_sync_byte ∷ quiet) cs (p, h) = cc
  events-quiet sent before (drop_write_fd ∷ quiet) cs (p, h) = cc
  events-quiet sent before (waitpid child ∷ quiet) cs (p, h) = cc
  events-quiet sent before (c ∷ quiet) cs (p, h) =
      events-quiet sent (before ++ c ∷ []) quiet cs h
      ∙ ap (λ l. events m sent l cs) (append_assoc before (c ∷ []) quiet)

  pub events-quiet_end :
      (sent : Bool) (before quiet : List Call) → All IsQuiet quiet → events m sent before quiet ≡ []
  unfolding events
  events-quiet_end sent before quiet h =
      ap (events m sent before) (sym (append-nil quiet)) ∙ events-quiet sent before quiet [] h

  events-write :
      (before l cs : List Call) (o : Outcome (Unit {0}))
      → m.answer l write_sync_byte ≡ o
      → (l ++ write_sync_byte ∷ []) ++ drop_write_fd ∷ [] ≡ before
      → events m false l (write_sync_byte ∷ drop_write_fd ∷ cs)
        ≡ (if is_done o then setup_succeeds else setup_fails)
          ∷ Event.drop_write_fd
          ∷ events m (is_done o) before cs
  unfolding events
  events-write before l cs (done _) e same = rw (e, same) refl
  events-write before l cs (failed n) e same = rw (e, same) refl

  -- The write of the byte is one step, if it succeeds, and none, if it fails.
  events-Sends :
      (w : World) (set cs : List Call) (o : Outcome (Unit {0}))
      → Sends m w set o
      → events m false w.calls (set ++ drop_write_fd ∷ cs)
        ≡ (if is_done o then setup_succeeds else setup_fails)
          ∷ Event.drop_write_fd
          ∷ events m (is_done o) (w.calls ++ (set ++ drop_write_fd ∷ [])) cs
  unfolding events
  events-Sends w set cs o (before, e, quiet, answer) =
      rw (e, append_assoc)
        (events-quiet false w.calls before (write_sync_byte ∷ drop_write_fd ∷ cs)
            (All-map (λ c. is_setup_call c ≡ true) IsQuiet setup_call-IsQuiet before quiet)
          ∙ events-write (w.calls ++ ((before ++ write_sync_byte ∷ []) ++ drop_write_fd ∷ []))
              (w.calls ++ before) cs o answer (simp append_assoc))

  -- The setup is one step, and the drop comes behind it.
  pub events-SetUp :
      (w : World) (set cs : List Call) (value : Result (Unit {0}))
      → SetUp m w set value
      → events m false w.calls (set ++ drop_write_fd ∷ cs)
        ≡ (if is_ok value then setup_succeeds else setup_fails)
          ∷ Event.drop_write_fd
          ∷ events m (is_ok value) (w.calls ++ (set ++ drop_write_fd ∷ [])) cs
  unfolding events
  events-SetUp w set cs (ok _) sends = events-Sends w set cs (done tt) sends
  events-SetUp w set cs (err x) (inl quiet) =
      events-quiet false w.calls set (drop_write_fd ∷ cs)
        (All-map (λ c. is_setup_call c ≡ true) IsQuiet setup_call-IsQuiet set quiet)
      ∙ ap (λ l. setup_fails ∷ Event.drop_write_fd ∷ events m false l cs)
          (append_assoc w.calls set (drop_write_fd ∷ []))
  events-SetUp w set cs (err x) (inr (n, sends)) = events-Sends w set cs (failed n) sends

  -- The wait is one step, however often it is interrupted.
  pub events-Loops :
      (child : ℕ) (sent : Bool) (exit : Result ℕ) (waited : World) (w : World) (cs : List Call)
      → Loops (some child) WaitGoesOn WaitReturns m exit waited w
      → (waits : List Call) × (waited.calls ≡ w.calls ++ waits)
        × (events m sent w.calls (waits ++ cs) ≡ wait_returns ∷ events m sent waited.calls cs)
  unfolding events
  events-Loops child sent exit waited _ cs (again w on more) =
      let (waits, e, rest) =
        events-Loops child sent exit waited (after w (waitpid (some child))) cs more in
      (
        waitpid (some child) ∷ waits,
        rw e (append_assoc w.calls (waitpid (some child) ∷ []) waits),
        rw (on, rest) refl,
      )
  events-Loops child sent exit waited _ cs (last w ret same) = (
    waitpid (some child) ∷ [],
    ap (λ (v : World). v.calls) same,
    rw (returns-is_interrupted (m.answer w.calls (waitpid (some child))) exit ret, same) refl,
  )
