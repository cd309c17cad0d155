-- ===== src/Process/Signals/Forwarded.antt =====
-- The signals that the shim of src/process.rs forwards to the command.
use boxed.Prelude.{
  ℕ, ◌≡◌, refl, ◌∙◌, ap, sym, ◌<◌, ◌⊎◌, inl, inr, Bool-cases, true, false, ◌||◌, List, [], ◌∷◌,
  ◌++◌, append_assoc, arith,
}
use boxed.Types.{Signal, sigint, sigterm, sighup}
use boxed.Error.{ok, failed_to_install_handler}
use boxed.Kernel.{Machine, call, kill, sig_unblock, install_forwarding}
use boxed.Kernel.{within, pure, ◌>>◌}
use boxed.Kernel.Script.{after, Step, Runs, Ran-ok, script_rules}
use boxed.Process.{setup_signal_forwarding, forwarded_signal_set}
use boxed.Process.Signals.{
  signal_eq, has_signal, without, Shim, Event, arrives, makes, release, act_call, act, replay,
  own_events, forwarding_events,
}
use boxed.Process.Signals.Delivery.{
  Among, release-Kept, Forwards, Kept-Forwards, Kept-Among, release-Among, replay-Kept,
  replay-Among,
}
use boxed.Process.Signals.Pending.{installs, stored, own-Plain, replay-pending, replay-installs}

has_signal-congr :
    (set : List Signal) (t s : Signal) → signal_eq t s ≡ true → has_signal set t ≡ has_signal set s
unfolding has_signal signal_eq
has_signal-congr [] t s h = refl
has_signal-congr (x ∷ xs) t s h = ground (arith, has_signal-congr xs t s)

has_signal-cons :
    (t : Signal) (ts : List Signal) (s : Signal)
    → has_signal (t ∷ ts) s ≡ (signal_eq t s || has_signal ts s)
unfolding has_signal
has_signal-cons t ts s = refl

kept_signal :
    (set : List Signal) (t : Signal) (ts : List Signal) (s : Signal)
    → has_signal set s ≡ true
    → has_signal set t ≡ false
    → has_signal ts s ≡ false
    → has_signal (t ∷ ts) s ≡ false
kept_signal set t ts s h kept ih = elim (Bool-cases (signal_eq t s)) [
  | inl same ↦ cc (has_signal-congr set t s same)
  | inr differs ↦ has_signal-cons t ts s ∙ ap (λ b. b || has_signal ts s) differs ∙ ih
]

-- The end of a block frees its signals.
has_signal-without :
    (set ts : List Signal) (s : Signal)
    → has_signal set s ≡ true
    → has_signal (without set ts) s ≡ false
unfolding without
has_signal-without set [] s h = unfold has_signal in refl
has_signal-without set (t ∷ ts) s h = elim (Bool-cases (has_signal set t)) [
  | inl freed ↦ rw freed (has_signal-without set ts s h)
  | inr kept ↦ rw kept (kept_signal set t (without set ts) s h kept (has_signal-without set ts s h))
]

replay-append :
    (m : Machine) (es fs : List Event) (st : Shim)
    → replay m (es ++ fs) st ≡ replay m fs (replay m es st)
unfolding replay
replay-append m [] fs st = refl
replay-append m (e ∷ es) fs st = replay-append m es fs (act m e st)

installed :
    (s : Signal) (handled : List Signal)
    → has_signal forwarded_signal_set s ≡ true
    → has_signal (sighup ∷ sigterm ∷ sigint ∷ handled) s ≡ true
unfolding has_signal signal_eq
installed s handled h = ground arith

-- No signal is lost. A shim that has blocked a forwarded signal stores the child, whose number is
-- positive, installs the handlers and unblocks; signals arrive at any points between these
-- steps, and behind them. If the signal arrives, or was already pending, it is sent to the child.
pub replay-forwarded :
    (m : Machine) (child : ℕ) (st : Shim) (before behind : List Event) (s : Signal)
    → 0 < child
    → own_events before ≡ forwarding_events child
    → own_events behind ≡ []
    → has_signal forwarded_signal_set s ≡ true
    → has_signal st.blocked s ≡ true
    → Among (arrives s) before ⊎ Among s st.pending ⊎ Among (arrives s) behind
    → Among
        (kill child s)
        (replay m (before ++ makes (sig_unblock forwarded_signal_set) ∷ behind) st).world.calls
unfolding act act_call replay installs stored
replay-forwarded m child st before behind s started own own' forwarded blocked arrival =
    let held = replay m before st in
    let plain = own-Plain before child own in
    let (handlers, pid) = replay-installs m s before st plain in
    let free = record held {
      world = after held.world (sig_unblock forwarded_signal_set);
      blocked = without forwarded_signal_set held.blocked;
      pending = [];
    } in
    let freed = release m held.pending free in
    let forwards : Forwards m s child started free = (
      has_signal-without forwarded_signal_set held.blocked s forwarded,
      rw (handlers, own) (installed s st.handled forwarded),
      rw (pid, own) refl,
    ) in
    rw (replay-append m before (makes (sig_unblock forwarded_signal_set) ∷ behind) st)
      (elim arrival [
        | inl early ↦
            Kept-Among m s child started freed (replay m behind freed)
              (replay-Kept m s child started behind freed own')
              (release-Among m s child started held.pending free forwards
                (replay-pending m s before st plain (blocked, inl early)).1)
        | inr (inl pending) ↦
            Kept-Among m s child started freed (replay m behind freed)
              (replay-Kept m s child started behind freed own')
              (release-Among m s child started held.pending free forwards
                (replay-pending m s before st plain (blocked, inr pending)).1)
        | inr (inr late) ↦
            replay-Among m s child started behind freed own'
              (Kept-Forwards m s child started free freed (release-Kept m held.pending free)
                forwards)
              late
      ])

install_steps : List Step
install_steps =
    record { action = install_forwarding sigint; contexts = failed_to_install_handler sigint ∷ [] }
    ∷ record {
      action = install_forwarding sigterm;
      contexts = failed_to_install_handler sigterm ∷ [];
    }
    ∷ record {
      action = install_forwarding sighup;
      contexts = failed_to_install_handler sighup ∷ [];
    }
    ∷ []

install-Runs :
    (m : Machine)
    → Runs m
        (within (failed_to_install_handler sigint) (call (install_forwarding sigint))
          >> (within (failed_to_install_handler sigterm) (call (install_forwarding sigterm))
              >> (within (failed_to_install_handler sighup) (call (install_forwarding sighup))
                  >> pure tt)))
        install_steps
unfolding install_steps
install-Runs m = search script_rules depth 6

-- The steps of the shim in these lists are those of the code: a `setup_signal_forwarding` that
-- succeeds leaves the world that the replay of its steps leaves.
replay-setup_signal_forwarding :
    (m : Machine) (child : ℕ) (st : Shim)
    → (setup_signal_forwarding child m st.world).0 ≡ ok tt
    → (replay m (forwarding_events child) st).world ≡ (setup_signal_forwarding child m st.world).1
unfolding setup_signal_forwarding replay act act_call install_steps
replay-setup_signal_forwarding m child st h =
    let w = record (st.world) { child_pid = child } in
    let made = Ran-ok m install_steps w _ (rw h at ((install-Runs m).ran w)) in
    simp append_assoc (sym made)
