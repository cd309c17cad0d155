-- ===== src/Namespace/Watch.antt =====
-- The start of the forwarding in the shim, by `ChildContext::enter` of src/namespace.rs, while
-- signals arrive.
use boxed.Prelude.{ℕ, ◌≡◌, refl, ap, ◌∙◌, ◌<◌, ◌⊎◌, true, List, [], ◌∷◌, ◌++◌, Option, some}
use boxed.Types.{Signal, sigint, sigterm, sighup}
use boxed.Error.{
  Error, Message, Result, ok, err, with_context, failed_to_install_handler,
  failed_to_unblock_signals,
}
use boxed.Kernel.{
  Call, Reply, Outcome, done, failed, to_result, Machine, World, Io, call, pure, within, proceed,
  ◌>>=◌, ◌>>◌, kill, sig_unblock, install_forwarding,
}
use boxed.Kernel.Script.{after}
use boxed.Process.{
  store_child_pid, setup_signal_forwarding, unblock_forwarded_signals, forwarded_signal_set,
  reap_until_exit,
}
use boxed.Process.Signals.{
  has_signal, Shim, Event, arrives, stores, makes, replay, own_events, forwarding_events,
}
use boxed.Process.Signals.Delivery.{Among}
use boxed.Process.Signals.Forwarded.{replay-forwarded}
use boxed.Namespace.{after_forwarding, watch}

-- The shim's own steps, up to the first call that fails.
unfoldable pub perform : List Event → Io (Unit {0})
perform [] = pure tt
perform (arrives s ∷ es) = perform es
perform (stores pid ∷ es) = store_child_pid pid >> perform es
perform (makes c ∷ es) = call c >>= λ _. perform es

-- Two results in the same world, both values or both errors.
abbrev Alike : Result (Unit {0}) × World → Result (Unit {0}) × World → Type 0
Alike (ok _, w) (r, w') = (r ≡ ok tt) × (w' ≡ w)
Alike (err e, w) (r, w') = (e' : Error) × (r ≡ err e') × (w' ≡ w)

abbrev Same : Io (Unit {0}) → Io (Unit {0}) → Type 0
Same a b = (m : Machine) (w : World) → Alike (a m w) (b m w)

-- A call that both make, and a last call.
module _ (msg : Message) (c : Call) where
  Same-call :
      (a b z : Io (Unit {0}))
      → Same a (b >> z)
      → Same (call c >>= λ _. a) ((within msg (call c) >>= λ _. b) >> z)
  unfolding call
  Same-call a b z h m w = go (m.answer w.calls c)
    where
      go :
          (o : Outcome (Reply c))
          → let v = after w c in
            let first = proceed (with_context msg (to_result o)) (λ _. b) m v in
            Alike (proceed (to_result o) (λ _. a) m v) (proceed first.0 (λ _. z) m first.1)
      go (done x) = h m (after w c)
      go (failed n) = (_, refl, refl)

Same-last :
    (msg : Message) (set : List Signal)
    → Same
        (call (sig_unblock set) >>= λ _. pure tt)
        (pure tt >> within msg (call (sig_unblock set)))
unfolding call
Same-last msg set m w = go (m.answer w.calls (sig_unblock set))
  where
    go :
        (o : Outcome (Unit {0}))
        → let v = after w (sig_unblock set) in
          Alike (proceed (to_result o) (λ _. pure tt) m v) (with_context msg (to_result o), v)
    go (done x) = (refl, refl)
    go (failed n) = (_, refl, refl)

-- The steps of `watch` before it reaps.
abbrev pub watch_events : ℕ → List Event
watch_events child = forwarding_events child ++ makes (sig_unblock forwarded_signal_set) ∷ []

watch_events-Same :
    (child : ℕ)
    → Same
        (perform (watch_events child))
        (setup_signal_forwarding child >> unblock_forwarded_signals)
unfolding perform setup_signal_forwarding unblock_forwarded_signals
watch_events-Same child m w =
    let unblock = within failed_to_unblock_signals (call (sig_unblock forwarded_signal_set)) in
    Same-call (failed_to_install_handler sigint) (install_forwarding sigint) _ _ unblock
      (Same-call (failed_to_install_handler sigterm) (install_forwarding sigterm) _ _ unblock (
        Same-call (failed_to_install_handler sighup) (install_forwarding sighup) _ _ unblock
          (Same-last failed_to_unblock_signals forwarded_signal_set)))
      m (record w { child_pid = child })

module _ (fuel child : ℕ) (m : Machine) (w : World) where
  -- What `watch` does when the steps before it have ended: it reaps, or returns an error.
  abbrev pub Goes : Result (Unit {0}) × World → Option (Result ℕ × World) → Type 0
  Goes (ok _, w') ended = ended ≡ reap_until_exit child fuel m w'
  Goes (err e, w') ended = (e' : Error) × (ended ≡ some (err e', w'))

  after_forwarding-Goes :
      (p q : Result (Unit {0}) × World) → Alike p q → Goes p (after_forwarding fuel child m q)
  unfolding after_forwarding
  after_forwarding-Goes (ok _, v) (ok _, v') (e, same) = ap (reap_until_exit child fuel m) same
  after_forwarding-Goes (ok _, v) (err x, v') (e, same) = cc
  after_forwarding-Goes (err x, v) (ok _, v') (e', e, same) = cc
  after_forwarding-Goes (err x, v) (err y, v') (e', e, same) = (y, ap (λ u. some (err y, u)) same)

  watch-Goes : Goes (perform (watch_events child) m w) (watch fuel child m w)
  unfolding watch
  watch-Goes =
      after_forwarding-Goes (perform (watch_events child) m w)
        ((setup_signal_forwarding child >> unblock_forwarded_signals) m w)
        (watch_events-Same child m w)

own_events-append : (es fs : List Event) → own_events (es ++ fs) ≡ own_events es ++ own_events fs
unfolding own_events
own_events-append [] fs = refl
own_events-append (arrives s ∷ es) fs = own_events-append es fs
own_events-append (stores pid ∷ es) fs = ap (λ l. stores pid ∷ l) (own_events-append es fs)
own_events-append (makes c ∷ es) fs = ap (λ l. makes c ∷ l) (own_events-append es fs)

-- The shim's own steps among the events are those of `watch`.
own_events-watch :
    (child : ℕ) (before behind : List Event)
    → own_events before ≡ forwarding_events child
    → own_events behind ≡ []
    → own_events (before ++ makes (sig_unblock forwarded_signal_set) ∷ behind) ≡ watch_events child
unfolding own_events
own_events-watch child before behind own own' =
    own_events-append before (makes (sig_unblock forwarded_signal_set) ∷ behind)
    ∙ rw (own, own') refl

-- No signal is lost. Let signals arrive at any points between the steps of `watch` before it reaps,
-- which store the child, install the three handlers and unblock the signals, and behind
-- them. Then the shim's own steps among these events, run in their order up to the first that
-- fails, are what `watch` does on every machine before it reaps or returns an error. And if a
-- forwarded signal that the shim has blocked arrives, or was already pending, and the child's
-- number is positive, then the replay of the events, in which each step takes effect, sends the
-- signal to the child.
pub watch-forwarded :
    (m : Machine) (child : ℕ) (st : Shim) (before behind : List Event) (s : Signal)
    → 0 < child
    → own_events before ≡ forwarding_events child
    → own_events behind ≡ []
    → has_signal forwarded_signal_set s ≡ true
    → has_signal st.blocked s ≡ true
    → Among (arrives s) before ⊎ Among s st.pending ⊎ Among (arrives s) behind
    → let events = before ++ makes (sig_unblock forwarded_signal_set) ∷ behind in
      ((fuel : ℕ) (m' : Machine) (w : World)
        → Goes fuel child m' w (perform (own_events events) m' w) (watch fuel child m' w))
      × Among (kill child s) (replay m events st).world.calls
watch-forwarded m child st before behind s started own own' forwarded blocked arrival = (
  λ fuel m' w. rw (own_events-watch child before behind own own') (watch-Goes fuel child m' w),
  replay-forwarded m child st before behind s started own own' forwarded blocked arrival,
)
