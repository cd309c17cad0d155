-- ===== src/Process/Signals.antt =====
-- How signals reach the shim of src/process.rs while it starts to forward them, as signal(7) says:
-- a blocked signal is held pending, and the end of the block delivers it; a signal that is
-- delivered runs the handler, or is dropped, since the shim is the init of its namespace.
pub mod Delivery
mod Pending
pub mod Forwarded
use boxed.Prelude.{
  ℕ, ◌≡◌, refl, Bool, true, false, not, ◌||◌, List, [], ◌∷◌, ◌++◌, ◌==◌, if◌then◌else◌,
}
use boxed.Types.{Signal, sigint, sigterm, sighup}
use boxed.Kernel.{Call, Machine, World, sig_block, sig_unblock, install_forwarding}
use boxed.Kernel.Script.{after}
use boxed.Process.{signal_number, forward_signal, forwarded_signal_set}

unfoldable pub signal_eq : Signal → Signal → Bool
signal_eq s t = signal_number s == signal_number t

unfoldable pub has_signal : List Signal → Signal → Bool
unfolding signal_eq
has_signal [] s = false
has_signal (t ∷ ts) s = signal_eq t s || has_signal ts s

unfoldable pub without : List Signal → List Signal → List Signal
without set [] = []
without set (t ∷ ts) = let rest = without set ts in if has_signal set t then rest else t ∷ rest

-- The shim, with the signals that it blocks, that have the handler, and that are pending.
pub record Shim : Type 0 where
  pub world : World
  pub blocked : List Signal
  pub handled : List Signal
  pub pending : List Signal

pub data Event : Type 0 where
  -- A signal is sent to the shim.
  arrives : Signal → Event
  -- The shim stores `CHILD_PID`, or makes a call.
  stores : ℕ → Event
  makes : Call → Event

unfoldable pub deliver : Machine → Signal → Shim → Shim
deliver m s st =
    if has_signal st.handled s then record st { world = (forward_signal s m st.world).1 } else st

unfoldable pub arrive : Machine → Signal → Shim → Shim
arrive m s st =
    if has_signal st.blocked s then record st { pending = s ∷ st.pending } else deliver m s st

-- Each of the signals arrives again, now that the block has ended.
unfoldable pub release : Machine → List Signal → Shim → Shim
release m [] st = st
release m (s ∷ ss) st = release m ss (arrive m s st)

abbrev made_call : Call → Shim → Shim
made_call c st = record st { world = after st.world c }

unfoldable pub act_call : Machine → Call → Shim → Shim
act_call m (sig_block set) st = record st {
  world = after st.world (sig_block set);
  blocked = set ++ st.blocked;
}
act_call m (sig_unblock set) st = release m st.pending (record st {
  world = after st.world (sig_unblock set);
  blocked = without set st.blocked;
  pending = [];
})
act_call m (install_forwarding s) st = record st {
  world = after st.world (install_forwarding s);
  handled = s ∷ st.handled;
}
act_call m c st = record st { world = after st.world c }

unfoldable pub act : Machine → Event → Shim → Shim
act m (arrives s) st = arrive m s st
act m (stores pid) st = record st { world = record (st.world) { child_pid = pid } }
act m (makes c) st = act_call m c st

unfoldable pub replay : Machine → List Event → Shim → Shim
replay m [] st = st
replay m (e ∷ es) st = replay m es (act m e st)

-- What the shim itself does in a list of events.
unfoldable pub own_events : List Event → List Event
own_events [] = []
own_events (arrives s ∷ es) = own_events es
own_events (e ∷ es) = e ∷ own_events es

-- `setup_signal_forwarding`
abbrev pub forwarding_events : ℕ → List Event
forwarding_events child =
    stores child
    ∷ makes (install_forwarding sigint)
    ∷ makes (install_forwarding sigterm)
    ∷ makes (install_forwarding sighup)
    ∷ []
