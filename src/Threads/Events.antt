-- ===== src/Threads/Events.antt =====
-- src/Thread.cpp: any number of threads that wait for one event and signal it. A blocked thread may
-- wake at any time, as the documentation of condition variables says.
use viva_voce.Prelude.{
  ℕ, suc, ◌+◌, ◌-◌, ◌≤◌, ◌≡◌, refl, true, false, List, [], ◌∷◌, Option, none, some, ltb, arith,
  if◌then◌else◌, map, ◌∙◌,
}
use viva_voce.Threads.{MyEvent, new_event, signal_event, wait_ends, wait_tests}

pub data Use : Type 0 where
  raise wait_timed time_out wake_timed wait_always awake : Use

-- The event, the threads blocked in a timed and in an untimed wait, the calls of `Signal`, and the
-- untimed waits that have returned.
pub record Watched : Type 0 where
  pub event : MyEvent
  pub timed : ℕ
  pub untimed : ℕ
  pub raised : ℕ
  pub returned : ℕ

abbrev pub new_watched : Watched
new_watched = record { event = new_event; timed = 0; untimed = 0; raised = 0; returned = 0 }

-- An untimed wait that returns is counted, and one that blocks adds its thread.
abbrev pub settle : Option MyEvent → Watched → Watched
settle (some e) w = record w { event = e; returned = suc w.returned }
settle none w = record w { untimed = suc w.untimed }

abbrev pub use_event : Watched → Use → Watched
use_event w raise = record w { event = signal_event w.event; raised = suc w.raised }
use_event w wait_timed = record w { timed = suc w.timed }
use_event w time_out =
    if ltb 0 w.timed
    then record w { event = (wait_ends true w.event).1; timed = w.timed - 1 }
    else w
use_event w wake_timed =
    if ltb 0 w.timed
    then record w { event = (wait_ends false w.event).1; timed = w.timed - 1 }
    else w
use_event w wait_always = settle (wait_tests w.event) w
use_event w awake =
    if ltb 0 w.untimed
    then settle (wait_tests w.event) (record w { untimed = w.untimed - 1 })
    else w

abbrev pub use_all : Watched → List Use → Watched
use_all w [] = w
use_all w (u ∷ us) = use_all (use_event w u) us

abbrev pub pending : MyEvent → ℕ
pending e = if e.status then 1 else 0

Paid : Watched → Type 0
Paid w = w.returned + pending w.event ≤ w.raised

use_event-Paid : (w : Watched) (u : Use) → Paid w → Paid (use_event w u)
unfolding Paid signal_event wait_ends wait_tests
use_event-Paid w raise p = ground arith
use_event-Paid w wait_timed p = p
use_event-Paid w time_out p = ground arith
use_event-Paid w wake_timed p = ground arith
use_event-Paid w wait_always p = ground arith
use_event-Paid w awake p = ground arith

use_all-Paid : (us : List Use) (w : Watched) → Paid w → Paid (use_all w us)
use_all-Paid [] w p = p
use_all-Paid (u ∷ us) w p = use_all-Paid us (use_event w u) (use_event-Paid w u p)

-- Whatever threads signal an event and wait for it, with time-outs and without, and whenever they
-- wake, no more untimed waits have returned than `Signal` has been called, and fewer while the
-- event is still set.
pub returned_le :
    (us : List Use) → let w = use_all new_watched us in w.returned + pending w.event ≤ w.raised
unfolding Paid
returned_le us = use_all-Paid us new_watched (omega arith)

-- Signals, timed waits and time-outs.
pub data TimedUse : Type 0 where
  raised_again waits expires : TimedUse

abbrev pub as_use : TimedUse → Use
as_use raised_again = raise
as_use waits = wait_timed
as_use expires = time_out

timed_use_lem :
    (u : TimedUse) (w : Watched)
    → w.event.status ≡ true
    → let w' = use_event w (as_use u) in
      (w'.event.status ≡ true) × (w'.event.signals ≡ w.event.signals)
unfolding signal_event wait_ends
timed_use_lem raised_again w h = (refl, rw h refl)
timed_use_lem waits w h = (h, refl)
timed_use_lem expires w h = ground (arith, h)

-- Once `status` is set, `Signal` does not signal the condition variable, and a timed wait, which does
-- not ask for `status`, only ends by its time-out: it is so for ever.
pub missed_signals :
    (us : List TimedUse) (w : Watched)
    → w.event.status ≡ true
    → let w' = use_all w (map as_use us) in
      (w'.event.status ≡ true) × (w'.event.signals ≡ w.event.signals)
missed_signals [] w h = (h, refl)
missed_signals (u ∷ us) w h =
    let step = timed_use_lem u w h in
    let rest = missed_signals us (use_event w (as_use u)) step.0 in (rest.0, rest.1 ∙ step.1)
