-- ===== src/Threads/Tests.antt =====
-- src/Thread.cpp: a few threads with one event.
use viva_voce.Prelude.{◌+◌, ◌≤◌, ◌≡◌, refl, [], ◌∷◌}
use viva_voce.Threads.{deadline, signal_event, wait_ends}
use viva_voce.Threads.Events.{
  raise, wait_timed, time_out, wait_always, awake, new_watched, use_all, pending, returned_le,
}

returned_le_example :
    let w = use_all new_watched (wait_always ∷ raise ∷ raise ∷ awake ∷ wait_always ∷ []) in
    w.returned + pending w.event ≤ w.raised
returned_le_example = returned_le (wait_always ∷ raise ∷ raise ∷ awake ∷ wait_always ∷ [])

-- A signal that comes before a timed wait is not seen by it, and the next does not wake it.
missed_once : (use_all new_watched (raise ∷ wait_timed ∷ raise ∷ time_out ∷ [])).event.signals ≡ 1
unfolding signal_event wait_ends
missed_once = refl

-- The nanoseconds of a deadline can pass 10 ^ 9.
late_deadline : deadline (7, 950000) 100 ≡ (7, 1050000000)
unfolding deadline
late_deadline = refl
