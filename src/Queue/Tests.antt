-- ===== src/Queue/Tests.antt =====
-- src/SyncQueue.cpp: the theorems at small runs.
use viva_voce.Prelude.{ℕ, ◌+◌, ◌≡◌, List, [], ◌∷◌, ◌++◌, arith}
use viva_voce.Queue.{new_queue, wait_start, count}
use viva_voce.Queue.Monitor.{
  Monitor, Action, enqueue, hand_over, dequeue, wait_always, awake, wait_for, act, act_all,
  new_monitor, settle_timed, settle_untimed,
}
use viva_voce.Queue.Monitor.Order.{act_all-new_monitor, hand_over_signals}

abbrev acts : List (Action ℕ)
acts = wait_always ∷ hand_over 3 ∷ enqueue 4 ∷ dequeue ∷ awake ∷ wait_for ∷ []

act_all-new_monitor_example :
    let m = act_all new_monitor acts in
    (m.taken ++ m.queue.data_q ≡ m.added) × (m.queue.waiting ≡ m.timed + m.untimed)
act_all-new_monitor_example = act_all-new_monitor acts

abbrev blocked_acts : List (Action ℕ)
blocked_acts = wait_always ∷ wait_for ∷ []

hand_over_signals_example :
    let m = act_all new_monitor blocked_acts in
    (act m (hand_over 3)).queue.signals ≡ m.queue.signals + 1
unfolding act_all act new_monitor new_queue settle_timed settle_untimed wait_start count
hand_over_signals_example = hand_over_signals blocked_acts 3 (omega arith)

-- One thread blocked in an untimed wait, and two pointers in the queue.
abbrev sleeper : Monitor ℕ
sleeper = record {
  queue = record { data_q = 3 ∷ 4 ∷ []; waiting = 1; signals = 1 };
  timed = 0;
  untimed = 1;
  added = 3 ∷ 4 ∷ [];
  taken = [];
}
