-- ===== src/Queue/Monitor.antt =====
-- src/SyncQueue.cpp, any number of threads on one queue: each action is a critical section of one
-- thread. A blocked thread may wake at any time, as the documentation of condition variables says.
pub mod Order
use viva_voce.Prelude.{
  ℕ, suc, ◌+◌, ◌-◌, ◌≡◌, List, [], ◌∷◌, ◌++◌, Option, none, some, ltb, if◌then◌else◌,
}
use viva_voce.Queue.{
  SyncQueue, new_queue, en_q, de_q, signal_data, signal, Wait, returned, blocked, wait_start,
  wake_timed, wake_forever,
}

pub data Action {ℓ} (A : Type ℓ) : Type ℓ where
  enqueue : A → Action A
  hand_over : A → Action A
  notify : Action A
  dequeue : Action A
  wait_for : Action A
  wait_always : Action A
  time_out : Action A
  awake : Action A

-- The queue, the threads blocked in a timed and in an untimed wait, and the pointers that all calls
-- have put in and have returned, oldest first.
pub record Monitor {ℓ} (A : Type ℓ) : Type ℓ where
  pub queue : SyncQueue A
  pub timed : ℕ
  pub untimed : ℕ
  pub added : List A
  pub taken : List A

module _ {ℓ} {A : Type ℓ} where
  abbrev pub deliver : Option A → List A → List A
  deliver none taken = taken
  deliver (some a) taken = taken ++ a ∷ []

  -- A call that returns hands out its pointer; one that blocks adds its thread to the blocked ones.
  unfoldable pub settle_timed : Wait A × SyncQueue A → Monitor A → Monitor A
  settle_timed (returned front, q) m = record m { queue = q; taken = deliver front m.taken }
  settle_timed (blocked, q) m = record m { queue = q; timed = suc m.timed }

  unfoldable pub settle_untimed : Wait A × SyncQueue A → Monitor A → Monitor A
  settle_untimed (returned front, q) m = record m { queue = q; taken = deliver front m.taken }
  settle_untimed (blocked, q) m = record m { queue = q; untimed = suc m.untimed }

  unfoldable pub act : Monitor A → Action A → Monitor A
  unfolding settle_timed settle_untimed
  act m (enqueue a) = record m { queue = en_q a m.queue; added = m.added ++ a ∷ [] }
  act m (hand_over a) = record m { queue = signal_data a m.queue; added = m.added ++ a ∷ [] }
  act m notify = record m { queue = signal m.queue }
  act m dequeue =
      let (front, q) = de_q m.queue in record m { queue = q; taken = deliver front m.taken }
  act m wait_for = settle_timed (wait_start m.queue) m
  act m wait_always = settle_untimed (wait_start m.queue) m
  act m time_out =
      if ltb 0 m.timed
      then settle_timed (wake_timed m.queue) (record m { timed = m.timed - 1 })
      else m
  act m awake =
      if ltb 0 m.untimed
      then settle_untimed (wake_forever m.queue) (record m { untimed = m.untimed - 1 })
      else m

  unfoldable pub act_all : Monitor A → List (Action A) → Monitor A
  act_all m [] = m
  act_all m (a ∷ rest) = act_all (act m a) rest

  unfoldable pub new_monitor : Monitor A
  new_monitor = record { queue = new_queue; timed = 0; untimed = 0; added = []; taken = [] }
