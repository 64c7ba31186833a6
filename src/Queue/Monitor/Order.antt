-- ===== src/Queue/Monitor/Order.antt =====
-- src/SyncQueue.cpp: what holds of the queue under every interleaving of its callers.
use mathlib.Core.List.{append_assoc}
use viva_voce.Prelude.{◌+◌, ◌≡◌, ◌⊎◌, inl, inr, ◌<◌, refl, sym, ap, ◌∙◌, List, [], ◌∷◌, ◌++◌, arith}
use viva_voce.Queue.{
  new_queue, en_q, de_q, pop_front, signal_data, signal, wait_start, wake_timed, wake_forever,
}
use viva_voce.Queue.Monitor.{
  Monitor, Action, enqueue, hand_over, notify, dequeue, wait_for, wait_always, time_out, awake,
  deliver, act, act_all, new_monitor,
}

module _ {ℓ} {A : Type ℓ} where
  -- What was handed out, then what is still queued, is what was put in.
  pub record IsConsistent (m : Monitor A) : Type ℓ where
    pub fifo : m.taken ++ m.queue.data_q ≡ m.added
    pub waiters : m.queue.waiting ≡ m.timed + m.untimed

  deliver-pop_front :
      (taken xs : List A) → deliver (pop_front xs).0 taken ++ (pop_front xs).1 ≡ taken ++ xs
  unfolding pop_front
  deliver-pop_front taken [] = refl
  deliver-pop_front taken (x ∷ xs) = append_assoc taken (x ∷ []) xs

  snoc :
      (taken xs : List A) (a : A) (added : List A)
      → taken ++ xs ≡ added
      → taken ++ (xs ++ a ∷ []) ≡ added ++ a ∷ []
  snoc taken xs a added e = sym (append_assoc taken xs (a ∷ [])) ∙ ap (λ l. l ++ a ∷ []) e

  act-IsConsistent : (m : Monitor A) (a : Action A) → IsConsistent m → IsConsistent (act m a)
  unfolding act en_q de_q signal_data signal wait_start wake_timed wake_forever
  act-IsConsistent m (enqueue a) v = record {
    fifo = snoc m.taken _ a _ v.fifo;
    waiters = v.waiters;
  }
  act-IsConsistent m (hand_over a) v = ground (arith, snoc m.taken m.queue.data_q a m.added v.fifo)
  act-IsConsistent m notify v = record { fifo = v.fifo; waiters = v.waiters }
  act-IsConsistent m dequeue v = record {
    fifo = deliver-pop_front m.taken m.queue.data_q ∙ v.fifo;
    waiters = v.waiters;
  }
  act-IsConsistent m wait_for v = ground (arith, deliver-pop_front m.taken m.queue.data_q)
  act-IsConsistent m wait_always v = ground (arith, deliver-pop_front m.taken m.queue.data_q)
  act-IsConsistent m time_out v = ground (arith, deliver-pop_front m.taken m.queue.data_q)
  act-IsConsistent m awake v = ground (arith, deliver-pop_front m.taken m.queue.data_q)

  act_all-IsConsistent :
      (m : Monitor A) (acts : List (Action A)) → IsConsistent m → IsConsistent (act_all m acts)
  unfolding act_all
  act_all-IsConsistent m [] v = v
  act_all-IsConsistent m (a ∷ rest) v = act_all-IsConsistent (act m a) rest (act-IsConsistent m a v)

  new_monitor-IsConsistent : IsConsistent new_monitor
  unfolding new_monitor new_queue
  new_monitor-IsConsistent = record { fifo = refl; waiters = refl }

  -- After any interleaving of calls of one new queue, the pointers handed out and then those still
  -- queued are exactly those put in, in that order, and `waiting` is the number of blocked
  -- threads.
  pub act_all-new_monitor :
      (acts : List (Action A))
      → let m = act_all new_monitor acts in
        (m.taken ++ m.queue.data_q ≡ m.added) × (m.queue.waiting ≡ m.timed + m.untimed)
  act_all-new_monitor acts =
      let v = act_all-IsConsistent new_monitor acts new_monitor-IsConsistent in (v.fifo, v.waiters)

  signals-suc :
      (m : Monitor A) (a : A)
      → IsConsistent m
      → 0 < m.timed + m.untimed
      → (act m (hand_over a)).queue.signals ≡ m.queue.signals + 1
  unfolding act signal_data en_q
  signals-suc m a v h = ground arith

  -- After any interleaving of calls of one new queue, if some thread is blocked, then `signalData`
  -- signals the condition variable, and does so once.
  pub hand_over_signals :
      (acts : List (Action A)) (a : A)
      → let m = act_all new_monitor acts in
        0 < m.timed + m.untimed → (act m (hand_over a)).queue.signals ≡ m.queue.signals + 1
  hand_over_signals acts a h =
      signals-suc _ a (act_all-IsConsistent new_monitor acts new_monitor-IsConsistent) h

  -- A thread in an untimed wait that wakes goes on waiting and takes nothing if the queue is
  -- empty, and otherwise returns with the oldest pointer and leaves the others queued.
  pub awake_lem :
      (m : Monitor A)
      → 0 < m.untimed
      → ((m.queue.data_q ≡ [])
          × ((act m awake).taken ≡ m.taken)
          × ((act m awake).untimed ≡ m.untimed))
        ⊎ ((a : A) × (m.queue.data_q ≡ a ∷ (act m awake).queue.data_q)
            × ((act m awake).taken ≡ m.taken ++ a ∷ [])
            × ((act m awake).untimed + 1 ≡ m.untimed))
  unfolding act wake_forever wait_start de_q pop_front
  awake_lem m h = split m.queue.data_q refl
    where
      split :
          (l : List A)
          → m.queue.data_q ≡ l
          → ((m.queue.data_q ≡ [])
              × ((act m awake).taken ≡ m.taken)
              × ((act m awake).untimed ≡ m.untimed))
            ⊎ ((a : A) × (m.queue.data_q ≡ a ∷ (act m awake).queue.data_q)
                × ((act m awake).taken ≡ m.taken ++ a ∷ [])
                × ((act m awake).untimed + 1 ≡ m.untimed))
      split [] e = inl (e, ground arith, ground arith)
      split (a ∷ rest) e = inr (a, ground arith, ground arith, ground arith)
