-- ===== src/Queue.antt =====
-- src/SyncQueue.h and src/SyncQueue.cpp, the branch for POSIX threads: a deque under a mutex with
-- a condition variable. Each function below is one critical section. A call of `waitForData` that
-- blocks gives the mutex up, so it is two sections, `wait_start` and `wake_timed` or `wake_forever`.
pub mod Monitor
pub mod Lengths
mod Tests
use viva_voce.Prelude.{
  ℕ, suc, ◌+◌, ◌-◌, List, [], ◌∷◌, ◌++◌, Option, none, some, ltb, if◌then◌else◌, length,
}

-- `dataQ`, front first, and `waiting`. `signals` counts the calls of `pthread_cond_signal`.
pub record SyncQueue {ℓ} (A : Type ℓ) : Type ℓ where
  pub data_q : List A
  pub waiting : ℕ
  pub signals : ℕ

module _ {ℓ} {A : Type ℓ} where
  unfoldable pub new_queue : SyncQueue A
  new_queue = record { data_q = []; waiting = 0; signals = 0 }

  unfoldable pub en_q : A → SyncQueue A → SyncQueue A
  en_q a q = record q { data_q = q.data_q ++ a ∷ [] }

  -- `front` and `pop_front` if the deque is not empty, else a null pointer.
  unfoldable pub pop_front : List A → Option A × List A
  pop_front [] = (none, [])
  pop_front (a ∷ rest) = (some a, rest)

  unfoldable pub de_q : SyncQueue A → Option A × SyncQueue A
  unfolding pop_front
  de_q q = let (front, rest) = pop_front q.data_q in (front, record q { data_q = rest })

  unfoldable pub count : SyncQueue A → ℕ
  count q = length q.data_q

  unfoldable pub signal_data : A → SyncQueue A → SyncQueue A
  unfolding en_q
  signal_data a q =
      let pushed = en_q a q in
      if ltb 0 pushed.waiting then record pushed { signals = suc pushed.signals } else pushed

  pub signal : SyncQueue A → SyncQueue A
  signal q = record q { signals = suc q.signals }

-- The outcome of the first section of `waitForData`: the call returns, or it blocks.
pub data Wait {ℓ} (A : Type ℓ) : Type ℓ where
  returned : Option A → Wait A
  blocked : Wait A

module _ {ℓ} {A : Type ℓ} where
  -- `waitForData(time)` up to its return or to `pthread_cond_timedwait` or `pthread_cond_wait`. The
  -- two branches of the code test the same thing, and differ when the caller wakes.
  pub wait_start : SyncQueue A → Wait A × SyncQueue A
  unfolding de_q count
  wait_start q =
      if ltb (count q) 1
      then (blocked, record q { waiting = suc q.waiting })
      else let (front, rest) = de_q q in (returned front, rest)

  -- The branch `time > 0`, after the timed wait returns for any reason.
  pub wake_timed : SyncQueue A → Wait A × SyncQueue A
  unfolding de_q
  wake_timed q =
      let (front, rest) = de_q (record q { waiting = q.waiting - 1 }) in (returned front, rest)

  -- The other branch, after a wake: `waiting--` and the test of the `while` loop once more.
  pub wake_forever : SyncQueue A → Wait A × SyncQueue A
  unfolding wait_start
  wake_forever q = wait_start (record q { waiting = q.waiting - 1 })
