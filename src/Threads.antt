-- ===== src/Threads.antt =====
-- src/Thread.h and src/Thread.cpp, the branches for POSIX threads: the event that a thread waits for,
-- and the life of a thread. What the calls of the thread library return is an argument. Each
-- function of the event is one critical section: a wait that blocks gives the mutex up.
pub mod Events
mod Tests
use viva_voce.Prelude.{
  ℕ, zero, suc, ◌+◌, ◌-◌, ◌*◌, ◌/◌, Bool, true, false, ◌==◌, List, [], ◌∷◌, Option, none, some, ltb,
  if◌then◌else◌,
}
use viva_voce.Prelude.Int.{ℤ, pos, negsuc}

-- `status`, 0 or 1, and the calls of `pthread_cond_signal`.
pub record MyEvent : Type 0 where
  pub status : Bool
  pub signals : ℕ

abbrev pub evt_success : ℕ
evt_success = 0

abbrev pub evt_timed_out : ℕ
evt_timed_out = 21

abbrev pub new_event : MyEvent
new_event = record { status = false; signals = 0 }

pub signal_event : MyEvent → MyEvent
signal_event e = record { status = true; signals = if e.status then e.signals else suc e.signals }

-- The end of `pthread_cond_timedwait` in `Wait(timeout)`: on ETIMEDOUT, or not. Before it, the call
-- only computes the time: it blocks whatever `status` is.
pub wait_ends : Bool → MyEvent → ℕ × MyEvent
wait_ends true e = (evt_timed_out, e)
wait_ends false e = (evt_success, record e { status = false })

-- The test of the loop of `Wait()`, at first and after each wake: the call returns, or it blocks.
pub wait_tests : MyEvent → Option MyEvent
wait_tests e = if e.status then some (record e { status = false }) else none

-- `cond_var_timeout`, in seconds and nanoseconds, from `now` and the milliseconds to wait.
pub deadline : ℕ × ℕ → ℕ → ℕ × ℕ
deadline (tv_sec, tv_usec) timeout =
    let sec : ℕ = timeout / 1000 in
    let nsec : ℕ = (timeout - sec * 1000) * 1000000 in (tv_sec + sec, tv_usec * 1000 + nsec)

-- `if (ret == 0) ret = …`.
abbrev pub if_zero : ℤ → ℤ → ℤ
if_zero (pos zero) next = next
if_zero (pos (suc n)) next = pos (suc n)
if_zero (negsuc n) next = negsuc n

-- The calls of the thread library one after the other, up to the first that fails.
pub start_detached : ℤ → ℤ → ℤ → ℤ → ℤ
start_detached inherited scope detached created =
    if_zero (if_zero (if_zero inherited scope) detached) created

-- `join`, and `detach` likewise: a thread does not wait for itself.
pub join : Bool → ℤ → ℤ
join is_self joined = if is_self then negsuc 0 else joined

-- `status` of a thread is set once and never used; `key` and its data are the library's.
pub record Thread (P : Type 0) : Type 0 where
  pub id : ℕ
  pub is_stop : Bool
  pub running : Bool
  pub priority : ℕ
  pub param : Option P
  pub event : MyEvent

module _ {P : Type 0} where
  pub new_thread : ℕ → ℕ → Option P → Thread P
  new_thread id priority param = record {
    id = id;
    is_stop = false;
    running = false;
    priority = priority;
    param = param;
    event = new_event;
  }

  -- What `start` returns, with the result of `pthread_create`, and whether that was called.
  pub start : ℤ → Thread P → ℤ × Bool
  start created t = if t.running then (pos 1, false) else (created, true)

  pub stop_thread : Thread P → Thread P
  stop_thread t = record t { is_stop = true }

  -- `starter`, around the thread's own `run`.
  pub starter : (Thread P → Thread P) → Thread P → Thread P
  starter run t = let done = run (record t { running = true }) in record done { running = false }
