-- ===== src/Pool.antt =====
-- src/ResourceManager.h and src/ResourceManager.cpp: the pool of memos, and `emptyQueue` of
-- src/Common.cpp. A memo is owned by one holder at a time and passed on by its pointer, so it is a
-- value here. What `malloc` puts into a new buffer is a parameter.
pub mod Market
pub mod Loops
mod Tests
use viva_voce.Prelude.{
  ℕ, zero, suc, ◌+◌, ◌-◌, ◌*◌, ◌/◌, ◌%◌, ◌^◌, List, [], ◌∷◌, Option, none, some, leb, if◌then◌else◌,
}
use viva_voce.Queue.{SyncQueue, new_queue, en_q, de_q, count}

-- `id` is a `short`; it is written as its bit pattern.
pub record Memo : Type 0 where
  pub id : ℕ
  pub code : ℕ
  pub data1 : ℕ
  pub data2 : ℕ
  pub bytes : List ℕ
  pub size : ℕ

pub record ResourceManager : Type 0 where
  pub memo_q : SyncQueue Memo
  pub total : ℕ
  pub size : ℕ
  pub init_count : ℕ

unfoldable pub resource_manager : ℕ → ℕ → ResourceManager
resource_manager init size = record {
  memo_q = new_queue;
  total = 0;
  size = size;
  init_count = init;
}

module _ (malloc : ℕ → List ℕ) where
  -- `new Memo()`, which clears the fields, with its number, its size and a new buffer.
  unfoldable pub new_memo : ResourceManager → Memo
  new_memo r = record {
    id = r.total % 2 ^ 16;
    code = 0;
    data1 = 0;
    data2 = 0;
    bytes = malloc r.size;
    size = r.size;
  }

  -- The loop of `init`, by the rounds left.
  pub fill : ℕ → ResourceManager → ResourceManager
  unfolding new_memo
  fill zero r = r
  fill (suc n) r = fill n (record r { memo_q = en_q (new_memo r) r.memo_q; total = suc r.total })

  pub init : ResourceManager → ResourceManager
  unfolding fill
  init r = fill r.init_count (record r { total = 0 })

  unfoldable pub alloc_memo : ResourceManager → Memo × ResourceManager
  unfolding new_memo
  alloc_memo r =
      let (front, rest) = de_q r.memo_q in
      elim front [
        | some memo ↦ (memo, record r { memo_q = rest })
        | none ↦ (new_memo r, record r { memo_q = rest; total = suc r.total })
      ]

-- The null pointer is ignored.
unfoldable pub release_memo : Option Memo → ResourceManager → ResourceManager
release_memo none r = r
release_memo (some memo) r = record r { memo_q = en_q memo r.memo_q }

pub memos_in_reserve : ResourceManager → ℕ
memos_in_reserve r = count r.memo_q

-- The loop of `clear` by fuel: the memos freed, and the pool. `clear` leaves `total` alone.
pub clear_loop : ℕ → ResourceManager → ℕ → ℕ × ResourceManager
clear_loop zero r emptied = (emptied, r)
clear_loop (suc fuel) r emptied =
    let (front, rest) = de_q r.memo_q in
    elim front [
      | some memo ↦ clear_loop fuel (record r { memo_q = rest }) (suc emptied)
      | none ↦ (emptied, record r { memo_q = rest })
    ]

pub clear : ResourceManager → ℕ × ResourceManager
unfolding clear_loop
clear r = clear_loop (suc (count r.memo_q)) r 0

-- The loop of `downsize`, by `emptied`.
pub shrink : ℕ → ResourceManager → ResourceManager
shrink zero r = r
shrink (suc emptied) r =
    let (front, rest) = de_q r.memo_q in
    elim front [
      | some memo ↦ shrink emptied (record r { memo_q = rest; total = r.total - 1 })
      | none ↦ record r { memo_q = rest }
    ]

pub downsize : ResourceManager → ℕ × ResourceManager
unfolding shrink memos_in_reserve
downsize r =
    let emptied = count r.memo_q / 20 in
    if leb (count r.memo_q) (r.init_count * 2) then (0, r) else (emptied, shrink emptied r)

-- The loop of `emptyQueue` by fuel: the memos moved, the queue and the pool.
pub empty_loop : ℕ → SyncQueue Memo → ResourceManager → ℕ → ℕ × SyncQueue Memo × ResourceManager
empty_loop zero q r transferred = (transferred, q, r)
empty_loop (suc fuel) q r transferred =
    let (front, rest) = de_q q in
    elim (count q) [
      | zero ↦ (transferred, q, r)
      | suc n ↦ empty_loop fuel rest (release_memo front r) (suc transferred)
    ]

pub empty_queue : SyncQueue Memo → ResourceManager → ℕ × SyncQueue Memo × ResourceManager
unfolding empty_loop
empty_queue q r = empty_loop (suc (count q)) q r 0
