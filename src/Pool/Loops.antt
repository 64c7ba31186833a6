-- ===== src/Pool/Loops.antt =====
-- src/ResourceManager.cpp and `emptyQueue` of src/Common.cpp: what the loops do, with their fuel.
use mathlib.Core.List.{append-nil, append_assoc}
use viva_voce.Prelude.{
  ◌⊎◌, ℕ, zero, suc, ◌+◌, ◌-◌, ◌*◌, ◌/◌, ◌≤◌, ◌<◌, ◌≡◌, refl, List, [], ◌∷◌, ◌++◌, some, arith,
  length, length-append, drop, length-drop,
}
use viva_voce.Queue.{SyncQueue, en_q, de_q, count}
use viva_voce.Pool.{
  alloc_memo, Memo, ResourceManager, new_memo, fill, release_memo, clear_loop, clear, shrink,
  downsize, empty_loop, empty_queue,
}

abbrev pub reserve : ResourceManager → List Memo
reserve r = r.memo_q.data_q

module _ (malloc : ℕ → List ℕ) where
  pub length-fill :
      (n : ℕ) (r : ResourceManager)
      → ((fill malloc n r).size ≡ r.size)
        × (length (reserve (fill malloc n r)) ≡ n + length (reserve r))
        × ((fill malloc n r).total ≡ n + r.total)
  unfolding fill en_q
  length-fill zero r = omega arith
  length-fill (suc n) r =
      let r' : ResourceManager = record r {
        memo_q = en_q (new_memo malloc r) r.memo_q;
        total = suc r.total;
      } in
      ground (arith, length-fill n r', length-append (reserve r) (new_memo malloc r ∷ []))

clear_loop_lem :
    (fuel : ℕ) (r : ResourceManager) (emptied : ℕ) (l : List Memo)
    → reserve r ≡ l
    → length l < fuel
    → ((clear_loop fuel r emptied).0 ≡ emptied + length l)
      × (reserve (clear_loop fuel r emptied).1 ≡ [])
      × ((clear_loop fuel r emptied).1.total ≡ r.total)
unfolding clear_loop de_q
clear_loop_lem zero r n l e h = absurd (omega arith)
clear_loop_lem (suc fuel) r n [] e h = ground arith
clear_loop_lem (suc fuel) r n (x ∷ l) e h = ground (
  arith,
  clear_loop_lem fuel (record r { memo_q = record r.memo_q { data_q = l } }) (suc n) l refl,
)

pub shrink_lem :
    (n : ℕ) (r : ResourceManager) (l : List Memo)
    → reserve r ≡ l
    → n ≤ length l
    → (reserve (shrink n r) ≡ drop n l)
      × ((shrink n r).total ≡ r.total - n)
      × ((shrink n r).size ≡ r.size)
unfolding shrink de_q
shrink_lem zero r l e h = ground arith
shrink_lem (suc n) r [] e h = absurd (omega arith)
shrink_lem (suc n) r (x ∷ l) e h = ground (
  arith,
  shrink_lem n (record r { memo_q = record r.memo_q { data_q = l }; total = r.total - 1 }) l refl,
)

empty_loop_lem :
    (fuel : ℕ) (q : SyncQueue Memo) (r : ResourceManager) (n : ℕ) (l : List Memo)
    → q.data_q ≡ l
    → length l < fuel
    → let (moved, q', r') = empty_loop fuel q r n in
      (moved ≡ n + length l) × (q'.data_q ≡ []) × (reserve r' ≡ reserve r ++ l)
unfolding empty_loop de_q count release_memo en_q
empty_loop_lem zero q r n l e h = absurd (omega arith)
empty_loop_lem (suc fuel) q r n [] e h = ground (arith, append-nil (reserve r))
empty_loop_lem (suc fuel) q r n (x ∷ l) e h = ground (
  arith,
  empty_loop_lem fuel (record q { data_q = l }) (release_memo (some x) r) (suc n) l refl,
  append_assoc (reserve r) (x ∷ []) l,
)

-- `clear` frees every memo of the reserve, returns how many there were, and leaves `total` as it
-- is.
pub clear_lem :
    (r : ResourceManager)
    → ((clear r).0 ≡ length (reserve r))
      × (reserve (clear r).1 ≡ [])
      × ((clear r).1.total ≡ r.total)
unfolding clear count
clear_lem r =
    ground (arith, clear_loop_lem (suc (length (reserve r))) r 0 (reserve r) refl (omega arith))

-- `downsize`, of a pool whose reserve is no more than its total, takes what it returns from the
-- reserve and from `total`. It never takes a reserve of at least `initCount` memos below
-- `initCount`, and takes nothing from one of at most twice that.
pub downsize_lem :
    (r : ResourceManager)
    → length (reserve r) ≤ r.total
    → let (freed, r') = downsize r in
      (length (reserve r') + freed ≡ length (reserve r))
      × (r'.total + freed ≡ r.total)
      × ((length (reserve r) < r.init_count) ⊎ (r.init_count ≤ length (reserve r')))
      × ((r.init_count * 2 < length (reserve r)) ⊎ (freed ≡ 0))
unfolding downsize count
downsize_lem r h = ground (
  arith,
  shrink_lem (length (reserve r) / 20) r (reserve r) refl (omega arith),
  length-drop (length (reserve r) / 20) (reserve r),
)

-- `emptyQueue` moves every memo of the queue to the end of the reserve, in order, leaves the queue
-- empty, and returns the number of memos moved.
pub empty_queue_lem :
    (q : SyncQueue Memo) (r : ResourceManager)
    → let (moved, q', r') = empty_queue q r in
      (moved ≡ length q.data_q) × (q'.data_q ≡ []) × (reserve r' ≡ reserve r ++ q.data_q)
unfolding empty_queue count
empty_queue_lem q r =
    ground (arith, empty_loop_lem (suc (length q.data_q)) q r 0 q.data_q refl (omega arith))

-- A memo that is allocated comes from the reserve, or is a new one in `total`.
pub alloc_memo_lem :
    (malloc : ℕ → List ℕ) (r : ResourceManager)
    → let r' = (alloc_memo malloc r).1 in
      length (reserve r) + r'.total ≡ suc (length (reserve r')) + r.total
unfolding alloc_memo de_q
alloc_memo_lem malloc r = ground arith
