-- ===== src/Pool/Market.antt =====
-- src/ResourceManager.cpp: the uses of one pool, by any number of holders.
pub mod Sound
use viva_voce.Prelude.{
  ℕ, zero, suc, ◌+◌, ◌-◌, ◌*◌, ◌/◌, ◌≤◌, ◌<◌, ◌≡◌, refl, List, [], ◌∷◌, ◌++◌, Option, none, some,
  arith, length, length-append, leb, if◌then◌else◌,
}
use viva_voce.Queue.{SyncQueue, new_queue, en_q, de_q, count, pop_front}
use viva_voce.Pool.{
  Memo, ResourceManager, resource_manager, new_memo, fill, init, alloc_memo, release_memo,
  memos_in_reserve, clear_loop, clear, shrink, downsize, empty_loop, empty_queue,
}

-- The fields of a memo that its holder writes.
pub record Contents : Type 0 where
  pub code : ℕ
  pub data1 : ℕ
  pub data2 : ℕ
  pub bytes : List ℕ

-- What the users of one pool do: take a memo, give back the memo at a place among those that are
-- out, with new contents, or trim the reserve.
pub data Use : Type 0 where
  alloc : Use
  release : ℕ → Contents → Use
  trim : Use

pub take_out : ℕ → List Memo → Option Memo × List Memo
take_out n [] = (none, [])
take_out zero (m ∷ rest) = (some m, rest)
take_out (suc n) (m ∷ rest) = let (taken, others) = take_out n rest in (taken, m ∷ others)

pub rewrite : Contents → Option Memo → Option Memo
rewrite c none = none
rewrite c (some m) =
    some (record m { code = c.code; data1 = c.data1; data2 = c.data2; bytes = c.bytes })

-- A pool and the memos that are out.
pub record Market : Type 0 where
  pub pool : ResourceManager
  pub out : List Memo

module _ (malloc : ℕ → List ℕ) where
  pub apply : Market → Use → Market
  unfolding take_out rewrite
  apply k alloc = let (m, r) = alloc_memo malloc k.pool in record { pool = r; out = m ∷ k.out }
  apply k (release n c) =
      let (taken, others) = take_out n k.out in
      record { pool = release_memo (rewrite c taken) k.pool; out = others }
  apply k trim = record k { pool = (downsize k.pool).1 }

  pub apply_all : Market → List Use → Market
  apply_all k [] = k
  apply_all k (u ∷ rest) = apply_all (apply k u) rest

  -- The pool as `Common` makes it, after `init`.
  pub open_market : ℕ → ℕ → Market
  open_market n size = record { pool = init malloc (resource_manager n size); out = [] }
