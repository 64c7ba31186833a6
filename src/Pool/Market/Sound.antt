-- ===== src/Pool/Market/Sound.antt =====
-- src/ResourceManager.cpp: `total` counts the memos that exist, and a memo of a pool has its size.
use viva_voce.Prelude.{
  ℕ, zero, suc, ◌+◌, ◌/◌, ◌≡◌, refl, List, [], ◌∷◌, ◌++◌, Option, none, some, arith, length,
  length-append, drop,
}
use viva_voce.Queue.{new_queue, en_q, de_q, count}
use viva_voce.Pool.{
  Memo, ResourceManager, resource_manager, new_memo, fill, init, alloc_memo, release_memo, downsize,
}
use viva_voce.Pool.Loops.{reserve, length-fill, downsize_lem, shrink_lem}
use viva_voce.Pool.Market.{
  Market, Use, alloc, release, trim, Contents, take_out, rewrite, apply, apply_all, open_market,
}

abbrev pub AllSized : ℕ → List Memo → Type 0
AllSized s [] = Unit {0}
AllSized s (m ∷ rest) = (m.size ≡ s) × AllSized s rest

-- The memos in the reserve and those that are out are all there are, and have the pool's size.
pub record IsSound (s : ℕ) (k : Market) : Type 0 where
  pub sized : k.pool.size ≡ s
  pub accounted : k.pool.total ≡ length (reserve k.pool) + length k.out
  pub reserved : AllSized s (reserve k.pool)
  pub lent : AllSized s k.out

AllSized-snoc :
    (s : ℕ) (l : List Memo) (m : Memo) → AllSized s l → m.size ≡ s → AllSized s (l ++ m ∷ [])
AllSized-snoc s [] m h e = (e, tt)
AllSized-snoc s (x ∷ l) m h e = (h.0, AllSized-snoc s l m h.1 e)

AllSized-drop : (s n : ℕ) (l : List Memo) → AllSized s l → AllSized s (drop n l)
AllSized-drop s zero l h = h
AllSized-drop s (suc n) [] h = tt
AllSized-drop s (suc n) (x ∷ l) h = AllSized-drop s n l h.1

-- A memo that comes back has its size, and the others stay.
abbrev Restored : ℕ → List Memo → Option Memo → List Memo → Type 0
Restored s l none others = length others ≡ length l
Restored s l (some m) others = (m.size ≡ s) × (length l ≡ suc (length others))

take_out-Restored :
    (s n : ℕ) (c : Contents) (l : List Memo)
    → AllSized s l
    → Restored s l (rewrite c (take_out n l).0) (take_out n l).1 × AllSized s (take_out n l).1
unfolding take_out rewrite
take_out-Restored s n c [] h = (refl, tt)
take_out-Restored s zero c (m ∷ l) h = ((h.0, refl), h.1)
take_out-Restored s (suc n) c (m ∷ l) h = ground (arith, take_out-Restored s n c l h.1)

module _ (malloc : ℕ → List ℕ) (s : ℕ) where
  alloc-IsSound : (k : Market) → IsSound s k → IsSound s (apply malloc k alloc)
  unfolding apply alloc_memo new_memo de_q
  alloc-IsSound k v = ground arith

  release-IsSound :
      (k : Market) (n : ℕ) (c : Contents) → IsSound s k → IsSound s (apply malloc k (release n c))
  unfolding apply release_memo en_q
  release-IsSound k n c v =
      go (rewrite c (take_out n k.out).0) (take_out-Restored s n c k.out v.lent)
    where
      go :
          (taken : Option Memo)
          → Restored s k.out taken (take_out n k.out).1 × AllSized s (take_out n k.out).1
          → IsSound s (record { pool = release_memo taken k.pool; out = (take_out n k.out).1 })
      go none h = record {
        sized = v.sized;
        accounted = omega (arith, v.accounted, h.0);
        reserved = v.reserved;
        lent = h.1;
      }
      go (some m) h = record {
        sized = v.sized;
        accounted = omega (arith, v.accounted, h.0.1, length-append (reserve k.pool) (m ∷ []));
        reserved = AllSized-snoc s (reserve k.pool) m v.reserved h.0.0;
        lent = h.1;
      }

  trim-IsSound : (k : Market) → IsSound s k → IsSound s (apply malloc k trim)
  unfolding apply downsize count
  trim-IsSound k v = ground (
    arith,
    downsize_lem k.pool (omega arith),
    shrink_lem (length (reserve k.pool) / 20) k.pool (reserve k.pool) refl (omega arith),
    AllSized-drop s (length (reserve k.pool) / 20) (reserve k.pool) v.reserved,
  )

  apply-IsSound : (k : Market) (u : Use) → IsSound s k → IsSound s (apply malloc k u)
  apply-IsSound k alloc v = alloc-IsSound k v
  apply-IsSound k (release n c) v = release-IsSound k n c v
  apply-IsSound k trim v = trim-IsSound k v

  apply_all-IsSound : (us : List Use) (k : Market) → IsSound s k → IsSound s (apply_all malloc k us)
  unfolding apply_all
  apply_all-IsSound [] k v = v
  apply_all-IsSound (u ∷ us) k v = apply_all-IsSound us (apply malloc k u) (apply-IsSound k u v)

  fill-AllSized :
      (n : ℕ) (r : ResourceManager)
      → r.size ≡ s
      → AllSized s (reserve r)
      → AllSized s (reserve (fill malloc n r))
  unfolding fill new_memo en_q
  fill-AllSized zero r e h = h
  fill-AllSized (suc n) r e h = fill-AllSized n _ e (AllSized-snoc s (reserve r) _ h e)

  open_market-IsSound : (n : ℕ) → IsSound s (open_market malloc n s)
  unfolding open_market init resource_manager new_queue
  open_market-IsSound n =
      let r : ResourceManager = record {
        memo_q = new_queue;
        total = 0;
        size = s;
        init_count = n;
      } in
      let f = length-fill malloc n r in
      record {
        sized = f.0;
        accounted = omega (arith, f.1, f.2);
        reserved = fill-AllSized n r refl tt;
        lent = tt;
      }

  -- From a new pool of `n` memos of size `s`, after any sequence in which memos are taken from it,
  -- a memo that is out is given back to it with other contents of the same size, or it is trimmed,
  -- its total is the number of memos in the reserve and out, and every memo in the reserve or out
  -- has size `s`. (Memos of another pool that are put into it, as `cleanup` and the destructor of
  -- `Common` do, are not among these.)
  pub apply_all-open_market :
      (n : ℕ) (uses : List Use)
      → let k = apply_all malloc (open_market malloc n s) uses in
        (k.pool.total ≡ length (reserve k.pool) + length k.out)
        × AllSized s (reserve k.pool)
        × AllSized s k.out
  apply_all-open_market n uses =
      let v = apply_all-IsSound uses _ (open_market-IsSound n) in (v.accounted, v.reserved, v.lent)
