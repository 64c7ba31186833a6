-- ===== src/Pool/Tests.antt =====
-- src/ResourceManager.cpp: the theorems at small pools.
use viva_voce.Prelude.{ℕ, ◌+◌, ◌≡◌, List, [], ◌∷◌, length, replicate}
use viva_voce.Queue.{SyncQueue}
use viva_voce.Pool.{Memo, ResourceManager}
use viva_voce.Pool.Loops.{reserve}
use viva_voce.Pool.Market.{Contents, Use, alloc, release, trim, apply_all, open_market}
use viva_voce.Pool.Market.Sound.{AllSized, apply_all-open_market}

abbrev zeros : ℕ → List ℕ
zeros n = replicate n 0

abbrev contents : Contents
contents = record { code = 1; data1 = 2; data2 = 3; bytes = 4 ∷ [] }

abbrev uses : List Use
uses = alloc ∷ alloc ∷ alloc ∷ release 1 contents ∷ trim ∷ release 7 contents ∷ []

apply_all-open_market_example :
    let k = apply_all zeros (open_market zeros 2 16) uses in
    (k.pool.total ≡ length (reserve k.pool) + length k.out)
    × AllSized 16 (reserve k.pool)
    × AllSized 16 k.out
apply_all-open_market_example = apply_all-open_market zeros 16 2 uses

abbrev memo : Memo
memo = record { id = 0; code = 0; data1 = 0; data2 = 0; bytes = 0 ∷ []; size = 1 }

abbrev full : SyncQueue Memo
full = record { data_q = replicate 41 memo; waiting = 0; signals = 0 }

abbrev pool : ResourceManager
pool = record { memo_q = full; total = 42; size = 1; init_count = 4 }
