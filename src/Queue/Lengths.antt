-- ===== src/Queue/Lengths.antt =====
-- src/SyncQueue.cpp: how many pointers are queued.
use viva_voce.Prelude.{suc, ◌≡◌, [], ◌∷◌, length, length-append, arith}
use viva_voce.Queue.{SyncQueue, en_q, signal_data}

module _ {ℓ} {A : Type ℓ} where
  pub length-signal_data :
      (a : A) (q : SyncQueue A) → length (signal_data a q).data_q ≡ suc (length q.data_q)
  unfolding signal_data en_q
  length-signal_data a q = ground (arith, length-append q.data_q (a ∷ []))
