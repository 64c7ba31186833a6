-- ===== src/Adpcm/Worker/Custody.antt =====
-- src/AdpcmCodec.cpp: where the codec thread leaves a memo.
use viva_voce.Prelude.{
  ℕ, suc, ◌+◌, ◌≡◌, ap, Option, none, some, Bool, true, false, ◌==◌, ◌||◌, if◌then◌else◌, arith,
  length, length-append, [], ◌∷◌,
}
use viva_voce.Queue.{en_q}
use viva_voce.Queue.Lengths.{length-signal_data}
use viva_voce.Pool.{Memo, release_memo}
use viva_voce.Adpcm.Worker.{
  AdpcmCodec, Worker, after_encode, after_decode, serve_memo, msg_enc, msg_dec, msg_send, msg_play,
  respond,
}

-- The memos in the send queue, the play queue and the reserve.
abbrev pub held : Worker → ℕ
held w = length w.send_q.data_q + length w.play_q.data_q + length w.rmg.memo_q.data_q

abbrev result : Option Worker → ℕ
result none = 0
result (some w) = suc (held w)

module _ (w w' : Worker) where
  after_encode-held :
      (o : Option (AdpcmCodec × Memo)) → after_encode w o ≡ some w' → held w' ≡ held w + 1
  unfolding after_encode
  after_encode-held none h = absurd (omega (arith, ap result h))
  after_encode-held (some (c, memo)) h =
      omega (arith, ap result h, length-signal_data (record memo { code = msg_send }) w.send_q)

  after_decode-held :
      (o : Option (AdpcmCodec × Memo)) → after_decode w o ≡ some w' → held w' ≡ held w + 1
  unfolding after_decode
  after_decode-held none h = absurd (omega (arith, ap result h))
  after_decode-held (some (c, memo)) h =
      omega (arith, ap result h, length-signal_data (record memo { code = msg_play }) w.play_q)

  release-held :
      (memo : Memo)
      → some (record w { rmg = release_memo (some memo) w.rmg }) ≡ some w'
      → held w' ≡ held w + 1
  unfolding release_memo en_q
  release-held memo h = omega (arith, ap result h, length-append w.rmg.memo_q.data_q (memo ∷ []))

  by_code :
      (enc dec resp : Bool) (o d : Option (AdpcmCodec × Memo)) (memo : Memo)
      → (if enc
          then after_encode w o
          else if dec
          then after_decode w d
          else if resp
          then some (record w { rmg = release_memo (some memo) w.rmg })
          else some w)
        ≡ some w'
      → held w' ≡ held w + (if enc || (dec || resp) then 1 else 0)
  by_code true dec resp o d memo h = after_encode-held o h
  by_code false true resp o d memo h = after_decode-held d h
  by_code false false true o d memo h = release-held memo h
  by_code false false false o d memo h = omega (arith, ap result h)

  -- If the codec thread serves a memo without a fault, the send queue, the play queue and the
  -- reserve of the pool, together, hold one memo more for a memo to encode, a memo to decode and a
  -- status memo, and as many as before for a memo with any other code.
  pub serve_memo-held :
      (audio_u2s audio_s2u : ℕ → ℕ) (memo : Memo)
      → serve_memo audio_u2s audio_s2u memo w ≡ some w'
      → held w'
        ≡ held w
          + (if memo.code == msg_enc || (memo.code == msg_dec || memo.code == respond)
              then 1
              else 0)
  unfolding serve_memo
  serve_memo-held audio_u2s audio_s2u memo h = by_code _ _ _ _ _ memo h
