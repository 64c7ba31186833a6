-- ===== src/Udp/Link/Memos.antt =====
-- src/UdpRW.cpp: where the memos and the datagrams go.
use viva_voce.Prelude.{
  ℕ, suc, ◌+◌, ◌≡◌, ◌≢◌, ◌<◌, ◌≤◌, ◌⊎◌, Bool, Option, none, some, List, [], ◌∷◌, ◌++◌, take, drop,
  length, length-append, arith,
}
use viva_voce.Queue.{en_q}
use viva_voce.Pool.{Memo, alloc_memo, release_memo}
use viva_voce.Queue.Lengths.{length-signal_data}
use viva_voce.Pool.Loops.{reserve, alloc_memo_lem}
use viva_voce.Rtp.RoundTrip.{write_into-some}
use viva_voce.Rtp.Manager.{Manager, handle_rtp_send, swap_first}
use viva_voce.Udp.{Address}
use viva_voce.Udp.Link.{
  Link, Datagram, post, give_back, give_back_sip, write_audio, write_memo, read_sip,
  vivoce_msg_send, vivoce_msg_report, vivoce_respond, vivoce_sip_rcvd,
}

module _ {F : Type 0} where
  -- One memo more is in the reserve of the audio memos.
  abbrev pub Returned : Link F → Option (Link F) → Type 0
  Returned l none = ⊥
  Returned l (some m) = length (reserve m.rmg) ≡ suc (length (reserve l.rmg))

  handle_rtp_send-some :
      (bytes : List ℕ) (len size : ℕ) (m : Manager F)
      → 1 < length bytes
      → len ≤ length bytes
      → len + 12 ≤ size
      → size < 2147483648
      → handle_rtp_send bytes len size m ≢ none
  unfolding handle_rtp_send swap_first
  handle_rtp_send-some [] len size m h k f small = ground arith
  handle_rtp_send-some (x ∷ []) len size m h k f small = ground arith
  handle_rtp_send-some (x ∷ y ∷ r) len size m h k f small =
      let q = m.send_pack in
      let p = record q {
        payload = y ∷ x ∷ r;
        length = len;
        timestamp = m.rtp_timestamp_send;
        sequence = m.sequence;
      } in
      rw (write_into-some p size small k f) (λ e. cc)

  give_back-length :
      (memo : Memo) (l : Link F)
      → length (reserve (give_back memo l).rmg) ≡ suc (length (reserve l.rmg))
  unfolding give_back release_memo en_q
  give_back-length memo l = omega (arith, length-append (reserve l.rmg) (memo ∷ []))

  write_audio-Returned :
      (sendto : Datagram → Bool) (size : ℕ) (memo : Memo) (l : Link F)
      → 1 < length memo.bytes
      → memo.data1 ≤ length memo.bytes
      → memo.data1 + 12 ≤ size
      → size < 2147483648
      → Returned l (write_audio sendto size memo l)
  unfolding write_audio post
  write_audio-Returned sendto size memo l h k f small =
      let n = handle_rtp_send-some memo.bytes memo.data1 size l.manager h k f small in
      grind (arith, give_back-length, n)

  -- The writer's handling of an audio, report or status memo with at least two bytes, whose length
  -- `data1` is no more than its bytes and at least 12 less than the size of the output buffer,
  -- which is below 2 ^ 31, causes no fault, and one memo more is in the reserve of the audio memos
  -- then, whether there is a call or not and whether the datagram could be sent or not.
  pub write_memo-Returned :
      (sendto : Datagram → Bool) (size : ℕ) (verbose : Bool) (known : Address → Bool) (memo : Memo)
      (l : Link F)
      → (memo.code ≡ vivoce_msg_send)
        ⊎ ((memo.code ≡ vivoce_msg_report) ⊎ (memo.code ≡ vivoce_respond))
      → 1 < length memo.bytes
      → memo.data1 ≤ length memo.bytes
      → memo.data1 + 12 ≤ size
      → size < 2147483648
      → Returned l (write_memo sendto size verbose known memo l)
  unfolding write_memo
  write_memo-Returned sendto size verbose known memo l c h k f small =
      ground (arith, write_audio-Returned sendto size memo l h k f small, give_back-length memo l)

  -- Reading the SIP socket loses no memo: the memos in the agent's queue and in the reserve of the
  -- SIP pool, together, grow by as many as the pool's total does.
  pub read_sip_lem :
      (malloc : ℕ → List ℕ) (packet : List ℕ) (l : Link F)
      → let m = read_sip malloc packet l in
        length m.signal_q.data_q + length (reserve m.sip_rmg) + l.sip_rmg.total
        ≡ length l.signal_q.data_q + length (reserve l.sip_rmg) + m.sip_rmg.total
  unfolding read_sip give_back_sip release_memo en_q
  read_sip_lem malloc [] l =
      let (memo, pool) = alloc_memo malloc l.sip_rmg in
      let taken : Memo = record memo { code = vivoce_sip_rcvd } in
      omega (arith, alloc_memo_lem malloc l.sip_rmg, length-append (reserve pool) (taken ∷ []))
  read_sip_lem malloc (b ∷ bs) l =
      let (memo, pool) = alloc_memo malloc l.sip_rmg in
      let read = take memo.size (b ∷ bs) in
      let full : Memo = record memo {
        code = vivoce_sip_rcvd;
        data1 = length read;
        bytes = read ++ drop (length read) memo.bytes;
      } in
      omega (arith, alloc_memo_lem malloc l.sip_rmg, length-signal_data full l.signal_q)
