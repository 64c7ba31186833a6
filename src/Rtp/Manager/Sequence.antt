-- ===== src/Rtp/Manager/Sequence.antt =====
-- src/RTPManager.cpp: the numbers of the packets sent and received.
use viva_voce.Prelude.{
  ℕ, suc, ◌+◌, ◌≤◌, ◌&&◌, leb, ◌*◌, ◌%◌, ◌<◌, ◌≡◌, refl, ◌∙◌, Bool, true, false, Option, none, some,
  List, [], ◌∷◌, length, ltb, ◌>>=◌, if◌then◌else◌, arith,
}
use viva_voce.Rtp.{RtpPacket}
use viva_voce.Rtp.RoundTrip.{write_into-some}
use viva_voce.Rtp.Manager.{Manager, swap_first, count_sent, handle_rtp_send, count_received}

-- Each payload has the two bytes of `first`, and room in the buffer behind the header.
abbrev pub all_fit : ℕ → List (List ℕ) → Bool
all_fit size [] = true
all_fit size (b ∷ bs) =
    if ltb 1 (length b) && leb (length b + 12) size then all_fit size bs else false

abbrev pub AllShort : List ℕ → Type 0
AllShort [] = Unit
AllShort (s ∷ ss) = (s < 65536) × AllShort ss

module _ {F : Type 0} where
  -- The calls of `handleRTPSend` for some payloads.
  abbrev pub send_all : ℕ → List (List ℕ) → Manager F → Option (Manager F)
  send_all size [] m = some m
  send_all size (b ∷ bs) m = do r ← handle_rtp_send b (length b) size m; send_all size bs r.2

  -- The number of the next packet, of 32 bits.
  abbrev pub extended : Manager F → ℕ
  extended m = 65536 * m.seq_wrap + m.sequence

  pub record Ready (m : Manager F) : Type 0 where
    pub sequence : m.sequence < 65536
    pub seq_wrap : m.seq_wrap < 65536
    pub stamp : m.rtp_timestamp_send < 4294967296

  pub record Sends (n : ℕ) (a b : Manager F) : Type 0 where
    pub number : extended b ≡ (extended a + n) % 4294967296
    pub stamp : b.rtp_timestamp_send ≡ (a.rtp_timestamp_send + 161 * n) % 4294967296
    pub ready : Ready b

  abbrev pub SendsAll : ℕ → Manager F → Option (Manager F) → Type 0
  SendsAll n a none = ⊥
  SendsAll n a (some b) = Sends n a b

  count_sent-Sends :
      (p : RtpPacket) (m : Manager F)
      → Ready m
      → Sends 1 m (count_sent (record m { send_pack = p }))
  unfolding count_sent
  count_sent-Sends p m v = ground arith

  add_one_sent :
      (n : ℕ) (a b : Manager F) (o : Option (Manager F))
      → Sends 1 a b
      → SendsAll n b o
      → SendsAll (suc n) a o
  add_one_sent n a b none v w = w
  add_one_sent n a b (some c) v w = record {
    number = omega (arith, v.number, w.number);
    stamp = omega (arith, v.stamp, w.stamp);
    ready = w.ready;
  }

  -- One call is the count, and no fault.
  sent_one :
      (size n : ℕ) (b : List ℕ) (bs : List (List ℕ)) (m : Manager F)
      → 1 < length b
      → length b + 12 ≤ size
      → size < 2147483648
      → ((c : Manager F) → Sends 1 m c → SendsAll n c (send_all size bs c))
      → Ready m
      → SendsAll (suc n) m (send_all size (b ∷ bs) m)
  unfolding handle_rtp_send swap_first
  sent_one size n (x ∷ y ∷ r) bs m h fits small k v =
      let q = m.send_pack in
      let p = record q {
        sequence = m.sequence;
        timestamp = m.rtp_timestamp_send;
        payload = y ∷ x ∷ r;
        length = length (x ∷ y ∷ r);
      } in
      let c = count_sent (record m { send_pack = p }) in
      let one = count_sent-Sends p m v in
      rw (write_into-some p size small (omega arith) fits)
        (add_one_sent n m c (send_all size bs c) one (k c one))
  sent_one size n (x ∷ []) bs m h fits small k v = ground arith
  sent_one size n [] bs m h fits small k v = ground arith

  -- Sending payloads of at least two bytes each, each at least 12 bytes shorter than the buffer,
  -- whose size is below 2 ^ 31, causes no fault. After `n` of them, `seqWrap` and `sequence`
  -- together are the 32-bit number they were before, plus `n`, and the time stamp is the one
  -- before plus 161 for each, as 32 bits, if the three counters were within their widths, as they
  -- still are.
  pub send_all_lem :
      (size : ℕ) (bufs : List (List ℕ)) (m : Manager F)
      → all_fit size bufs ≡ true
      → size < 2147483648
      → Ready m
      → SendsAll (length bufs) m (send_all size bufs m)
  send_all_lem size [] m h small v = record {
    number = omega (arith, v.seq_wrap, v.sequence);
    stamp = omega (arith, v.stamp);
    ready = v;
  }
  send_all_lem size (b ∷ bs) m h small v =
      sent_one size (length bs) b bs m (ground arith) (ground arith) small
        (λ c w. send_all_lem size bs c (ground arith) small w.ready) v

  -- The calls of `count_received` for the numbers of some packets.
  abbrev pub receive_all : List ℕ → Manager F → Manager F
  receive_all [] m = m
  receive_all (s ∷ ss) m = receive_all ss (count_received s m)

  count_received-wrap :
      (s : ℕ) (m : Manager F) → s < 65536 → (count_received s m).recv_seq_wrap ≡ m.recv_seq_wrap
  unfolding count_received
  count_received-wrap s m h = ground arith

  pub record Counts (n : ℕ) (a b : Manager F) : Type 0 where
    pub lost :
        (b.n_packets_lost + n + a.recv_seq_next) % 4294967296
        ≡ (a.n_packets_lost + b.recv_seq_next) % 4294967296
    pub recvd : b.n_packets_recvd ≡ a.n_packets_recvd + n
    pub next : b.recv_seq_next < 4294967296
    pub small : b.n_packets_lost < 4294967296

  count_received-Counts :
      (s : ℕ) (m : Manager F)
      → s < 65536
      → m.n_packets_lost < 4294967296
      → m.recv_seq_next < 4294967296
      → 0 < m.n_packets_recvd
      → suc m.n_packets_recvd < 4294967296
      → Counts 1 m (count_received s m)
  unfolding count_received
  count_received-Counts s m h i j k l = ground arith

  add_one_counted : (n : ℕ) (a b c : Manager F) → Counts 1 a b → Counts n b c → Counts (suc n) a c
  add_one_counted n a b c v w = record {
    lost = omega (arith, v.lost, w.lost);
    recvd = omega (arith, v.recvd, w.recvd);
    next = w.next;
    small = w.small;
  }

  -- After `n` packets with 16-bit numbers, in a manager that has received some and whose packet
  -- count does not overflow, the count of lost packets has grown by the distance of the expected
  -- number less `n`, in 32 bits; the count of packets has grown by `n`; and the expected number
  -- and the loss are within 32 bits.
  pub receive_all-Counts :
      (ss : List ℕ) (m : Manager F)
      → AllShort ss
      → m.n_packets_lost < 4294967296
      → m.recv_seq_next < 4294967296
      → 0 < m.n_packets_recvd
      → m.n_packets_recvd + length ss < 4294967296
      → Counts (length ss) m (receive_all ss m)
  receive_all-Counts [] m t h i j k = record {
    lost = omega arith;
    recvd = omega arith;
    next = i;
    small = h;
  }
  receive_all-Counts (s ∷ ss) m (t, ts) h i j k =
      let v = count_received-Counts s m t h i j (omega arith) in
      add_one_counted (length ss) m (count_received s m) (receive_all ss (count_received s m)) v (
        receive_all-Counts ss (count_received s m) ts v.small v.next (omega (arith, v.recvd))
          (omega (arith, v.recvd)))

  -- However many packets with 16-bit numbers come, `recvSeqWrap` stays as it was: the branch that
  -- counts a rollover is never taken.
  pub receive_all-wrap :
      (ss : List ℕ) (m : Manager F)
      → AllShort ss
      → (receive_all ss m).recv_seq_wrap ≡ m.recv_seq_wrap
  receive_all-wrap [] m t = refl
  receive_all-wrap (s ∷ ss) m (t, ts) =
      receive_all-wrap ss (count_received s m) ts ∙ count_received-wrap s m t
