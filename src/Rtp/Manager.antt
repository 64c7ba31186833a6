-- ===== src/Rtp/Manager.antt =====
-- src/RTPManager.cpp: the state, the sequence numbers and the counters of a call. The clock and the
-- floating-point unit are parameters; the statistics file is left out. Reports has the RTCP reports.
pub mod Sequence
pub mod Reports
use viva_voce.Prelude.{
  ℕ, suc, ◌+◌, ◌-◌, ◌*◌, ◌/◌, ◌%◌, Bool, true, false, Option, none, some, List, [], ◌∷◌, ◌==◌, leb,
  ltb, ◌>>=◌, if◌then◌else◌,
}
use viva_voce.Rtp.{RtpPacket, write_into, written, parse_bytes, point_data}
use viva_voce.Rtp.Rtcp.{
  SenderReport, ReceiverReport, RtcpPacket, reset, set_sender, get_sender, add_receiver,
  next_receiver, write_rtcp, parse_rtcp, rtcp_rep_type_sr, rtcp_rep_type_rr,
}

-- The arithmetic of `double`.
pub record Floating (F : Type 0) : Type 0 where
  pub of_ulong : ℕ → F
  pub to_ulong : F → ℕ
  pub add : F → F → F
  pub sub : F → F → F
  pub mul : F → F → F
  pub div : F → F → F
  pub negate : F → F
  pub is_negative : F → Bool

-- The results -1, 0 and 1 of `handleRTCPRecv`.
pub data Received : Type 0 where
  malformed noted answered : Received

-- `struct timeval`.
pub record Timeval : Type 0 where
  pub sec : ℕ
  pub usec : ℕ

-- `RTPState`, and the packets and reports of `RTPManager`. An `unsigned long` has 32 bits.
pub record Manager (F : Type 0) : Type 0 where
  pub sequence : ℕ
  pub seq_wrap : ℕ
  pub is_first_pack : Bool
  pub total : ℕ
  pub recv_seq_next : ℕ
  pub recv_seq : ℕ
  pub recv_seq_wrap : ℕ
  pub n_packets_lost : ℕ
  pub n_packets_recvd : ℕ
  pub n_packets_sent : ℕ
  pub n_bytes_recvd : ℕ
  pub n_bytes_sent : ℕ
  pub rtp_timestamp_send : ℕ
  pub rtp_timestamp_recv : ℕ
  pub lsr : ℕ
  pub tlsr_sec : ℕ
  pub n_srep : ℕ
  pub n_rrep : ℕ
  pub tsr_last_sent : ℕ
  pub trr_last_sent : ℕ
  pub ssrc : ℕ
  pub remote_ssrc : ℕ
  pub dij : F
  pub rj : F
  pub ri : F
  pub sj : ℕ
  pub si : ℕ
  pub tlsr_recvd : ℕ
  pub rtt_prop_delay : ℕ
  pub jitter_prev : F
  pub jitter : F
  pub last_packet_count : ℕ
  pub sr_period_sec : ℕ
  pub recv_pack : RtpPacket
  pub send_pack : RtpPacket
  pub recv_rtcp : RtcpPacket
  pub send_rtcp : RtcpPacket
  pub sender_recv : SenderReport
  pub receiver : ReceiverReport
  pub receiver_recv : ReceiverReport

-- The 32 bits of a sum and of a difference.
abbrev pub add32 : ℕ → ℕ → ℕ
add32 a b = (a + b) % 4294967296

abbrev pub sub32 : ℕ → ℕ → ℕ
sub32 a b = (a % 4294967296 + 4294967296 - b % 4294967296) % 4294967296

-- `getRTPTime`: the low half of the one above the high half of the other.
abbrev pub get_rtp_time : ℕ → ℕ → ℕ
get_rtp_time x y = x * 65536 % 4294967296 + y / 65536 % 65536

-- `payload->first = htons(payload->first)`, on a buffer of at least two bytes.
unfoldable pub swap_first : List ℕ → Option (List ℕ)
swap_first (a ∷ b ∷ r) = some (b ∷ a ∷ r)
swap_first r = none

module _ {F : Type 0} where
  -- `init`, with the three random numbers, the second of which is drawn and overwritten.
  unfoldable pub init : ℕ → ℕ → ℕ → ℕ → Manager F → Manager F
  init type r1 r2 r3 m =
      let p = m.send_pack in
      let c = m.send_rtcp in
      let r = m.receiver in
      record m {
        sequence = 0;
        ssrc = r1;
        send_pack = record p { ssrc = r1; payload_type = type; timestamp = r3 };
        send_rtcp = record c { ssrc = r1 };
        receiver = record r { ssrc = r1 };
        rtp_timestamp_send = r3;
        rtp_timestamp_recv = 0;
        recv_seq_next = 0;
        recv_seq = 0;
        is_first_pack = true;
      }

  -- `isTimeForSR` and `isPeerAlive`, at a time in seconds.
  unfoldable pub is_time_for_sr : ℕ → Manager F → Bool
  is_time_for_sr now m = leb m.sr_period_sec (sub32 now m.tsr_last_sent)

  unfoldable pub is_peer_alive : ℕ → Manager F → Bool
  is_peer_alive now m = leb (m.sr_period_sec * 5) (sub32 now m.tsr_last_sent)

  -- The counters after a packet is sent; `sequence` and `seqWrap` have 16 bits.
  unfoldable pub count_sent : Manager F → Manager F
  count_sent m =
      let next = suc m.sequence % 65536 in
      let m1 = record m {
        n_packets_sent = add32 m.n_packets_sent 1;
        n_bytes_sent = add32 m.n_bytes_sent 84;
        rtp_timestamp_send = add32 m.rtp_timestamp_send 161;
        sequence = next;
      } in
      if leb next 0 then record m1 { seq_wrap = suc m.seq_wrap % 65536; sequence = 0 } else m1

  -- `handleRTPSend`: the bytes in the buffer, the result, and the state.
  unfoldable pub handle_rtp_send : List ℕ → ℕ → ℕ → Manager F → Option (List ℕ × ℕ × Manager F)
  handle_rtp_send bytes len buff_size m = do
    swapped ← swap_first bytes
    let p = m.send_pack
    let q = record p {
      payload = swapped;
      length = len;
      timestamp = m.rtp_timestamp_send;
      sequence = m.sequence;
    }
    written_bytes ← write_into q buff_size
    some (written_bytes, written q buff_size, count_sent (record m { send_pack = q }))

  -- The sequence numbers of `handleRTPRecv`, for the number of the packet that came.
  unfoldable pub count_received : ℕ → Manager F → Manager F
  count_received seq m =
      let lost =
        if seq == m.recv_seq_next
        then m.n_packets_lost
        else if ltb 0 m.n_packets_recvd
        then add32 m.n_packets_lost (sub32 seq m.recv_seq_next)
        else m.n_packets_lost in
      let next = add32 seq 1 in
      let m1 = record m {
        n_packets_lost = lost;
        recv_seq = seq;
        recv_seq_next = next;
        n_packets_recvd = add32 m.n_packets_recvd 1;
        n_bytes_recvd = add32 m.n_bytes_recvd 84;
      } in
      if leb next 0
      then record m1 { recv_seq_wrap = suc m.recv_seq_wrap % 65536; recv_seq_next = 0 }
      else m1

  module _ (fl : Floating F) where
    -- The jitter, after a packet with a time stamp has come at a time.
    unfoldable pub take_jitter : Timeval → ℕ → Manager F → Manager F
    take_jitter now stamp m =
        let rj =
          fl.add (fl.mul (fl.of_ulong now.sec) (fl.of_ulong 1000000)) (fl.of_ulong now.usec) in
        let d = fl.sub (fl.sub rj m.rj) (fl.of_ulong (sub32 stamp m.sj)) in
        let size = if fl.is_negative d then fl.negate d else d in
        let j = fl.add m.jitter_prev (fl.div (fl.sub size m.jitter_prev) (fl.of_ulong 16)) in
        record m { ri = m.rj; rj = rj; si = m.sj; sj = stamp; dij = d; jitter = j; jitter_prev = j }

    -- `handleRTPRecv` of a packet of `buff_size` bytes: the payload and the state.
    unfoldable pub handle_rtp_recv :
        Timeval → List ℕ → ℕ → List ℕ → ℕ → Manager F → Option (List ℕ × Manager F)
    handle_rtp_recv now buff buff_size bytes len m = do
      p ← parse_bytes (point_data bytes len m.recv_pack) buff buff_size
      swapped ← swap_first p.payload
      let m1 = record m {
        recv_pack = record p { payload = swapped };
        remote_ssrc = if m.is_first_pack then p.ssrc else m.remote_ssrc;
        is_first_pack = false;
      }
      some (swapped, take_jitter now p.timestamp (count_received p.sequence m1))
