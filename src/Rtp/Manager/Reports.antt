-- ===== src/Rtp/Manager/Reports.antt =====
-- src/RTPManager.cpp: the RTCP reports that are sent and received.
use viva_voce.Prelude.{
  ℕ, suc, ◌*◌, ◌%◌, Option, none, some, List, [], ◌∷◌, ◌==◌, ◌>>=◌, if◌then◌else◌,
}
use viva_voce.Rtp.Rtcp.{
  SenderReport, reset, set_sender, get_sender, add_receiver, next_receiver, write_rtcp, parse_rtcp,
  rtcp_rep_type_sr, rtcp_rep_type_rr,
}
use viva_voce.Rtp.Manager.{
  Floating, Timeval, Received, malformed, noted, answered, Manager, add32, sub32, get_rtp_time,
}

module _ {F : Type 0} where
  module _ (fl : Floating F) where
    -- `handleRTCPSendRR`: the bytes and the state.
    unfoldable pub handle_rtcp_send_rr : Timeval → Manager F → List ℕ × Manager F
    handle_rtcp_send_rr now m =
        let r = m.receiver in
        let report = record r {
          ssrc = m.remote_ssrc;
          fraction_lost = 0;
          n_lost_packets = m.n_packets_lost % 16777216;
          ext_seq_cycles = m.recv_seq_wrap;
          ext_seq_recvd = m.recv_seq % 65536;
          jitter = fl.to_ulong m.jitter;
          dlsr = sub32 (get_rtp_time now.sec now.usec) m.tlsr_recvd;
          lsr = m.lsr;
        } in
        let (bytes, c) = write_rtcp (add_receiver report (reset m.send_rtcp)) in
        (bytes, record m { receiver = report; send_rtcp = c; trr_last_sent = now.sec })

  -- `handleRTCPSendSR`: nothing if no packet was sent since the last time.
  unfoldable pub handle_rtcp_send_sr : Timeval → Manager F → Option (List ℕ) × Manager F
  handle_rtcp_send_sr now m =
      if m.n_packets_sent == m.last_packet_count
      then (none, m)
      else (let s : SenderReport = record {
        ntp_timestamp1 = now.sec;
        ntp_timestamp2 = now.usec;
        rtp_timestamp = m.rtp_timestamp_send;
        n_sent_packets = m.n_packets_sent;
        n_sent_bytes = m.n_bytes_sent;
      } in
          let (bytes, c) = write_rtcp (set_sender s (reset m.send_rtcp)) in
          (
            some bytes,
            record m {
              last_packet_count = m.n_packets_sent;
              send_rtcp = c;
              tsr_last_sent = now.sec;
            },
          ))

  -- The two cases of `handleRTCPRecv`.
  unfoldable pub take_sender : Timeval → Manager F → Received × Manager F
  take_sender now m =
      let (found, c) = get_sender m.recv_rtcp in
      elim found [
        | none ↦ (malformed, m)
        | some s ↦ (
          answered,
          record m {
            recv_rtcp = c;
            sender_recv = s;
            n_srep = suc m.n_srep % 4294967296;
            tlsr_sec = now.sec;
            lsr = get_rtp_time s.ntp_timestamp1 s.ntp_timestamp2;
            tlsr_recvd = get_rtp_time now.sec now.usec;
          },
        )
      ]

  unfoldable pub take_receiver : Timeval → Manager F → Received × Manager F
  take_receiver now m =
      let (found, c) = next_receiver m.recv_rtcp in
      let m1 = record m { n_rrep = suc m.n_rrep % 4294967296 } in
      elim found [
        | none ↦ (malformed, m1)
        | some r ↦
            let total = add32 (r.ext_seq_cycles * 65536) r.ext_seq_recvd in
            (
              noted,
              record m1 {
                recv_rtcp = c;
                receiver_recv = r;
                rtt_prop_delay = sub32 (sub32 (get_rtp_time now.sec now.usec) r.lsr) r.dlsr;
                total = if total == 0 then 1 else total;
              },
            )
      ]

  -- `handleRTCPRecv` of the bytes of a datagram. An empty one is passed over.
  unfoldable pub handle_rtcp_recv : Timeval → List ℕ → Manager F → Option (Received × Manager F)
  handle_rtcp_recv now [] m = some (noted, m)
  handle_rtcp_recv now (b ∷ bs) m = do
    p ← parse_rtcp m.recv_rtcp (b ∷ bs)
    let m1 = record m { recv_rtcp = p }
    some (
        if p.rtcp_type == rtcp_rep_type_sr
        then take_sender now m1
        else if p.rtcp_type == rtcp_rep_type_rr
        then take_receiver now m1
        else (malformed, m1))
