-- ===== src/Rtp/Tests.antt =====
-- src/RTP.cpp and src/RTPManager.cpp: the theorems at small packets.
use viva_voce.Prelude.{
  ℕ, ◌+◌, ◌≤◌, ◌<◌, ◌≡◌, refl, ◌⊎◌, true, false, List, [], ◌∷◌, ◌++◌, length, some, drop, arith,
}
use viva_voce.Rtp.{RtpPacket, new_rtp_packet, write_bytes, written, parse_bytes}
use viva_voce.Rtp.RoundTrip.{IsRtp, received, parse_bytes-write_bytes, written_lem}
use viva_voce.Rtp.Rtcp.{SenderReport, ReceiverReport, RtcpPacket, write_rtcp, parse_rtcp}
use viva_voce.Rtp.Rtcp.Reports.{IsReceiver}
use viva_voce.Rtp.Rtcp.RoundTrip.{IsRtcp, Recovers, parse_rtcp-write_rtcp}
use viva_voce.Rtp.Manager.{Manager}
use viva_voce.Rtp.Manager.Sequence.{
  send_all, SendsAll, receive_all, Counts, send_all_lem, receive_all-Counts, receive_all-wrap,
}

abbrev voice : RtpPacket
voice = record new_rtp_packet {
  payload_type = 5;
  sequence = 258;
  timestamp = 161;
  ssrc = 77;
  payload = 1 ∷ 2 ∷ 3 ∷ [];
  length = 3;
}

abbrev room : RtpPacket
room = record new_rtp_packet { payload = 0 ∷ 0 ∷ 0 ∷ 0 ∷ []; length = 4 }

voice-IsRtp : IsRtp voice
voice-IsRtp = record {
  version = omega arith;
  padding = omega arith;
  extension = omega arith;
  payload_type = omega arith;
  sequence = omega arith;
  timestamp = omega arith;
  ssrc = omega arith;
  payload = refl;
}

parse_bytes-write_bytes_example :
    parse_bytes room (write_bytes voice 84) (written voice 84)
    ≡ some
        (record (received voice room) { payload = voice.payload ++ drop voice.length room.payload })
parse_bytes-write_bytes_example =
    parse_bytes-write_bytes voice room 84 voice-IsRtp (omega arith) (omega arith)

written_lem_example :
    (length (write_bytes voice 2) ≡ written voice 2)
    × (written voice 2 ≤ 2 + 12)
    × ((written voice 2 ≡ voice.length + 12) ⊎ ((2 < voice.length) × (written voice 2 ≡ 2 + 12)))
written_lem_example = written_lem voice 2 refl

abbrev sent : SenderReport
sent = record {
  ntp_timestamp1 = 1;
  ntp_timestamp2 = 2;
  rtp_timestamp = 3;
  n_sent_packets = 4;
  n_sent_bytes = 336;
}

abbrev heard : ℕ → ReceiverReport
heard n = record {
  ssrc = n;
  fraction_lost = 0;
  n_lost_packets = 1;
  ext_seq_cycles = 0;
  ext_seq_recvd = 300;
  jitter = 5;
  lsr = 6;
  dlsr = 7;
}

abbrev report : RtcpPacket
report = record {
  report_count = 2;
  rtcp_type = 200;
  length = 76;
  sender = sent;
  is_sender_valid = true;
  reports = heard 1 ∷ heard 2 ∷ [];
  ssrc = 9;
  version = 2;
  padding = 0;
}

heard-IsReceiver : (n : ℕ) → n < 3 → IsReceiver (heard n)
heard-IsReceiver n h = record {
  ssrc = omega arith;
  fraction_lost = omega arith;
  n_lost_packets = omega arith;
  ext_seq_cycles = omega arith;
  ext_seq_recvd = omega arith;
  jitter = omega arith;
  lsr = omega arith;
  dlsr = omega arith;
}

report-IsRtcp : IsRtcp report
report-IsRtcp = record {
  version = omega arith;
  padding = omega arith;
  count = omega arith;
  ssrc = omega arith;
  type = refl;
  sender = record {
    ntp_timestamp1 = omega arith;
    ntp_timestamp2 = omega arith;
    rtp_timestamp = omega arith;
    n_sent_packets = omega arith;
    n_sent_bytes = omega arith;
  };
  reports = (heard-IsReceiver 1 (omega arith), (heard-IsReceiver 2 (omega arith), tt));
}

parse_rtcp-write_rtcp_example : Recovers report (parse_rtcp report (write_rtcp report).0)
parse_rtcp-write_rtcp_example = parse_rtcp-write_rtcp report report report-IsRtcp

-- A manager in a call, with the number 65535 to be sent next and 65534 expected.
abbrev manager : Manager ℕ
manager = record {
  sequence = 65535;
  seq_wrap = 0;
  is_first_pack = false;
  total = 0;
  recv_seq_next = 65534;
  recv_seq = 65533;
  recv_seq_wrap = 0;
  n_packets_lost = 0;
  n_packets_recvd = 3;
  n_packets_sent = 0;
  n_bytes_recvd = 0;
  n_bytes_sent = 0;
  rtp_timestamp_send = 161;
  rtp_timestamp_recv = 0;
  lsr = 0;
  tlsr_sec = 0;
  n_srep = 0;
  n_rrep = 0;
  tsr_last_sent = 0;
  trr_last_sent = 0;
  ssrc = 1;
  remote_ssrc = 2;
  dij = 0;
  rj = 0;
  ri = 0;
  sj = 0;
  si = 0;
  tlsr_recvd = 0;
  rtt_prop_delay = 0;
  jitter_prev = 0;
  jitter = 0;
  last_packet_count = 0;
  sr_period_sec = 5;
  recv_pack = room;
  send_pack = voice;
  recv_rtcp = report;
  send_rtcp = report;
  sender_recv = sent;
  receiver = heard 1;
  receiver_recv = heard 2;
}

abbrev buffers : List (List ℕ)
buffers = (1 ∷ 2 ∷ []) ∷ (3 ∷ 4 ∷ 5 ∷ []) ∷ []

send_all_lem_example : SendsAll 2 manager (send_all 84 buffers manager)
send_all_lem_example =
    send_all_lem 84 buffers manager refl (omega arith)
      (record { sequence = omega arith; seq_wrap = omega arith; stamp = omega arith })

abbrev numbers : List ℕ
numbers = 65534 ∷ 65535 ∷ 0 ∷ 3 ∷ []

receive_all-Counts_example : Counts 4 manager (receive_all numbers manager)
receive_all-Counts_example =
    receive_all-Counts numbers manager
      (omega arith, (omega arith, (omega arith, (omega arith, tt)))) (omega arith) (omega arith)
      (omega arith) (omega arith)

receive_all-wrap_example : (receive_all numbers manager).recv_seq_wrap ≡ 0
receive_all-wrap_example =
    receive_all-wrap numbers manager (omega arith, (omega arith, (omega arith, (omega arith, tt))))
