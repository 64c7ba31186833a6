-- ===== src/Udp/Tests.antt =====
-- src/UdpRW.cpp: the theorems at small links.
use viva_voce.Prelude.{ℕ, ◌≡◌, refl, inl, none, true, false, [], ◌∷◌, arith}
use viva_voce.Queue.{new_queue}
use viva_voce.Pool.{Memo, ResourceManager}
use viva_voce.Rtp.{new_rtp_packet}
use viva_voce.Rtp.Rtcp.{SenderReport, ReceiverReport, RtcpPacket}
use viva_voce.Rtp.Manager.{Manager}
use viva_voce.Prelude.Int.{pos, negsuc, ltb_ℤ}
use viva_voce.Common.{Ports}
use viva_voce.Udp.{Address}
use viva_voce.Udp.Sockets.{no_sockets, init_transport, close_transport}
use viva_voce.Udp.Sockets.Closed.{opened, closed, failed, close_transport-init_transport}
use viva_voce.Udp.Link.{Link, write_memo, vivoce_sip_send, vivoce_msg_send}
use viva_voce.Udp.Link.Memos.{Returned, write_memo-Returned}

abbrev nothing_sent : SenderReport
nothing_sent = record {
  ntp_timestamp1 = 0;
  ntp_timestamp2 = 0;
  rtp_timestamp = 0;
  n_sent_packets = 0;
  n_sent_bytes = 0;
}

abbrev nothing_heard : ReceiverReport
nothing_heard = record {
  ssrc = 0;
  fraction_lost = 0;
  n_lost_packets = 0;
  ext_seq_cycles = 0;
  ext_seq_recvd = 0;
  jitter = 0;
  lsr = 0;
  dlsr = 0;
}

abbrev no_reports : RtcpPacket
no_reports = record {
  report_count = 0;
  rtcp_type = 0;
  length = 8;
  sender = nothing_sent;
  is_sender_valid = false;
  reports = [];
  ssrc = 0;
  version = 2;
  padding = 0;
}

abbrev manager : Manager ℕ
manager = record {
  sequence = 0;
  seq_wrap = 0;
  is_first_pack = true;
  total = 0;
  recv_seq_next = 0;
  recv_seq = 0;
  recv_seq_wrap = 0;
  n_packets_lost = 0;
  n_packets_recvd = 0;
  n_packets_sent = 0;
  n_bytes_recvd = 0;
  n_bytes_sent = 0;
  rtp_timestamp_send = 161;
  rtp_timestamp_recv = 0;
  lsr = 0;
  tlsr_sec = 0;
  n_srep = 0;
  n_rrep = 0;
  tsr_last_sent = 0;
  trr_last_sent = 0;
  ssrc = 1;
  remote_ssrc = 2;
  dij = 0;
  rj = 0;
  ri = 0;
  sj = 0;
  si = 0;
  tlsr_recvd = 0;
  rtt_prop_delay = 0;
  jitter_prev = 0;
  jitter = 0;
  last_packet_count = 0;
  sr_period_sec = 5;
  recv_pack = new_rtp_packet;
  send_pack = new_rtp_packet;
  recv_rtcp = no_reports;
  send_rtcp = no_reports;
  sender_recv = nothing_sent;
  receiver = nothing_heard;
  receiver_recv = nothing_heard;
}

abbrev at : ℕ → Address
at port = record { ip = 127; port = port }

abbrev pool : ResourceManager
pool = record { memo_q = new_queue; total = 1; size = 4; init_count = 1 }

abbrev link : Link ℕ
link = record {
  send_q = new_queue;
  signal_q = new_queue;
  codec_q = new_queue;
  rmg = pool;
  sip_rmg = pool;
  remotes = record { name = none; rtp = at 4000; rtcp = at 4001; sip = at 5060; temp = at 6000 };
  manager = manager;
  is_connected = true;
  send_sr = false;
  send_rr = false;
  go = true;
  sent = [];
}

-- A response for the temporary address, and a piece of speech.
abbrev busy : Memo
busy = record {
  id = 0;
  code = vivoce_sip_send;
  data1 = 3;
  data2 = 1;
  bytes = 1 ∷ 2 ∷ 3 ∷ 4 ∷ [];
  size = 4;
}

abbrev speech : Memo
speech = record {
  id = 0;
  code = vivoce_msg_send;
  data1 = 4;
  data2 = 0;
  bytes = 1 ∷ 2 ∷ 3 ∷ 4 ∷ [];
  size = 4;
}

write_memo-Returned_example :
    Returned link (write_memo (λ d. false) 500 true (λ a. false) speech link)
write_memo-Returned_example =
    write_memo-Returned (λ d. false) 500 true (λ a. false) speech link (inl refl) (omega arith)
      (omega arith) (omega arith) (omega arith)

close_transport-init_transport_example :
    let ports : Ports = record { sip_port = 5060; rtp_port = 4000; rtcp_port = 4001 } in
    let (r, k, s) =
      init_transport ports no_sockets
        (record { results = pos 3 ∷ pos 0 ∷ pos 4 ∷ negsuc 0 ∷ []; calls = [] }) in
    let calls = (close_transport k s).1.calls in
    (ltb_ℤ r (pos 0) ≡ failed s.calls) × (closed calls ≡ opened calls)
close_transport-init_transport_example =
    close_transport-init_transport (record { sip_port = 5060; rtp_port = 4000; rtcp_port = 4001 })
      (pos 3 ∷ pos 0 ∷ pos 4 ∷ negsuc 0 ∷ [])
