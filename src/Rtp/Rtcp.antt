-- ===== src/Rtp/Rtcp.antt =====
-- src/RTP.cpp: RTCP packets and their bytes. The receiver reports are a stack, the last one in first.
pub mod Reports
pub mod RoundTrip
use viva_voce.Prelude.{
  ℕ, zero, suc, ◌+◌, ◌-◌, ◌*◌, ◌/◌, ◌%◌, Bool, true, false, Option, none, some, List, [], ◌∷◌, ◌++◌,
  length, ◌==◌, ◌>>=◌, if◌then◌else◌,
}
use viva_voce.Rtp.{put16, put32, get16, get32, htons, htonl, flag}

-- `RTCP_FIX_HDR_LEN`, the sizes of the two reports and their types; -1 as 32 bits is no type.
abbrev pub rtcp_fix_hdr_len : ℕ
rtcp_fix_hdr_len = 8

abbrev pub sender_size : ℕ
sender_size = 20

abbrev pub receiver_size : ℕ
receiver_size = 24

abbrev pub rtcp_rep_type_sr : ℕ
rtcp_rep_type_sr = 200

abbrev pub rtcp_rep_type_rr : ℕ
rtcp_rep_type_rr = 201

abbrev pub no_type : ℕ
no_type = 4294967295

-- `rtcpSReport`.
pub record SenderReport : Type 0 where
  pub ntp_timestamp1 : ℕ
  pub ntp_timestamp2 : ℕ
  pub rtp_timestamp : ℕ
  pub n_sent_packets : ℕ
  pub n_sent_bytes : ℕ

-- `rtcpRReport`.
pub record ReceiverReport : Type 0 where
  pub ssrc : ℕ
  pub fraction_lost : ℕ
  pub n_lost_packets : ℕ
  pub ext_seq_cycles : ℕ
  pub ext_seq_recvd : ℕ
  pub jitter : ℕ
  pub lsr : ℕ
  pub dlsr : ℕ

-- `RTCPPacket`. The head of `reports` is the back of `recvRepsVec`.
pub record RtcpPacket : Type 0 where
  pub report_count : ℕ
  pub rtcp_type : ℕ
  pub length : ℕ
  pub sender : SenderReport
  pub is_sender_valid : Bool
  pub reports : List ReceiverReport
  pub ssrc : ℕ
  pub version : ℕ
  pub padding : ℕ

unfoldable pub reset : RtcpPacket → RtcpPacket
reset p = record p {
  report_count = 0;
  rtcp_type = no_type;
  is_sender_valid = false;
  version = 2;
  padding = 0;
  length = rtcp_fix_hdr_len;
  reports = [];
}

unfoldable pub set_sender : SenderReport → RtcpPacket → RtcpPacket
set_sender s p = record p {
  rtcp_type = rtcp_rep_type_sr;
  sender = s;
  is_sender_valid = true;
  length = p.length + sender_size;
}

unfoldable pub get_sender : RtcpPacket → Option SenderReport × RtcpPacket
get_sender p =
    if p.is_sender_valid then (some p.sender, record p { is_sender_valid = false }) else (none, p)

unfoldable pub add_receiver : ReceiverReport → RtcpPacket → RtcpPacket
add_receiver r p = record p {
  rtcp_type = if p.rtcp_type == rtcp_rep_type_sr then rtcp_rep_type_sr else rtcp_rep_type_rr;
  report_count = suc p.report_count;
  reports = r ∷ p.reports;
  length = p.length + receiver_size;
}

abbrev pub count_receivers : RtcpPacket → ℕ
count_receivers p = length p.reports

unfoldable pub clear_receivers : RtcpPacket → RtcpPacket
clear_receivers p = record p {
  length = p.length - count_receivers p * receiver_size;
  report_count = 0;
  reports = [];
}

unfoldable pub next_receiver : RtcpPacket → Option ReceiverReport × RtcpPacket
next_receiver p = elim p.reports [ [] ↦ (none, p) | r ∷ rs ↦ (some r, record p { reports = rs }) ]

-- The bytes of a sender report and of a receiver report, in network order.
unfoldable pub put_sender : SenderReport → List ℕ
put_sender s =
    put32 (htonl s.ntp_timestamp1)
    ++ put32 (htonl s.ntp_timestamp2)
    ++ put32 (htonl s.rtp_timestamp)
    ++ put32 (htonl s.n_sent_packets)
    ++ put32 (htonl s.n_sent_bytes)

unfoldable pub put_receiver : ReceiverReport → List ℕ
put_receiver r =
    put32 (htonl r.ssrc)
    ++ put32 (r.fraction_lost % 256 + 256 * r.n_lost_packets)
    ++ put16 (htons r.ext_seq_cycles)
    ++ put16 (htons r.ext_seq_recvd)
    ++ put32 (htonl r.jitter)
    ++ put32 (htonl r.lsr)
    ++ put32 (htonl r.dlsr)

-- The loop over `nextRReport`.
unfoldable pub put_receivers : List ReceiverReport → List ℕ
put_receivers [] = []
put_receivers (r ∷ rs) = put_receiver r ++ put_receivers rs

-- The bytes of `rtcpHeader`.
abbrev pub rtcp_header : RtcpPacket → List ℕ
rtcp_header p =
    (p.version % 4 + 4 * flag p.padding + 8 * (count_receivers p % 32))
      ∷ p.rtcp_type % 256
      ∷ put16 (htons (p.length - 1))
    ++ put32 (htonl p.ssrc)

abbrev pub sender_bytes : RtcpPacket → List ℕ
sender_bytes p = elim (get_sender p).0 [ none ↦ [] | some s ↦ put_sender s ]

-- `writeBytes` of an RTCP packet: the bytes, and the packet after it.
unfoldable pub write_rtcp : RtcpPacket → List ℕ × RtcpPacket
write_rtcp p = (rtcp_header p ++ sender_bytes p ++ put_receivers p.reports, reset p)

unfoldable pub parse_sender : List ℕ → Option (SenderReport × List ℕ)
parse_sender r0 = do
  (a, r1) ← get32 r0
  (b, r2) ← get32 r1
  (c, r3) ← get32 r2
  (d, r4) ← get32 r3
  (e, r5) ← get32 r4
  some (
    record {
      ntp_timestamp1 = htonl a;
      ntp_timestamp2 = htonl b;
      rtp_timestamp = htonl c;
      n_sent_packets = htonl d;
      n_sent_bytes = htonl e;
    },
    r5,
  )

unfoldable pub parse_receiver : List ℕ → Option (ReceiverReport × List ℕ)
parse_receiver r0 = do
  (ssrc, r1) ← get32 r0
  (lost, r2) ← get32 r1
  (cycles, r3) ← get16 r2
  (recvd, r4) ← get16 r3
  (jitter, r5) ← get32 r4
  (lsr, r6) ← get32 r5
  (dlsr, r7) ← get32 r6
  some (
    record {
      ssrc = htonl ssrc;
      fraction_lost = lost % 256;
      n_lost_packets = lost / 256;
      ext_seq_cycles = htons cycles;
      ext_seq_recvd = htons recvd;
      jitter = htonl jitter;
      lsr = htonl lsr;
      dlsr = htonl dlsr;
    },
    r7,
  )

-- The loop over the receiver reports.
unfoldable pub parse_receivers : ℕ → List ℕ → RtcpPacket → Option RtcpPacket
parse_receivers zero r p = some p
parse_receivers (suc n) r p = do
  (report, rest) ← parse_receiver r
  parse_receivers n rest (add_receiver report p)

-- The reports behind the header. Of another type than the two there is only the header.
unfoldable pub parse_reports : ℕ → ℕ → List ℕ → RtcpPacket → Option RtcpPacket
parse_reports type count r p =
    if type == rtcp_rep_type_sr
    then (do (s, rest) ← parse_sender r; parse_receivers count rest (set_sender s p))
    else if type == rtcp_rep_type_rr
    then parse_receivers count r p
    else some p

-- `parseBytes` into an RTCP packet.
unfoldable pub parse_rtcp : RtcpPacket → List ℕ → Option RtcpPacket
parse_rtcp p (b0 ∷ b1 ∷ r0) = do
  (size, r1) ← get16 r0
  (ssrc, r2) ← get32 r1
  let q = reset p
  parse_reports b1 (b0 / 8 % 32) r2
      (record q { version = b0 % 4; padding = b0 / 4 % 2; ssrc = htonl ssrc })
parse_rtcp p r = none
