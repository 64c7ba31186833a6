-- ===== src/Rtp/Rtcp/Reports.antt =====
-- src/RTP.cpp: what `parseBytes` reads of the reports that `writeBytes` wrote.
use viva_voce.Prelude.{
  ℕ, suc, ◌+◌, ◌*◌, ◌/◌, ◌%◌, ◌<◌, ◌≡◌, refl, ◌∙◌, some, List, [], ◌∷◌, ◌++◌, length, arith,
}
use viva_voce.Rtp.Bytes.{through32, short_back, long_back}
use viva_voce.Rtp.Rtcp.{
  SenderReport, ReceiverReport, RtcpPacket, add_receiver, put_sender, put_receiver, put_receivers,
  parse_sender, parse_receiver, parse_receivers,
}

-- The fields fit.
pub record IsReceiver (r : ReceiverReport) : Type 0 where
  pub ssrc : r.ssrc < 4294967296
  pub fraction_lost : r.fraction_lost < 256
  pub n_lost_packets : r.n_lost_packets < 16777216
  pub ext_seq_cycles : r.ext_seq_cycles < 65536
  pub ext_seq_recvd : r.ext_seq_recvd < 65536
  pub jitter : r.jitter < 4294967296
  pub lsr : r.lsr < 4294967296
  pub dlsr : r.dlsr < 4294967296

pub record IsSender (s : SenderReport) : Type 0 where
  pub ntp_timestamp1 : s.ntp_timestamp1 < 4294967296
  pub ntp_timestamp2 : s.ntp_timestamp2 < 4294967296
  pub rtp_timestamp : s.rtp_timestamp < 4294967296
  pub n_sent_packets : s.n_sent_packets < 4294967296
  pub n_sent_bytes : s.n_sent_bytes < 4294967296

abbrev pub AllReceivers : List ReceiverReport → Type 0
AllReceivers [] = Unit
AllReceivers (r ∷ rs) = IsReceiver r × AllReceivers rs

abbrev receiver_of : List ℕ → ℕ → ℕ → ℕ → ℕ → ℕ → ℕ → ℕ → ℕ → ReceiverReport × List ℕ
receiver_of rest a b c d e f g h = (
  record {
    ssrc = a;
    fraction_lost = b;
    n_lost_packets = c;
    ext_seq_cycles = d;
    ext_seq_recvd = e;
    jitter = f;
    lsr = g;
    dlsr = h;
  },
  rest,
)

abbrev sender_of : List ℕ → ℕ → ℕ → ℕ → ℕ → ℕ → SenderReport × List ℕ
sender_of rest a b c d e = (
  record {
    ntp_timestamp1 = a;
    ntp_timestamp2 = b;
    rtp_timestamp = c;
    n_sent_packets = d;
    n_sent_bytes = e;
  },
  rest,
)

same_receiver :
    {a a' b b' c c' d d' e e' f f' g g' h h' : ℕ} (rest : List ℕ)
    → a ≡ a'
    → b ≡ b'
    → c ≡ c'
    → d ≡ d'
    → e ≡ e'
    → f ≡ f'
    → g ≡ g'
    → h ≡ h'
    → some (receiver_of rest a b c d e f g h) ≡ some (receiver_of rest a' b' c' d' e' f' g' h')
same_receiver rest a b c d e f g h = rw (a, b, c, d, e, f, g, h)

same_sender :
    {a a' b b' c c' d d' e e' : ℕ} (rest : List ℕ)
    → a ≡ a'
    → b ≡ b'
    → c ≡ c'
    → d ≡ d'
    → e ≡ e'
    → some (sender_of rest a b c d e) ≡ some (sender_of rest a' b' c' d' e')
same_sender rest a b c d e = rw (a, b, c, d, e)

lost_low : (f n : ℕ) → f < 256 → n < 16777216 → (through32 (f % 256 + 256 * n)) % 256 ≡ f
lost_low f n h k = omega arith

lost_high : (f n : ℕ) → f < 256 → n < 16777216 → (through32 (f % 256 + 256 * n)) / 256 ≡ n
lost_high f n h k = omega arith

parse_receiver-put_receiver :
    (r : ReceiverReport) (rest : List ℕ)
    → IsReceiver r
    → parse_receiver (put_receiver r ++ rest) ≡ some (r, rest)
unfolding parse_receiver put_receiver
parse_receiver-put_receiver r rest v =
    same_receiver rest (long_back r.ssrc v.ssrc)
      (lost_low r.fraction_lost r.n_lost_packets v.fraction_lost v.n_lost_packets)
      (lost_high r.fraction_lost r.n_lost_packets v.fraction_lost v.n_lost_packets)
      (short_back r.ext_seq_cycles v.ext_seq_cycles) (short_back r.ext_seq_recvd v.ext_seq_recvd)
      (long_back r.jitter v.jitter) (long_back r.lsr v.lsr) (long_back r.dlsr v.dlsr)

pub parse_sender-put_sender :
    (s : SenderReport) (rest : List ℕ)
    → IsSender s
    → parse_sender (put_sender s ++ rest) ≡ some (s, rest)
unfolding parse_sender put_sender
parse_sender-put_sender s rest v =
    same_sender rest (long_back s.ntp_timestamp1 v.ntp_timestamp1)
      (long_back s.ntp_timestamp2 v.ntp_timestamp2) (long_back s.rtp_timestamp v.rtp_timestamp)
      (long_back s.n_sent_packets v.n_sent_packets) (long_back s.n_sent_bytes v.n_sent_bytes)

-- The reports are added one by one.
abbrev pub add_all : List ReceiverReport → RtcpPacket → RtcpPacket
add_all [] p = p
add_all (r ∷ rs) p = add_all rs (add_receiver r p)

next_report :
    (n : ℕ) (r : ReceiverReport) (bytes rest : List ℕ) (p : RtcpPacket)
    → parse_receiver bytes ≡ some (r, rest)
    → parse_receivers (suc n) bytes p ≡ parse_receivers n rest (add_receiver r p)
unfolding parse_receivers
next_report n r bytes rest p e = rw e

pub parse_receivers-put_receivers :
    (rs : List ReceiverReport) (p : RtcpPacket)
    → AllReceivers rs
    → parse_receivers (length rs) (put_receivers rs) p ≡ some (add_all rs p)
unfolding parse_receivers put_receivers
parse_receivers-put_receivers [] p v = refl
parse_receivers-put_receivers (r ∷ rs) p (v, vs) =
    next_report (length rs) r (put_receiver r ++ put_receivers rs) (put_receivers rs) p
      (parse_receiver-put_receiver r (put_receivers rs) v)
    ∙ parse_receivers-put_receivers rs (add_receiver r p) vs
