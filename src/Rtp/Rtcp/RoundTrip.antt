-- ===== src/Rtp/Rtcp/RoundTrip.antt =====
-- src/RTP.cpp: what `parseBytes` reads of an RTCP packet that `writeBytes` wrote.
use viva_voce.Prelude.{
  ℕ, ◌+◌, ◌*◌, ◌/◌, ◌%◌, ◌<◌, ◌≡◌, refl, ap, ◌∙◌, inl, inr, Bool-cases, Bool, true, false, Option,
  none, some, List, [], ◌∷◌, ◌++◌, length, ◌==◌, if◌then◌else◌, arith,
}
use viva_voce.Rtp.{flag}
use viva_voce.Rtp.Bytes.{long_back}
use viva_voce.Rtp.Rtcp.{
  SenderReport, ReceiverReport, RtcpPacket, reset, set_sender, get_sender, add_receiver, put_sender,
  put_receivers, sender_bytes, write_rtcp, parse_reports, parse_rtcp, rtcp_rep_type_sr,
  rtcp_rep_type_rr, count_receivers,
}
use viva_voce.Rtp.Rtcp.Reports.{
  IsSender, AllReceivers, add_all, parse_sender-put_sender, parse_receivers-put_receivers,
}

-- The packet is a sender report with its type, or it has the type of a receiver report.
abbrev pub typed : RtcpPacket → Bool
typed p = p.rtcp_type == (if p.is_sender_valid then rtcp_rep_type_sr else rtcp_rep_type_rr)

pub record IsRtcp (p : RtcpPacket) : Type 0 where
  pub version : p.version < 4
  pub padding : p.padding < 2
  pub count : count_receivers p < 32
  pub ssrc : p.ssrc < 4294967296
  pub type : typed p ≡ true
  pub sender : IsSender p.sender
  pub reports : AllReceivers p.reports

-- The elements of the first list, the last one first, before those of the second.
abbrev pub reverse_onto : List ReceiverReport → List ReceiverReport → List ReceiverReport
reverse_onto [] acc = acc
reverse_onto (r ∷ rs) acc = reverse_onto rs (r ∷ acc)

-- What the added reports leave as it was.
pub record Added (rs : List ReceiverReport) (p q : RtcpPacket) : Type 0 where
  pub reports : q.reports ≡ reverse_onto rs p.reports
  pub version : q.version ≡ p.version
  pub padding : q.padding ≡ p.padding
  pub ssrc : q.ssrc ≡ p.ssrc
  pub sender : q.sender ≡ p.sender
  pub is_sender_valid : q.is_sender_valid ≡ p.is_sender_valid

add_all-Added : (rs : List ReceiverReport) (p : RtcpPacket) → Added rs p (add_all rs p)
unfolding add_receiver
add_all-Added [] p = record {
  reports = refl;
  version = refl;
  padding = refl;
  ssrc = refl;
  sender = refl;
  is_sender_valid = refl;
}
add_all-Added (r ∷ rs) p =
    let v = add_all-Added rs (add_receiver r p) in
    record {
      reports = v.reports;
      version = v.version;
      padding = v.padding;
      ssrc = v.ssrc;
      sender = v.sender;
      is_sender_valid = v.is_sender_valid;
    }

-- What of `p` is in the packet that was parsed.
pub record Recovered (p r : RtcpPacket) : Type 0 where
  pub reports : r.reports ≡ reverse_onto p.reports []
  pub version : r.version ≡ p.version
  pub padding : r.padding ≡ p.padding
  pub ssrc : r.ssrc ≡ p.ssrc
  pub sender : (get_sender r).0 ≡ (get_sender p).0

abbrev pub Recovers : RtcpPacket → Option RtcpPacket → Type 0
Recovers p none = ⊥
Recovers p (some r) = Recovered p r

abbrev started : ℕ → ℕ → ℕ → RtcpPacket → RtcpPacket
started v p s q = let r = reset q in record r { version = v; padding = p; ssrc = s }

same_start :
    {t t' n n' v v' p p' s s' : ℕ} (r : List ℕ) (q : RtcpPacket)
    → t ≡ t'
    → n ≡ n'
    → v ≡ v'
    → p ≡ p'
    → s ≡ s'
    → parse_reports t n r (started v p s q) ≡ parse_reports t' n' r (started v' p' s' q)
same_start r q t n v p s = rw (t, n, v, p, s)

byte_version : (v p c : ℕ) → v < 4 → p < 2 → c < 32 → (v % 4 + 4 * flag p + 8 * (c % 32)) % 4 ≡ v
byte_version v p c h k l = ground arith

byte_padding :
    (v p c : ℕ) → v < 4 → p < 2 → c < 32 → (v % 4 + 4 * flag p + 8 * (c % 32)) / 4 % 2 ≡ p
byte_padding v p c h k l = ground arith

byte_count : (v p c : ℕ) → v < 4 → p < 2 → c < 32 → (v % 4 + 4 * flag p + 8 * (c % 32)) / 8 % 32 ≡ c
byte_count v p c h k l = ground arith

type_back : (p : RtcpPacket) → typed p ≡ true → p.rtcp_type % 256 ≡ p.rtcp_type
type_back p h = ground arith

parse_rtcp_lem :
    (p q : RtcpPacket)
    → IsRtcp p
    → parse_rtcp q (write_rtcp p).0
      ≡ parse_reports p.rtcp_type
          (count_receivers p)
          (sender_bytes p ++ put_receivers p.reports)
          (started p.version p.padding p.ssrc q)
unfolding parse_rtcp write_rtcp
parse_rtcp_lem p q v =
    let n = count_receivers p in
    same_start (sender_bytes p ++ put_receivers p.reports) q (type_back p v.type)
      (byte_count p.version p.padding n v.version v.padding v.count)
      (byte_version p.version p.padding n v.version v.padding v.count)
      (byte_padding p.version p.padding n v.version v.padding v.count) (long_back p.ssrc v.ssrc)

with_sender :
    (s : SenderReport) (rs : List ReceiverReport) (p : RtcpPacket)
    → IsSender s
    → AllReceivers rs
    → parse_reports rtcp_rep_type_sr (length rs) (put_sender s ++ put_receivers rs) p
      ≡ some (add_all rs (set_sender s p))
unfolding parse_reports
with_sender s rs p v w =
    rw (parse_sender-put_sender s (put_receivers rs) v)
      (parse_receivers-put_receivers rs (set_sender s p) w)

without_sender :
    (rs : List ReceiverReport) (p : RtcpPacket)
    → AllReceivers rs
    → parse_reports rtcp_rep_type_rr (length rs) (put_receivers rs) p ≡ some (add_all rs p)
unfolding parse_reports
without_sender rs p w = parse_receivers-put_receivers rs p w

pub parse_reports_lem :
    (p q : RtcpPacket)
    → IsRtcp p
    → q.reports ≡ []
    → q.version ≡ p.version
    → q.padding ≡ p.padding
    → q.ssrc ≡ p.ssrc
    → q.is_sender_valid ≡ false
    → Recovers p (
        parse_reports p.rtcp_type (count_receivers p) (sender_bytes p ++ put_receivers p.reports) q)
unfolding get_sender set_sender
parse_reports_lem p q v r e1 e2 e3 e4 = elim (Bool-cases p.is_sender_valid) [
  | inl t ↦
      let q1 = set_sender p.sender q in
      let w = add_all-Added p.reports q1 in
      let i : p.rtcp_type ≡ rtcp_rep_type_sr = ground arith in
      rw (i, t, with_sender p.sender p.reports q v.sender v.reports)
        (record {
          reports = w.reports ∙ ap (reverse_onto p.reports) r;
          version = w.version ∙ e1;
          padding = w.padding ∙ e2;
          ssrc = w.ssrc ∙ e3;
          sender = ground (arith, w.is_sender_valid, w.sender);
        })
  | inr f ↦
      let w = add_all-Added p.reports q in
      let i : p.rtcp_type ≡ rtcp_rep_type_rr = ground arith in
      rw (i, f, without_sender p.reports q v.reports)
        (record {
          reports = w.reports ∙ ap (reverse_onto p.reports) r;
          version = w.version ∙ e1;
          padding = w.padding ∙ e2;
          ssrc = w.ssrc ∙ e3;
          sender = ground (arith, w.is_sender_valid ∙ e4);
        })
]

-- An RTCP packet whose fields fit their widths, with fewer than 32 receiver reports and the type
-- that goes with its sender report, is read back from the bytes written for it, into any packet,
-- with its version, padding, SSRC and sender report, and with its receiver reports in reverse
-- order.
pub parse_rtcp-write_rtcp :
    (p q : RtcpPacket) → IsRtcp p → Recovers p (parse_rtcp q (write_rtcp p).0)
unfolding reset
parse_rtcp-write_rtcp p q v =
    rw (parse_rtcp_lem p q v)
      (parse_reports_lem p (started p.version p.padding p.ssrc q) v refl refl refl refl refl)
