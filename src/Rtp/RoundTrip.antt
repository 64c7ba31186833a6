-- ===== src/Rtp/RoundTrip.antt =====
-- src/RTP.cpp: what `parseBytes` reads of what `writeBytes` wrote.
use viva_voce.Prelude.{
  ℕ, zero, suc, ◌+◌, ◌-◌, ◌*◌, ◌/◌, ◌%◌, ◌≤◌, ◌<◌, ◌≡◌, ◌⊎◌, refl, sym, ap, ◌∙◌, length-take, some,
  List, [], ◌∷◌, ◌++◌, length, take, drop, arith,
}
use viva_voce.Rtp.Bytes.{short_back, long_back}
use viva_voce.Rtp.{
  RtpPacket, htonl, flag, header, fit, write_bytes, write_into, written, copy, parse_header,
  parse_bytes,
}

-- The fields fit the header, and the payload is as long as it is said to be.
pub record IsRtp (p : RtpPacket) : Type 0 where
  pub version : p.version < 4
  pub padding : p.padding < 2
  pub extension : p.extension < 2
  pub payload_type : p.payload_type < 128
  pub sequence : p.sequence < 65536
  pub timestamp : p.timestamp < 4294967296
  pub ssrc : p.ssrc < 4294967296
  pub payload : length p.payload ≡ p.length

-- What is read of `p` into `q`.
abbrev pub received : RtpPacket → RtpPacket → RtpPacket
received p q = record q {
  version = p.version;
  padding = p.padding;
  extension = p.extension;
  marker = p.payload_type;
  sequence = p.sequence;
  timestamp = p.timestamp;
  ssrc = htonl q.ssrc;
}

low_bits :
    (v p e c : ℕ)
    → v < 4
    → p < 2
    → e < 2
    → (v % 4 + 4 * flag p + 8 * flag e + 16 * (c % 16)) % 4 ≡ v
low_bits v p e c hv hp he = ground arith

bit2 :
    (v p e c : ℕ)
    → v < 4
    → p < 2
    → e < 2
    → (v % 4 + 4 * flag p + 8 * flag e + 16 * (c % 16)) / 4 % 2 ≡ p
bit2 v p e c hv hp he = ground arith

bit3 :
    (v p e c : ℕ)
    → v < 4
    → p < 2
    → e < 2
    → (v % 4 + 4 * flag p + 8 * flag e + 16 * (c % 16)) / 8 % 2 ≡ e
bit3 v p e c hv hp he = ground arith

high_bits : (m t : ℕ) → t < 128 → (flag m + 2 * (t % 128)) / 2 ≡ t
high_bits m t h = ground arith

abbrev read_as : RtpPacket → List ℕ → ℕ → ℕ → ℕ → ℕ → ℕ → ℕ → RtpPacket × List ℕ
read_as q rest v p e m s t = (
  record q {
    version = v;
    padding = p;
    extension = e;
    marker = m;
    sequence = s;
    timestamp = t;
    ssrc = htonl q.ssrc;
  },
  rest,
)

with_fields :
    (q : RtpPacket) (rest : List ℕ) {v v' p p' e e' m m' s s' t t' : ℕ}
    → v ≡ v'
    → p ≡ p'
    → e ≡ e'
    → m ≡ m'
    → s ≡ s'
    → t ≡ t'
    → some (read_as q rest v p e m s t) ≡ some (read_as q rest v' p' e' m' s' t')
with_fields q rest a b c d e f = rw (a, b, c, d, e, f)

parse_header-header :
    (p q : RtpPacket) (rest : List ℕ)
    → IsRtp p
    → parse_header q (header p ++ rest) ≡ some (received p q, rest)
unfolding parse_header
parse_header-header p q rest h =
    with_fields q rest
      (low_bits p.version p.padding p.extension p.csrc_count h.version h.padding h.extension)
      (bit2 p.version p.padding p.extension p.csrc_count h.version h.padding h.extension)
      (bit3 p.version p.padding p.extension p.csrc_count h.version h.padding h.extension)
      (high_bits p.marker p.payload_type h.payload_type) (short_back p.sequence h.sequence)
      (long_back p.timestamp h.timestamp)

take_all : (xs : List ℕ) (n : ℕ) → length xs ≤ n → take n xs ≡ xs
take_all [] zero h = refl
take_all [] (suc n) h = refl
take_all (x ∷ xs) zero h = ground arith
take_all (x ∷ xs) (suc n) h = ap (λ ys. x ∷ ys) (take_all xs n (omega arith))

copy_all :
    (xs ys : List ℕ) (n : ℕ) → n ≡ length xs → n ≤ length ys → copy n xs ys ≡ some (xs ++ drop n ys)
unfolding copy
copy_all xs ys n e h = ground (arith, take_all xs n)

after_header :
    (q r : RtpPacket) (msg rest ys : List ℕ) (len : ℕ)
    → 12 ≤ len
    → parse_header q msg ≡ some (r, rest)
    → copy (len - 12) rest r.payload ≡ some ys
    → parse_bytes q msg len ≡ some (record r { payload = ys })
unfolding parse_bytes
after_header q r msg rest ys len h e k = ground (arith, e, k)

fit_all : (len have : ℕ) → have ≤ len → fit len have ≡ have
fit_all len have h = ground arith

write_bytes_lem :
    (p : RtpPacket) (len : ℕ) → IsRtp p → p.length ≤ len → write_bytes p len ≡ header p ++ p.payload
unfolding write_bytes
write_bytes_lem p len h e =
    ap (λ xs. header p ++ xs)
      (take_all p.payload (fit len p.length) (omega (arith, fit_all len p.length e, h.payload)))

-- An RTP packet whose fields fit their widths, written in full, is read back into a packet with
-- room for its payload with its version, padding, extension, sequence number, time stamp and
-- payload. But the marker read is the payload type, and the SSRC is the one that the packet read
-- into had, with its bytes reversed.
pub parse_bytes-write_bytes :
    (p q : RtpPacket) (len : ℕ)
    → IsRtp p
    → p.length ≤ len
    → p.length ≤ length q.payload
    → parse_bytes q (write_bytes p len) (written p len)
      ≡ some (record (received p q) { payload = p.payload ++ drop p.length q.payload })
unfolding written
parse_bytes-write_bytes p q len h e k =
    let enough : fit len p.length + 12 - 12 ≡ p.length = omega (arith, fit_all len p.length e) in
    after_header q (received p q) (write_bytes p len) p.payload
      (p.payload ++ drop p.length q.payload) (written p len) (omega arith)
      (rw (write_bytes_lem p len h e, parse_header-header p q p.payload h))
      (ap (λ n. copy n p.payload q.payload) enough
        ∙ copy_all p.payload q.payload p.length (sym h.payload) k)

-- `writeBytes` of an RTP packet, whose payload is as long as it is said to be, puts down as many
-- bytes as it returns, at most 12 more than the buffer is said to have: all of the packet if the
-- payload fits in the buffer, or else exactly 12 more than the buffer has.
pub written_lem :
    (p : RtpPacket) (len : ℕ)
    → length p.payload ≡ p.length
    → (length (write_bytes p len) ≡ written p len)
      × (written p len ≤ len + 12)
      × ((written p len ≡ p.length + 12) ⊎ ((len < p.length) × (written p len ≡ len + 12)))
unfolding write_bytes written
written_lem p len h = ground (arith, length-take len p.payload, length-take p.length p.payload)

-- A packet that fits in the buffer is written without a fault.
pub write_into-some :
    (p : RtpPacket) (len : ℕ)
    → len < 2147483648
    → p.length ≤ length p.payload
    → p.length + 12 ≤ len
    → write_into p len ≡ some (write_bytes p len)
unfolding write_into
write_into-some p len small whole fits = ground arith
