-- ===== src/Rtp.antt =====
-- src/RTP.h and src/RTP.cpp: RTP packets and their bytes, as on the 32-bit little-endian machines
-- that the comments of RTP.h describe: `unsigned long` has 32 bits, and a bit field starts at the
-- low bit of its byte. A read or write past the end of a buffer is a fault, here `none`.
pub mod Bytes
pub mod Rtcp
pub mod RoundTrip
pub mod Manager
mod Tests
use viva_voce.Prelude.{
  leb, ℕ, ◌+◌, ◌-◌, ◌*◌, ◌/◌, ◌%◌, ◌^◌, Bool, Option, none, some, List, [], ◌∷◌, ◌++◌, length, take,
  drop, ltb, ◌==◌, ◌>>=◌, if◌then◌else◌,
}

-- The bytes of a number in memory, the low byte first, and back.
abbrev pub put16 : ℕ → List ℕ
put16 x = x % 256 ∷ x / 256 % 256 ∷ []

abbrev pub put32 : ℕ → List ℕ
put32 x = x % 256 ∷ x / 256 % 256 ∷ x / 65536 % 256 ∷ x / 16777216 % 256 ∷ []

abbrev pub get16 : List ℕ → Option (ℕ × List ℕ)
get16 (a ∷ b ∷ r) = some (a + 256 * b, r)
get16 r = none

abbrev pub get32 : List ℕ → Option (ℕ × List ℕ)
get32 (a ∷ b ∷ c ∷ d ∷ r) = some (a + 256 * b + 65536 * c + 16777216 * d, r)
get32 r = none

-- `htons` and `htonl`, which are also `ntohs` and `ntohl`.
unfoldable pub htons : ℕ → ℕ
htons x = x % 256 * 256 + x / 256 % 256

unfoldable pub htonl : ℕ → ℕ
htonl x = x % 256 * 16777216 + x / 256 % 256 * 65536 + x / 65536 % 256 * 256 + x / 16777216 % 256

-- `(x ? 1 : 0)`.
abbrev pub flag : ℕ → ℕ
flag x = if x == 0 then 0 else 1

-- `RTPPacket`. `payload` is the buffer that the pointer of that name points to.
pub record RtpPacket : Type 0 where
  pub version : ℕ
  pub padding : ℕ
  pub extension : ℕ
  pub csrc_count : ℕ
  pub marker : ℕ
  pub payload_type : ℕ
  pub sequence : ℕ
  pub timestamp : ℕ
  pub ssrc : ℕ
  pub payload : List ℕ
  pub length : ℕ

abbrev pub new_rtp_packet : RtpPacket
new_rtp_packet = record {
  version = 2;
  padding = 0;
  extension = 0;
  csrc_count = 0;
  marker = 0;
  payload_type = 0;
  sequence = 0;
  timestamp = 0;
  ssrc = 0;
  payload = [];
  length = 0;
}

abbrev pub point_data : List ℕ → ℕ → RtpPacket → RtpPacket
point_data bytes len p = record p { payload = bytes; length = len }

abbrev pub count_csrc : RtpPacket → ℕ
count_csrc p = p.csrc_count

-- `RTP_FIX_HDR_LEN`.
abbrev pub rtp_fix_hdr_len : ℕ
rtp_fix_hdr_len = 12

-- The bytes of `rtpHeader`.
abbrev pub header : RtpPacket → List ℕ
header p =
    (p.version % 4 + 4 * flag p.padding + 8 * flag p.extension + 16 * (count_csrc p % 16))
      ∷ (flag p.marker + 2 * (p.payload_type % 128))
      ∷ put16 (htons p.sequence)
    ++ put32 (htonl p.timestamp)
    ++ put32 (htonl p.ssrc)

-- The smaller of the two lengths.
abbrev pub fit : ℕ → ℕ → ℕ
fit len have = if ltb have len then have else len

-- `writeBytes` of an RTP packet, for a buffer that is said to have `len` bytes: the bytes that it
-- puts down, wherever that is. Whether it stays within its buffers is in `write_into`.
unfoldable pub write_bytes : RtpPacket → ℕ → List ℕ
write_bytes p len = header p ++ take (fit len p.length) p.payload

-- The result of `writeBytes`.
unfoldable pub written : RtpPacket → ℕ → ℕ
written p len = fit len p.length + rtp_fix_hdr_len

-- `writeBytes` into a buffer of just the bytes that it is said to have. A length below 0, which is one
-- of 2 ^ 31 or more here, is copied as a size, which no buffer has.
unfoldable pub write_into : RtpPacket → ℕ → Option (List ℕ)
write_into p len =
    if leb 2147483648 p.length
    then none
    else if ltb (length p.payload) (fit len p.length)
    then none
    else if ltb len (fit len p.length + rtp_fix_hdr_len)
    then none
    else some (write_bytes p len)

-- `memcpy` of the first `n` bytes of one buffer to the start of another.
unfoldable pub copy : ℕ → List ℕ → List ℕ → Option (List ℕ)
copy n from to =
    if ltb (length from) n
    then none
    else if ltb (length to) n
    then none
    else some (take n from ++ drop n to)

-- The header fields that `parseBytes` takes, from the first eight bytes. The marker is the payload
-- type, and the SSRC is the packet's own one with its bytes turned round.
unfoldable pub parse_header : RtpPacket → List ℕ → Option (RtpPacket × List ℕ)
parse_header p (b0 ∷ b1 ∷ r0) = do
  (sequence, r1) ← get16 r0
  (timestamp, r2) ← get32 r1
  (own, r3) ← get32 r2
  some (
    record p {
      version = b0 % 4;
      padding = b0 / 4 % 2;
      extension = b0 / 8 % 2;
      marker = b1 / 2;
      sequence = htons sequence;
      timestamp = htonl timestamp;
      ssrc = htonl p.ssrc;
    },
    r3,
  )
parse_header p r = none

-- `parseBytes` of `len` bytes. Fewer than 12 would be a copy of a negative length.
unfoldable pub parse_bytes : RtpPacket → List ℕ → ℕ → Option RtpPacket
parse_bytes p msg len = if ltb len rtp_fix_hdr_len then none else (do
  (q, rest) ← parse_header p msg
  payload ← copy (len - rtp_fix_hdr_len) rest q.payload
  some (record q { payload = payload }))
