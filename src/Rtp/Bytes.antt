-- ===== src/Rtp/Bytes.antt =====
-- src/RTP.cpp: a number in network order in memory, read back.
use viva_voce.Prelude.{ℕ, ◌+◌, ◌*◌, ◌/◌, ◌%◌, ◌<◌, ◌≡◌, arith}
use viva_voce.Rtp.{htons, htonl}

-- `get16` after `put16`, and `get32` after `put32`.
abbrev pub through16 : ℕ → ℕ
through16 x = x % 256 + 256 * (x / 256 % 256)

abbrev pub through32 : ℕ → ℕ
through32 x =
    x % 256 + 256 * (x / 256 % 256) + 65536 * (x / 65536 % 256) + 16777216 * (x / 16777216 % 256)

pub short_back : (x : ℕ) → x < 65536 → htons (through16 (htons x)) ≡ x
unfolding htons
short_back x h = omega arith

pub long_back : (x : ℕ) → x < 4294967296 → htonl (through32 (htonl x)) ≡ x
unfolding htonl
long_back x h = omega arith
