-- ===== src/Adpcm/Codec.antt =====
-- src/kodek.c: `adpcm_encode` and `adpcm_decode`. A byte is its bit pattern.
pub mod Lockstep
pub mod Bounds
use viva_voce.Prelude.{
  ℕ, zero, suc, ◌+◌, ◌*◌, ◌/◌, ◌%◌, List, [], ◌∷◌, ◌++◌, Bool, Option, none, some, leb,
  if◌then◌else◌, get_or, length, true, false,
}
use viva_voce.Prelude.Int.{ℤ, pos, ◌-ℤ◌, ltb_ℤ}
use viva_voce.Adpcm.{AdpcmState, step_sizes, to_short, quantize, advance}

-- `qOut`: `qVal`, which is below 8, with `| 0x08` for a negative difference.
pub q_out : Bool → ℕ → ℕ
q_out negative q = if negative then q + 8 else q

-- One round of the encoder: the 4-bit code, `qOut`, and the new state. `delta` is a `short`.
pub encode_sample : AdpcmState → ℤ → ℕ × AdpcmState
encode_sample s sample =
    let delta = to_short (sample -ℤ s.previous) in
    let negative = ltb_ℤ delta (pos 0) in
    let magnitude = if negative then to_short (pos 0 -ℤ delta) else delta in
    let q = quantize (get_or step_sizes s.index 0) magnitude in
    (q_out negative q, advance s negative q)

-- `outputBuffer`, if it holds half a byte (`isBuffered` is 0 then), and the bytes written by
-- `bytePtr[count]`.
pub record Output : Type 0 where
  pub pending : Option ℕ
  pub written : List ℕ

pub put_code : ℕ → Output → Output
put_code code o = elim o.pending [
  | none ↦ record o { pending = some (code * 16) }
  | some half ↦ record { pending = none; written = o.written ++ (code + half) ∷ [] }
]

pub encode_loop : List ℤ → AdpcmState → Output → AdpcmState × Output
encode_loop [] s o = (s, o)
encode_loop (x ∷ xs) s o = let (code, s') = encode_sample s x in encode_loop xs s' (put_code code o)

-- `*bytePtr = outputBuffer` at the end: `bytePtr` still points to the first byte.
pub flush : Option ℕ → List ℕ → List ℕ
flush none bytes = bytes
flush (some half) [] = half ∷ []
flush (some half) (b ∷ bytes) = half ∷ bytes

-- The result is `count`, with the bytes in the buffer and the state.
pub record Encoded : Type 0 where
  pub count : ℕ
  pub bytes : List ℕ
  pub state : AdpcmState

pub encode : AdpcmState → List ℤ → Encoded
encode s samples =
    let (s', o) = encode_loop samples s (record { pending = none; written = [] }) in
    record { count = length o.written; bytes = flush o.pending o.written; state = s' }

-- One round of the decoder. The code is below 16, so the test for an error never succeeds.
pub decode_code : AdpcmState → ℕ → AdpcmState
decode_code s code = if leb 8 code then advance s true (code % 8) else advance s false code

-- Two rounds for each byte, the high half first: the samples and the state.
pub decode_bytes : List ℕ → AdpcmState → List ℤ × AdpcmState
decode_bytes [] s = ([], s)
decode_bytes (b ∷ bytes) s =
    let s1 = decode_code s (b / 16 % 16) in
    let s2 = decode_code s1 (b % 16) in
    let (samples, s') = decode_bytes bytes s2 in (s1.previous ∷ s2.previous ∷ samples, s')

pub record Decoded : Type 0 where
  pub count : ℕ
  pub samples : List ℤ
  pub state : AdpcmState

pub decode : AdpcmState → List ℕ → Decoded
decode s bytes =
    let (samples, s') = decode_bytes bytes s in
    record { count = length bytes * 2; samples = samples; state = s' }
