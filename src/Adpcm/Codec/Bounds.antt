-- ===== src/Adpcm/Codec/Bounds.antt =====
-- src/kodek.c: the state of both loops stays in range.
use viva_voce.Prelude.{ℕ, ◌/◌, ◌%◌, List, [], ◌∷◌, true, false, none, arith}
use viva_voce.Prelude.Int.{ℤ}
use viva_voce.Adpcm.{AdpcmState}
use viva_voce.Adpcm.Rounding.{InRange, advance-InRange}
use viva_voce.Adpcm.Codec.{
  encode_sample, Output, put_code, encode_loop, encode, decode_code, decode_bytes, decode,
}

encode_sample-InRange : (s : AdpcmState) (x : ℤ) → InRange (encode_sample s x).1
unfolding encode_sample
encode_sample-InRange s x = advance-InRange s _ _

decode_code-InRange : (s : AdpcmState) (code : ℕ) → InRange (decode_code s code)
unfolding decode_code
decode_code-InRange s code =
    ground (arith, advance-InRange s true (code % 8), advance-InRange s false code)

encode_loop-InRange :
    (xs : List ℤ) (s : AdpcmState) (o : Output) → InRange s → InRange (encode_loop xs s o).0
unfolding encode_loop
encode_loop-InRange [] s o v = v
encode_loop-InRange (x ∷ xs) s o v =
    encode_loop-InRange xs (encode_sample s x).1 (put_code (encode_sample s x).0 o)
      (encode_sample-InRange s x)

decode_bytes-InRange :
    (bytes : List ℕ) (s : AdpcmState) → InRange s → InRange (decode_bytes bytes s).1
unfolding decode_bytes
decode_bytes-InRange [] s v = v
decode_bytes-InRange (b ∷ bytes) s v =
    decode_bytes-InRange bytes (decode_code (decode_code s (b / 16 % 16)) (b % 16))
      (decode_code-InRange _ (b % 16))

-- From a state in range, encoding any samples and decoding any bytes end in a state in range: the
-- index in 0 .. 88, and the prediction within 16 bits.
pub codec-InRange :
    (s : AdpcmState) (samples : List ℤ) (bytes : List ℕ)
    → InRange s
    → InRange (encode s samples).state × InRange (decode s bytes).state
unfolding encode decode
codec-InRange s samples bytes v = (
  encode_loop-InRange samples s (record { pending = none; written = [] }) v,
  decode_bytes-InRange bytes s v,
)
