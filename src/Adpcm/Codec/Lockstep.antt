-- ===== src/Adpcm/Codec/Lockstep.antt =====
-- src/kodek.c: the decoder keeps in step with the encoder.
use mathlib.Core.List.{append-nil, append_assoc}
use viva_voce.Prelude.{
  ℕ, ◌+◌, ◌*◌, ◌/◌, ◌%◌, ◌≤◌, ◌<◌, ◌≡◌, refl, ap, ◌∙◌, List, [], ◌∷◌, ◌++◌, Bool, true, false, none,
  some, arith, length, drop,
}
use viva_voce.Prelude.Int.{ℤ}
use viva_voce.Adpcm.{AdpcmState, advance}
use viva_voce.Adpcm.Quantizer.{quantize-le}
use viva_voce.Adpcm.Codec.{
  q_out, encode_sample, Output, put_code, encode_loop, flush, encode, decode_code, decode_bytes,
  decode,
}

-- The predictions of the encoder, one for each sample.
abbrev pub predictions : AdpcmState → List ℤ → List ℤ
predictions s [] = []
predictions s (x ∷ xs) = let s' = (encode_sample s x).1 in s'.previous ∷ predictions s' xs

q_out_lt : (negative : Bool) (q : ℕ) → q ≤ 7 → q_out negative q < 16
unfolding q_out
q_out_lt negative q h = ground arith

decode_code-q_out :
    (s : AdpcmState) (negative : Bool) (q : ℕ)
    → q ≤ 7
    → decode_code s (q_out negative q) ≡ advance s negative q
unfolding q_out decode_code
decode_code-q_out s true q h = ground (arith)
decode_code-q_out s false q h = ground (arith)

code_lt : (s : AdpcmState) (x : ℤ) → (encode_sample s x).0 < 16
unfolding encode_sample
code_lt s x = q_out_lt _ _ (quantize-le _ _)

decode_code-encode_sample :
    (s : AdpcmState) (x : ℤ) → decode_code s (encode_sample s x).0 ≡ (encode_sample s x).1
unfolding encode_sample
decode_code-encode_sample s x = decode_code-q_out s _ _ (quantize-le _ _)

-- The bytes for an even number of samples.
abbrev packed : AdpcmState → List ℤ → List ℕ
packed s [] = []
packed s (x ∷ []) = []
packed s (x ∷ y ∷ xs) =
    let s1 = (encode_sample s x).1 in
    ((encode_sample s1 y).0 + (encode_sample s x).0 * 16) ∷ packed (encode_sample s1 y).1 xs

final : AdpcmState → List ℤ → AdpcmState
final s [] = s
final s (x ∷ xs) = final (encode_sample s x).1 xs

encode_loop-packed :
    (xs : List ℤ) (s : AdpcmState) (w : List ℕ)
    → length xs % 2 ≡ 0
    → encode_loop xs s (record { pending = none; written = w })
      ≡ (final s xs, record { pending = none; written = w ++ packed s xs })
unfolding encode_loop put_code final
encode_loop-packed [] s w h = rw append-nil
encode_loop-packed (x ∷ []) s w h = absurd (omega arith)
encode_loop-packed (x ∷ y ∷ xs) s w h =
    encode_loop-packed xs (encode_sample s2 y).1 (w ++ b ∷ []) (omega arith)
    ∙ ap (λ (l : List ℕ). (final (encode_sample s2 y).1 xs, record { pending = none; written = l }))
        (append_assoc w (b ∷ []) _)
  where
    s2 : AdpcmState
    s2 = (encode_sample s x).1

    b : ℕ
    b = (encode_sample s2 y).0 + (encode_sample s x).0 * 16

high_half : (low high : ℕ) → low < 16 → high < 16 → (low + high * 16) / 16 % 16 ≡ high
high_half low high h k = omega arith

low_half : (low high : ℕ) → low < 16 → (low + high * 16) % 16 ≡ low
low_half low high h = omega arith

decode_bytes-packed :
    (xs : List ℤ) (s : AdpcmState)
    → length xs % 2 ≡ 0
    → decode_bytes (packed s xs) s ≡ (predictions s xs, final s xs)
unfolding decode_bytes final
decode_bytes-packed [] s h = refl
decode_bytes-packed (x ∷ []) s h = absurd (omega arith)
decode_bytes-packed (x ∷ y ∷ xs) s h =
    let s1 = (encode_sample s x).1 in
    let high = code_lt s x in
    let low = code_lt s1 y in
    rw
      (
        high_half _ _ low high,
        low_half _ _ low,
        decode_code-encode_sample s x,
        decode_code-encode_sample s1 y,
        decode_bytes-packed xs (encode_sample s1 y).1 (omega arith),
      )
      refl

length-packed :
    (xs : List ℤ) (s : AdpcmState) → length xs % 2 ≡ 0 → length (packed s xs) * 2 ≡ length xs
length-packed [] s h = refl
length-packed (x ∷ []) s h = absurd (omega arith)
length-packed (x ∷ y ∷ xs) s h =
    omega (arith, length-packed xs (encode_sample (encode_sample s x).1 y).1 (omega arith))

-- For an even number of samples, the decoder that starts in the encoder's state turns the
-- encoder's bytes into the encoder's own predictions, one for each sample, and ends in the
-- encoder's state. The encoder counts one byte for two samples, and the decoder returns one sample
-- for each half byte.
pub decode-encode :
    (s : AdpcmState) (samples : List ℤ)
    → length samples % 2 ≡ 0
    → let e = encode s samples in
      let d = decode s e.bytes in
      (d.samples ≡ predictions s samples)
      × (d.state ≡ e.state)
      × (e.count * 2 ≡ length samples)
      × (d.count ≡ length samples)
unfolding encode decode flush
decode-encode s samples h =
    rw (encode_loop-packed samples s [] h, decode_bytes-packed samples s h)
      (refl, refl, length-packed samples s h, length-packed samples s h)

-- For an even number of samples, the bytes are as many as are counted.
pub length-encode :
    (s : AdpcmState) (samples : List ℤ)
    → length samples % 2 ≡ 0
    → length (encode s samples).bytes ≡ (encode s samples).count
unfolding encode flush
length-encode s samples h = rw (encode_loop-packed samples s [] h) refl

encode_loop-append :
    (xs ys : List ℤ) (s : AdpcmState) (o : Output)
    → encode_loop (xs ++ ys) s o ≡ encode_loop ys (encode_loop xs s o).0 (encode_loop xs s o).1
unfolding encode_loop
encode_loop-append [] ys s o = refl
encode_loop-append (x ∷ xs) ys s o =
    encode_loop-append xs ys (encode_sample s x).1 (put_code (encode_sample s x).0 o)

-- One more sample than an even number leaves the count as it was, and its half byte replaces the
-- first byte of the output instead of following the last.
pub encode-append_odd :
    (s : AdpcmState) (samples : List ℤ) (x : ℤ)
    → length samples % 2 ≡ 0
    → let e = encode s samples in
      let o = encode s (samples ++ x ∷ []) in
      (o.count ≡ e.count) × (o.bytes ≡ ((encode_sample e.state x).0 * 16) ∷ drop 1 e.bytes)
unfolding encode encode_loop flush put_code
encode-append_odd s samples x h =
    rw (encode_loop-append samples (x ∷ []) s, encode_loop-packed samples s [] h)
      (refl, overwrite (packed s samples))
  where
    overwrite :
        (l : List ℕ)
        → flush (some ((encode_sample (final s samples) x).0 * 16)) l
          ≡ ((encode_sample (final s samples) x).0 * 16) ∷ drop 1 l
    overwrite [] = refl
    overwrite (b ∷ l) = refl
