-- ===== src/Adpcm/Tests.antt =====
-- src/kodek.c: the theorems at a few samples.
use viva_voce.Prelude.{suc, ◌*◌, ◌≤◌, ◌<◌, ◌≡◌, refl, ◌⊎◌, List, [], ◌∷◌, ◌++◌, length, drop, arith}
use viva_voce.Prelude.Int.{ℤ, pos, negsuc}
use viva_voce.Adpcm.{AdpcmState, quantize, predict}
use viva_voce.Adpcm.Quantizer.{quantize_lem}
use viva_voce.Adpcm.Rounding.{InRange, predict_up}
use viva_voce.Adpcm.Codec.{encode, decode, encode_sample}
use viva_voce.Adpcm.Codec.Lockstep.{predictions, decode-encode, encode-append_odd}
use viva_voce.Adpcm.Codec.Bounds.{codec-InRange}

abbrev silence : AdpcmState
silence = record { previous = pos 0; index = 0 }

abbrev wave : List ℤ
wave = pos 100 ∷ pos 3000 ∷ negsuc 500 ∷ pos 7 ∷ []

decode-encode_example :
    let e = encode silence wave in
    let d = decode silence e.bytes in
    (d.samples ≡ predictions silence wave)
    × (d.state ≡ e.state)
    × (e.count * 2 ≡ length wave)
    × (d.count ≡ length wave)
decode-encode_example = decode-encode silence wave refl

encode-append_odd_example :
    let e = encode silence wave in
    let o = encode silence (wave ++ pos 9 ∷ []) in
    (o.count ≡ e.count) × (o.bytes ≡ ((encode_sample e.state (pos 9)).0 * 16) ∷ drop 1 e.bytes)
encode-append_odd_example = encode-append_odd silence wave (pos 9) refl

codec-InRange_example :
    InRange (encode silence wave).state × InRange (decode silence (7 ∷ 255 ∷ [])).state
codec-InRange_example =
    codec-InRange silence wave (7 ∷ 255 ∷ [])
      (record { indexed = omega arith; low = omega arith; high = omega arith })

predict_up_example : predict (pos 10) (pos 6) ≡ pos 12
predict_up_example = predict_up 10 6 (omega arith) (omega arith)

quantize_lem_example :
    let q = quantize 7 (pos 5) in (q ≤ 7) × (q * 7 ≤ 4 * 5) × ((q ≡ 7) ⊎ (4 * 5 < suc q * 7))
quantize_lem_example = quantize_lem 7 5
