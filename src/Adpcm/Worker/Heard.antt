-- ===== src/Adpcm/Worker/Heard.antt =====
-- src/AdpcmCodec.cpp: what the decoder of one thread gives back of a memo that another encoded.
use viva_voce.Prelude.{
  take-append, length-map, leb-true, ℕ, suc, ◌+◌, ◌*◌, ◌%◌, ◌^◌, ◌≤◌, ◌<◌, ◌≡◌, refl, sym, ap, ◌∙◌,
  List, [], ◌∷◌, some, arith, get_or, length, length-append, length-take, length-drop, take, drop,
  map,
}
use viva_voce.Prelude.Int.{ℤ, pos}
use viva_voce.Pool.{Memo}
use viva_voce.Adpcm.{AdpcmState, to_short}
use viva_voce.Adpcm.Codec.{Encoded, encode, decode, encode_sample}
use viva_voce.Adpcm.Codec.Lockstep.{predictions, decode-encode, length-encode}
use viva_voce.Adpcm.Worker.{
  AdpcmCodec, adpcm_set, unsigned_short, overwrite, payload, samples_of, encode_samples, bytes_of,
}
use viva_voce.Adpcm.Worker.Passing.{
  passed, samples_of-lt, encode_memo-samples, decode_memo-payload, decode_samples_lem,
}

pub length-predictions : (s : AdpcmState) (l : List ℤ) → length (predictions s l) ≡ length l
length-predictions s [] = refl
length-predictions s (x ∷ l) = ap suc (length-predictions (encode_sample s x).1 l)

length-overwrite :
    (new old : List ℕ) → length new ≤ length old → length (overwrite new old) ≡ length old
length-overwrite new old h =
    omega (arith, length-append new (drop (length new) old), length-drop (length new) old)

encode_samples_lem :
    (c : AdpcmCodec) (memo : Memo) (first : ℕ) (rest : List ℤ)
    → let e = encode (adpcm_set (pos first) 0) rest in
      4 + length e.bytes ≤ length memo.bytes
      → encode_samples c memo first rest
        ≡ some (
          record c { state_enc = e.state },
          record memo {
            data1 = e.count + 4;
            bytes = overwrite (payload first 0 0 e.bytes) memo.bytes;
          },
        )
unfolding encode_samples
encode_samples_lem c memo first rest h = rw (leb-true _ _ h) refl

length-samples_of :
    (audio_u2s : ℕ → ℕ) (memo : Memo)
    → memo.data1 ≤ length memo.bytes
    → length (samples_of audio_u2s memo) ≡ memo.data1
unfolding samples_of
length-samples_of audio_u2s memo h =
    length-map _ (take memo.data1 memo.bytes) ∙ omega (arith, length-take memo.data1 memo.bytes)

pub length-bytes_of :
    (audio_s2u : ℕ → ℕ) (samples : List ℕ) → length (bytes_of audio_s2u samples) ≡ length samples
unfolding bytes_of
length-bytes_of audio_s2u samples = length-map _ samples

first-lt :
    (audio_u2s : ℕ → ℕ) (memo : Memo) (first : ℕ) (rest : List ℕ)
    → samples_of audio_u2s memo ≡ first ∷ rest
    → first < 2 ^ 16
unfolding samples_of
first-lt audio_u2s memo first rest h = omega (
  arith,
  samples_of-lt audio_u2s (take memo.data1 memo.bytes),
  ap (λ (l : List ℕ). get_or l 0 0) h,
)

-- An audio memo with a first sample and an even number of further ones is encoded by one codec
-- thread and decoded by another, whatever the states of their coders. If the memo fits its buffer
-- and both sample buffers, and its buffer has room for half a byte a further sample and for the
-- header, neither thread faults, and the memo ends as long as it was: with the first sample, then
-- for each further one the prediction of an encoder that starts at the first sample with step
-- index 0, each through `audio_s2u`.
pub passed-predictions :
    (audio_u2s audio_s2u : ℕ → ℕ) (c d : AdpcmCodec) (memo : Memo) (first : ℕ) (rest : List ℕ)
    → samples_of audio_u2s memo ≡ first ∷ rest
    → length rest % 2 ≡ 0
    → memo.data1 ≤ length memo.bytes
    → 8 + length rest ≤ length memo.bytes * 2
    → memo.data1 ≤ length c.pcm_samples
    → memo.data1 ≤ length d.pcm_samples
    → passed audio_u2s audio_s2u c d memo
      ≡ some (
        memo.data1,
        bytes_of audio_s2u (
            first
            ∷ map unsigned_short
                (predictions (adpcm_set (pos first) 0) (map (λ n. to_short (pos n)) rest))),
      )
passed-predictions audio_u2s audio_s2u c d memo first rest h even fits space room room' =
    rw
      (
        encode_memo-samples audio_u2s c memo first rest h one fits room,
        encode_samples_lem c' memo first voice short,
        decode_memo-payload audio_s2u d sent first e.bytes memo.bytes refl (omega (arith, counted))
            sent_fits (first-lt audio_u2s memo first rest h),
        in_step.0,
        in_step.3,
        decode_samples_lem audio_s2u (record d { state_dec = (decode s e.bytes).state }) sent
            (length voice) heard four heard_room heard_fits,
      )
      (rw (heard_taken, size) refl)
  where
    voice : List ℤ
    voice = map (λ n. to_short (pos n)) rest

    same : length voice ≡ length rest
    same = length-map _ rest

    c' : AdpcmCodec
    c' = record c { pcm_samples = overwrite (first ∷ rest) c.pcm_samples }

    one : memo.data1 ≡ suc (length rest)
    one = sym (length-samples_of audio_u2s memo fits) ∙ ap length h

    s : AdpcmState
    s = adpcm_set (pos first) 0

    e : Encoded
    e = encode s voice

    sent : Memo
    sent = record memo {
      data1 = e.count + 4;
      bytes = overwrite (payload first 0 0 e.bytes) memo.bytes;
    }

    in_step :
        ((decode s e.bytes).samples ≡ predictions s voice)
        × ((decode s e.bytes).state ≡ e.state)
        × (e.count * 2 ≡ length voice)
        × ((decode s e.bytes).count ≡ length voice)
    in_step = decode-encode s voice (omega (arith, same))

    counted : length e.bytes ≡ e.count
    counted = length-encode s voice (omega (arith, same))

    short : 4 + length e.bytes ≤ length memo.bytes
    short = omega (arith, counted, in_step.2, same)

    total : length sent.bytes ≡ length memo.bytes
    total = length-overwrite (payload first 0 0 e.bytes) memo.bytes (omega (arith, short))

    sent_fits : sent.data1 ≤ length sent.bytes
    sent_fits = omega (arith, total, counted, short)

    heard : List ℕ
    heard = first ∷ map unsigned_short (predictions s voice)

    four : 4 ≤ sent.data1
    four = omega arith

    heard_room : length voice + 1 ≤ length d.pcm_samples
    heard_room = omega (arith, same, one)

    heard_fits : length voice + 1 ≤ length sent.bytes
    heard_fits = omega (arith, same, one, total)

    size : length voice + 1 ≡ memo.data1
    size = omega (arith, same, one)

    heard_length : length (bytes_of audio_s2u heard) ≡ length voice + 1
    heard_length =
        length-bytes_of audio_s2u heard
        ∙ omega (arith, length-map unsigned_short (predictions s voice), length-predictions s voice)

    heard_taken :
        take (length voice + 1) (overwrite (bytes_of audio_s2u heard) sent.bytes)
        ≡ bytes_of audio_s2u heard
    heard_taken =
        ap (λ n. take n (overwrite (bytes_of audio_s2u heard) sent.bytes)) (sym heard_length)
        ∙ take-append (bytes_of audio_s2u heard) _
