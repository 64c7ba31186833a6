-- ===== src/Adpcm/Worker/Passing.antt =====
-- src/AdpcmCodec.cpp: what one codec thread encodes, another decodes.
use viva_voce.Prelude.{
  take-append, leb-true, ltb-false, ℕ, suc, ◌+◌, ◌-◌, ◌*◌, ◌/◌, ◌%◌, ◌^◌, ◌≤◌, ◌<◌, ◌≡◌, refl, List,
  [], ◌∷◌, Option, some, Bool, true, false, ◌||◌, arith, leb, ◌>>=◌, get_or, length, take, drop,
  map,
}
use viva_voce.Prelude.Int.{pos}
use viva_voce.Pool.{Memo}
use viva_voce.Adpcm.{to_short}
use viva_voce.Adpcm.Codec.{decode}
use viva_voce.Adpcm.Worker.{
  AdpcmCodec, adpcm_set, unsigned_short, samples_of, encode_samples, encode_memo, bytes_of,
  decode_samples, decode_memo, overwrite, payload,
}

-- A memo passed from the encoder of one thread to the decoder of another: its length then, and its
-- bytes of that length.
abbrev pub passed : (ℕ → ℕ) → (ℕ → ℕ) → AdpcmCodec → AdpcmCodec → Memo → Option (ℕ × List ℕ)
passed audio_u2s audio_s2u c d memo =
    encode_memo audio_u2s c memo
    >>= (λ (sent : AdpcmCodec × Memo). decode_memo audio_s2u d sent.1)
    >>= (λ (heard : AdpcmCodec × Memo). some (heard.1.data1, take heard.1.data1 heard.1.bytes))

cut : (n : ℕ) → suc n - 1 ≡ n
cut n = omega arith

taken :
    (first : ℕ) (rest old : List ℕ)
    → take (suc (length rest) - 1) (drop 1 (overwrite (first ∷ rest) old)) ≡ rest
taken first rest old = rw (cut (length rest)) (take-append rest (drop (suc (length rest)) old))

module _ (audio_u2s : ℕ → ℕ) where
  pub samples_of-lt : (l : List ℕ) → get_or (map (λ b. audio_u2s b % 2 ^ 16) l) 0 0 < 2 ^ 16
  samples_of-lt [] = omega arith
  samples_of-lt (x ∷ xs) = omega arith

  pub encode_memo-samples :
      (c : AdpcmCodec) (memo : Memo) (first : ℕ) (rest : List ℕ)
      → samples_of audio_u2s memo ≡ first ∷ rest
      → memo.data1 ≡ suc (length rest)
      → memo.data1 ≤ length memo.bytes
      → memo.data1 ≤ length c.pcm_samples
      → encode_memo audio_u2s c memo
        ≡ encode_samples
            (record c { pcm_samples = overwrite (first ∷ rest) c.pcm_samples })
            memo
            first
            (map (λ n. to_short (pos n)) rest)
  unfolding encode_memo
  encode_memo-samples c memo first rest h one fits room =
      rw (leb-true _ _ fits, leb-true _ _ room, h, one, taken first rest c.pcm_samples) refl

-- The decoder starts from the state that the encoder started from.
adpcm_set-to_short : (first : ℕ) → adpcm_set (to_short (pos first)) 0 ≡ adpcm_set (pos first) 0
unfolding adpcm_set to_short
adpcm_set-to_short first = ground arith

bytes_join : (first : ℕ) → first < 2 ^ 16 → first % 256 + 256 * (first / 256 % 256) ≡ first
bytes_join first h = omega arith

count_data : (n : ℕ) → n + 4 - 4 ≡ n
count_data n = omega arith

payload-data :
    (first : ℕ) (data_ old : List ℕ)
    → take (length data_ + 4 - 4) (drop 4 (overwrite (payload first 0 0 data_) old)) ≡ data_
payload-data first data_ old = rw (count_data (length data_)) (take-append data_ _)

payload-index :
    (first : ℕ) (data_ old : List ℕ) → get_or (overwrite (payload first 0 0 data_) old) 2 0 ≡ 0
payload-index first data_ old = refl

or_true : (b : Bool) → (b || true) ≡ true
or_true true = refl
or_true false = refl

module _ (audio_s2u : ℕ → ℕ) where
  pub decode_memo-payload :
      (c : AdpcmCodec) (memo : Memo) (first : ℕ) (data_ old : List ℕ)
      → memo.bytes ≡ overwrite (payload first 0 0 data_) old
      → memo.data1 ≡ length data_ + 4
      → memo.data1 ≤ length memo.bytes
      → first < 2 ^ 16
      → let d = decode (adpcm_set (pos first) 0) data_ in
        decode_memo audio_s2u c memo
        ≡ decode_samples audio_s2u
            (record c { state_dec = d.state })
            memo
            d.count
            (first ∷ map unsigned_short d.samples)
  unfolding decode_memo
  decode_memo-payload c memo first data_ old h n fits short =
      rw
        (
          leb-true memo.data1 (length memo.bytes) fits,
          leb-true 4 (length memo.bytes) (omega arith),
          h,
          n,
          bytes_join first short,
          payload-data first data_ old,
          payload-index first data_ old,
          adpcm_set-to_short first,
          or_true (leb (length data_ + 4) 4),
        )
        refl

  pub decode_samples_lem :
      (c : AdpcmCodec) (memo : Memo) (n : ℕ) (samples : List ℕ)
      → 4 ≤ memo.data1
      → n + 1 ≤ length c.pcm_samples
      → n + 1 ≤ length memo.bytes
      → decode_samples audio_s2u c memo n samples
        ≡ some (
          record c { pcm_samples = overwrite samples c.pcm_samples },
          record memo { data1 = n + 1; bytes = overwrite (bytes_of audio_s2u samples) memo.bytes },
        )
  unfolding decode_samples
  decode_samples_lem c memo n samples four room space =
      rw (ltb-false _ _ four, leb-true _ _ room, leb-true _ _ space) refl
