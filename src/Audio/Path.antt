-- ===== src/Audio/Path.antt =====
-- src/AudioRW.cpp and src/AdpcmCodec.cpp: the sound of one capture, from the device of one party to
-- the device of the other. The sizes are those that the constructor of src/Common.cpp sets.
use viva_voce.Prelude.{
  ℕ, suc, ◌<◌, leb-true, ◌%◌, ◌^◌, ◌≤◌, ◌≡◌, refl, sym, ap, ◌∙◌, List, [], ◌∷◌, ◌++◌, some, false,
  arith, length, length-append, length-map, take, drop, map, take-append,
}
use viva_voce.Prelude.Int.{pos}
use viva_voce.Queue.{signal_data}
use viva_voce.Pool.{Memo, alloc_memo, release_memo}
use viva_voce.Adpcm.{to_short}
use viva_voce.Adpcm.Codec.Lockstep.{predictions}
use viva_voce.Adpcm.Worker.{
  AdpcmCodec, adpcm_set, unsigned_short, samples_of, bytes_of, msg_enc, msg_play,
}
use viva_voce.Adpcm.Worker.Passing.{passed}
use viva_voce.Adpcm.Worker.Heard.{length-predictions, length-bytes_of, passed-predictions}
use viva_voce.Common.{Common, first_settings}
use viva_voce.Audio.{yields, is_set, got, hand_over, capture, play_round}
use viva_voce.Audio.Loops.{joined, read_loop-joined, write_loop-all}

-- What the other party hears of the samples of one capture.
abbrev pub heard_of : (ℕ → ℕ) → ℕ → List ℕ → List ℕ
heard_of audio_s2u first rest = bytes_of audio_s2u (
    first
    ∷ map unsigned_short (predictions (adpcm_set (pos first) 0) (map (λ n. to_short (pos n)) rest)))

length-heard_of :
    (audio_s2u : ℕ → ℕ) (first : ℕ) (rest : List ℕ)
    → length (heard_of audio_s2u first rest) ≡ suc (length rest)
length-heard_of audio_s2u first rest =
    length-bytes_of audio_s2u _
    ∙ ap suc (length-map unsigned_short _ ∙ length-predictions _ _ ∙ length-map _ rest)

module _ {R : Type 0} (malloc : ℕ → List ℕ) (sinewave : List ℕ) (common : Common R) where
  -- The memo of a capture.
  abbrev pub captured : List (List ℕ) → Memo
  captured chunks =
      let memo = (alloc_memo malloc common.rmg).0 in
      record memo {
        code = msg_enc;
        data1 = 161;
        bytes = joined chunks ++ drop (length (joined chunks)) memo.bytes;
      }

  pub capture_lem :
      (chunks : List (List ℕ))
      → common.settings ≡ first_settings
      → is_set common.flags.audio_gen_tone ≡ false
      → length (joined chunks) ≡ 161
      → 161 ≤ length (alloc_memo malloc common.rmg).0.bytes
      → let n = common.counters in
        capture malloc sinewave (map got chunks) common
        ≡ yields (record common {
          rmg = (alloc_memo malloc common.rmg).1;
          counters = record n { units_rec = suc n.units_rec };
          codec_q = signal_data (captured chunks) common.codec_q;
        })
  unfolding capture hand_over first_settings
  capture_lem chunks set quiet full room =
      rw
        (
          set,
          read_loop-joined chunks 161 [] (alloc_memo malloc common.rmg).0.bytes
              (omega (arith, full)) (omega arith),
          quiet,
        )
        refl

  samples_of-captured :
      (audio_u2s : ℕ → ℕ) (chunks : List (List ℕ))
      → length (joined chunks) ≡ 161
      → samples_of audio_u2s (captured chunks) ≡ map (λ b. audio_u2s b % 2 ^ 16) (joined chunks)
  unfolding samples_of
  samples_of-captured audio_u2s chunks full =
      ap (map (λ b. audio_u2s b % 2 ^ 16))
        (ap (λ n. take n (captured chunks).bytes) (sym full) ∙ take-append (joined chunks) _)

  captured_room :
      (chunks : List (List ℕ)) → length (joined chunks) ≡ 161 → 161 ≤ length (captured chunks).bytes
  captured_room chunks full = omega (
    arith,
    full,
    length-append (joined chunks)
        (drop (length (joined chunks)) (alloc_memo malloc common.rmg).0.bytes),
  )

  -- A round of the writer with the sound on, for a memo that begins with some bytes.
  pub play_round_lem :
      (golden : List ℕ) (sizes heard rest : List ℕ) (memo : Memo) (speaker : Common R)
      → is_set speaker.flags.audio_mute ≡ false
      → 0 < length heard
      → length heard ≤ length sizes
      → let m = record memo { code = msg_play; data1 = length heard; bytes = heard ++ rest } in
        let n = speaker.counters in
        play_round golden (map (λ s. some (suc s)) sizes) (some m) speaker
        ≡ yields (
          heard,
          record speaker {
            rmg = release_memo (some m) speaker.rmg;
            counters = record n { units_pld = suc n.units_pld };
          },
        )
  unfolding play_round
  play_round_lem golden sizes heard rest memo speaker loud some_ enough =
      rw
        (
          loud,
          leb-true (length heard) (length (heard ++ rest))
              (omega (arith, length-append heard rest)),
          take-append heard rest,
          write_loop-all sizes heard some_ enough,
        )
        refl

  -- With the sizes of the constructor, the tone off, a memo with room for a capture and sample
  -- buffers with room for one, a capture that `read` delivers in chunks of any sizes, 161 bytes
  -- together, is handed to the codec queue as one memo with these bytes; what one codec thread
  -- encodes of it and another decodes, in whatever states they are, is 161 bytes again, the first
  -- sample and the encoder's predictions of the others; and a round of the writer with the sound
  -- on (`audioMute` is 0), for a memo to play that begins with these bytes, writes all of them in
  -- their order, counts one unit played and releases the memo, whatever positive sizes `write`
  -- returns, if it returns at least 161 times.
  pub capture-heard :
      (audio_u2s audio_s2u : ℕ → ℕ) (c d : AdpcmCodec) (chunks : List (List ℕ)) (sizes : List ℕ)
      (first : ℕ) (rest golden padding : List ℕ) (memo : Memo) (speaker : Common R)
      → common.settings ≡ first_settings
      → is_set common.flags.audio_gen_tone ≡ false
      → is_set speaker.flags.audio_mute ≡ false
      → length (joined chunks) ≡ 161
      → map (λ b. audio_u2s b % 2 ^ 16) (joined chunks) ≡ first ∷ rest
      → 161 ≤ length (alloc_memo malloc common.rmg).0.bytes
      → 161 ≤ length c.pcm_samples
      → 161 ≤ length d.pcm_samples
      → 161 ≤ length sizes
      → let n = common.counters in
        let heard = heard_of audio_s2u first rest in
        (capture malloc sinewave (map got chunks) common
          ≡ yields (record common {
            rmg = (alloc_memo malloc common.rmg).1;
            counters = record n { units_rec = suc n.units_rec };
            codec_q = signal_data (captured chunks) common.codec_q;
          }))
        × (passed audio_u2s audio_s2u c d (captured chunks) ≡ some (161, heard))
        × (let m = record memo {
          code = msg_play;
          data1 = length heard;
          bytes = heard ++ padding;
        } in
            let k = speaker.counters in
            (length heard ≡ 161)
            × (play_round golden (map (λ s. some (suc s)) sizes) (some m) speaker
                ≡ yields (
                  heard,
                  record speaker {
                    rmg = release_memo (some m) speaker.rmg;
                    counters = record k { units_pld = suc k.units_pld };
                  },
                )))
  capture-heard audio_u2s audio_s2u c d chunks sizes first rest golden padding memo speaker set
        quiet loud full samples room pcm pcm' enough =
      let size : 161 ≡ suc (length rest) =
        sym full ∙ sym (length-map _ (joined chunks)) ∙ ap length samples in
      let buffer : 161 ≤ length (captured chunks).bytes = captured_room chunks full in
      let whole : samples_of audio_u2s (captured chunks) ≡ first ∷ rest =
        samples_of-captured audio_u2s chunks full ∙ samples in
      (
        capture_lem chunks set quiet full room,
        passed-predictions audio_u2s audio_s2u c d (captured chunks) first rest whole
            (omega (arith, size)) buffer (omega (arith, size, buffer)) pcm pcm',
        (
          omega (arith, size, length-heard_of audio_s2u first rest),
          play_round_lem golden sizes (heard_of audio_s2u first rest) padding memo speaker loud
              (omega (arith, size, length-heard_of audio_s2u first rest))
              (omega (arith, size, length-heard_of audio_s2u first rest)),
        ),
      )
