-- ===== src/Audio/Echo.antt =====
-- src/AudioTest.h and src/AudioTest.cpp: the test of the audio device, which plays what is recorded.
-- The copy of the bytes in a file is left out.
use viva_voce.Prelude.{ℕ, ◌*◌, ◌/◌, ◌%◌, Bool, true, false, Option, none, some, if◌then◌else◌}
use viva_voce.Prelude.Int.{pos}
use viva_voce.Queue.{signal_data}
use viva_voce.Pool.{Memo}
use viva_voce.Adpcm.Worker.{AdpcmCodec, encode_memo, decode_memo, msg_play}
use viva_voce.Common.{Common}

-- `common` and the codec, whose own thread has stopped.
pub record Echo (R : Type 0) : Type 0 where
  pub common : Common R
  pub codec : AdpcmCodec

-- `encode(memo, memo)` and `decode(memo, memo)`.
abbrev pub both_ways : (ℕ → ℕ) → (ℕ → ℕ) → AdpcmCodec → Memo → Option (AdpcmCodec × Memo)
both_ways audio_u2s audio_s2u codec memo = elim (encode_memo audio_u2s codec memo) [
  | none ↦ none
  | some sent ↦ decode_memo audio_s2u sent.0 sent.1
]

module _ {R : Type 0} where
  -- Up to the loop of `run`: the flags, of which the second bit is `audioGenTone`, with its value 2.
  pub begin_echo : ℕ → Common R → Common R
  begin_echo flags c =
      let f = c.flags in
      record c {
        flags = record f {
          audio_gen_tone = pos (flags / 2 % 2 * 2);
          audio_go = true;
          codec_stop = true;
        };
      }

  -- After the loop.
  pub end_echo : Common R → Common R
  end_echo c =
      let f = c.flags in
      record c { flags = record f { audio_gen_tone = pos 0; audio_go = false; codec_stop = false } }

  pub play_back : Memo → Echo R → Echo R
  play_back memo e =
      let c = e.common in
      record e {
        common = record c { play_q = signal_data (record memo { code = msg_play }) c.play_q };
      }

  abbrev pub then_play : Echo R → Option (AdpcmCodec × Memo) → Option (Echo R)
  then_play e none = none
  then_play e (some out) = some (play_back out.1 (record e { codec = out.0 }))

  -- A round of the loop, with what `waitForData` returned, with the codec or without it.
  pub echo_round : (ℕ → ℕ) → (ℕ → ℕ) → Bool → Option Memo → Echo R → Option (Echo R)
  echo_round audio_u2s audio_s2u test_codec none e = some e
  echo_round audio_u2s audio_s2u test_codec (some memo) e =
      if test_codec
      then then_play e (both_ways audio_u2s audio_s2u e.codec memo)
      else some (play_back memo e)
