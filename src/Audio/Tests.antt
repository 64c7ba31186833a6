-- ===== src/Audio/Tests.antt =====
-- src/AudioRW.cpp: a capture in two chunks, with tables that widen a byte and narrow a sample.
use viva_voce.Prelude.{
  ℕ, suc, ◌*◌, ◌/◌, ◌≡◌, ◌≤◌, length, refl, false, List, [], ◌∷◌, ◌++◌, some, none, arith, map,
  replicate,
}
use viva_voce.Prelude.Int.{pos}
use viva_voce.Queue.{signal_data, new_queue, de_q, pop_front}
use viva_voce.Pool.{Memo, alloc_memo, release_memo, new_memo, resource_manager}
use viva_voce.Adpcm.Worker.{AdpcmCodec, msg_play}
use viva_voce.Adpcm.Worker.Passing.{passed}
use viva_voce.Common.{Common, new_common, first_settings}
use viva_voce.Audio.{
  is_set, got, failed, yields, breaks, hangs, read_loop, write_loop, capture, play_round,
}
use viva_voce.Audio.Path.{captured, heard_of, capture-heard}

abbrev widen : ℕ → ℕ
widen b = b * 256

abbrev narrow : ℕ → ℕ
narrow n = n / 256

abbrev zeros : ℕ → List ℕ
zeros n = replicate n 0

abbrev fresh : Common ℕ
fresh = new_common 0

abbrev idle : AdpcmCodec
idle = record {
  pcm_samples = replicate 171 0;
  state_enc = record { previous = pos 9; index = 3 };
  state_dec = record { previous = pos 0; index = 0 };
}

abbrev chunks : List (List ℕ)
chunks = replicate 100 7 ∷ replicate 61 9 ∷ []

abbrev rest : List ℕ
rest = replicate 99 1792 ++ replicate 61 2304

room_lem : 161 ≤ length (alloc_memo zeros fresh.rmg).0.bytes
unfolding new_common first_settings alloc_memo new_memo resource_manager new_queue de_q pop_front
room_lem = omega arith

settings_lem : fresh.settings ≡ first_settings
unfolding new_common first_settings
settings_lem = refl

tone_lem : is_set fresh.flags.audio_gen_tone ≡ false
unfolding new_common
tone_lem = refl

-- The memo of a speaker, with other bytes behind those it plays.
abbrev played : Memo
played = record {
  id = 0;
  code = msg_play;
  data1 = length (heard_of narrow 1792 rest);
  data2 = 0;
  bytes = heard_of narrow 1792 rest ++ 5 ∷ 6 ∷ [];
  size = 163;
}

mute_lem : is_set fresh.flags.audio_mute ≡ false
unfolding new_common
mute_lem = refl

capture-heard_example :
    let n = fresh.counters in
    let heard = heard_of narrow 1792 rest in
    (capture zeros [] (map got chunks) fresh
      ≡ yields (record fresh {
        rmg = (alloc_memo zeros fresh.rmg).1;
        counters = record n { units_rec = suc n.units_rec };
        codec_q = signal_data (captured zeros [] fresh chunks) fresh.codec_q;
      }))
    × (passed widen narrow idle idle (captured zeros [] fresh chunks) ≡ some (161, heard))
    × ((length heard ≡ 161)
        × (play_round [] (map (λ s. some (suc s)) (replicate 200 3)) (some played) fresh
            ≡ yields (
              heard,
              record fresh {
                rmg = release_memo (some played) fresh.rmg;
                counters = record n { units_pld = suc n.units_pld };
              },
            )))
capture-heard_example =
    capture-heard zeros [] fresh widen narrow idle idle chunks (replicate 200 3) 1792 rest []
      (5 ∷ 6 ∷ []) played fresh settings_lem tone_lem mute_lem refl refl room_lem (omega arith)
      (omega arith) (omega arith)

-- A failed `read` counts as -1: after a byte it takes that byte back, and before any it is a fault.
failed_reads :
    (read_loop 3 (got (5 ∷ []) ∷ failed ∷ got (6 ∷ 7 ∷ 8 ∷ []) ∷ []) 0 (zeros 4)
      ≡ yields (3, 6 ∷ 7 ∷ 8 ∷ 0 ∷ []))
    × (read_loop 3 (failed ∷ []) 0 (zeros 4) ≡ breaks)
    × (read_loop 3 (got (5 ∷ []) ∷ []) 0 (zeros 4) ≡ hangs)
unfolding read_loop
failed_reads = (refl, refl, refl)

-- Short writes, an error, and a write that is kept waiting.
short_writes :
    (write_loop (some 2 ∷ some 1 ∷ []) (4 ∷ 5 ∷ 6 ∷ []) ≡ yields (4 ∷ 5 ∷ 6 ∷ []))
    × (write_loop (some 2 ∷ none ∷ []) (4 ∷ 5 ∷ 6 ∷ []) ≡ yields (4 ∷ 5 ∷ []))
    × (write_loop (some 2 ∷ []) (4 ∷ 5 ∷ 6 ∷ []) ≡ hangs)
unfolding write_loop
short_writes = (refl, refl, refl)
