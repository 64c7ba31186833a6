-- ===== src/Adpcm/Worker/Tests.antt =====
-- src/AdpcmCodec.cpp: a memo of five bytes, with tables that widen a byte and narrow a sample.
use viva_voce.Prelude.{ℕ, ◌+◌, ◌*◌, ◌/◌, ◌≡◌, refl, [], ◌∷◌, none, some, arith, map, replicate}
use viva_voce.Prelude.Int.{pos}
use viva_voce.Pool.{Memo, release_memo}
use viva_voce.Queue.{new_queue}
use viva_voce.Adpcm.{to_short}
use viva_voce.Adpcm.Codec.Lockstep.{predictions}
use viva_voce.Adpcm.Worker.{
  AdpcmCodec, adpcm_set, unsigned_short, samples_of, bytes_of, decode_memo, Worker, serve_memo,
}
use viva_voce.Adpcm.Worker.Passing.{passed}
use viva_voce.Adpcm.Worker.Custody.{held, serve_memo-held}
use viva_voce.Adpcm.Worker.Heard.{passed-predictions}

abbrev widen : ℕ → ℕ
widen b = b * 256

abbrev narrow : ℕ → ℕ
narrow n = n / 256

abbrev idle : AdpcmCodec
idle = record {
  pcm_samples = replicate 12 7;
  state_enc = record { previous = pos 9; index = 3 };
  state_dec = record { previous = pos 0; index = 0 };
}

abbrev heard : Memo
heard = record {
  id = 1;
  code = 20;
  data1 = 5;
  data2 = 0;
  bytes = 3 ∷ 4 ∷ 200 ∷ 5 ∷ 6 ∷ 0 ∷ 0 ∷ 0 ∷ [];
  size = 8;
}

heard_samples : samples_of widen heard ≡ 768 ∷ 1024 ∷ 51200 ∷ 1280 ∷ 1536 ∷ []
unfolding samples_of
heard_samples = refl

passed-predictions_example :
    passed widen narrow idle idle heard
    ≡ some (
      5,
      bytes_of narrow (
          768
          ∷ map unsigned_short (
              predictions
                (adpcm_set (pos 768) 0)
                (map (λ n. to_short (pos n)) (1024 ∷ 51200 ∷ 1280 ∷ 1536 ∷ [])))),
    )
passed-predictions_example =
    passed-predictions widen narrow idle idle heard 768 (1024 ∷ 51200 ∷ 1280 ∷ 1536 ∷ [])
      heard_samples refl (omega arith) (omega arith) (omega arith) (omega arith)

-- A step index outside the table is a fault as soon as there is a byte to decode.
wild_index : decode_memo narrow idle heard ≡ none
unfolding decode_memo
wild_index = refl

abbrev worker : Worker
worker = record {
  codec = idle;
  send_q = new_queue;
  play_q = new_queue;
  rmg = record { memo_q = new_queue; total = 1; size = 8; init_count = 1 };
  units_enc = 0;
  units_dec = 0;
}

abbrev answered : Worker
answered = record worker { rmg = release_memo (some (record heard { code = 99 })) worker.rmg }

answered_lem : serve_memo widen narrow (record heard { code = 99 }) worker ≡ some answered
unfolding serve_memo
answered_lem = refl

serve_memo-held_example : held answered ≡ held worker + 1
serve_memo-held_example =
    serve_memo-held worker answered widen narrow (record heard { code = 99 }) answered_lem
