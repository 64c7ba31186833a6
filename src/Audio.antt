-- ===== src/Audio.antt =====
-- src/AudioRW.h and src/AudioRW.cpp, the threads of the audio device: a round of
-- `AudioReader::run` and of `AudioWriter::run`. What `select`, `read` and `write` return is an
-- argument, and so are the bytes of the tone and of the silence, which the u-law library makes.
pub mod Loops
pub mod Path
pub mod Echo
mod Tests
use viva_voce.Prelude.{
  ℕ, suc, ◌+◌, ◌-◌, Bool, true, false, ◌||◌, not, List, [], ◌∷◌, ◌++◌, Option, none, some, ltb, leb,
  ◌==◌, if◌then◌else◌, length, take, drop,
}
use viva_voce.Prelude.Int.{ℤ, pos, negsuc}
use viva_voce.Queue.{signal_data}
use viva_voce.Pool.{Memo, alloc_memo, release_memo}
use viva_voce.Adpcm.Worker.{msg_enc, msg_play, respond}
use viva_voce.Common.{Common}

-- A call that the device keeps waiting, one that accesses memory outside its buffer, and one that
-- comes to an end.
pub data Outcome {ℓ} (A : Type ℓ) : Type ℓ where
  hangs : Outcome A
  breaks : Outcome A
  yields : A → Outcome A

abbrev pub then_yield {ℓ κ} : {A : Type ℓ} {B : Type κ} → (A → B) → Outcome A → Outcome B
then_yield f hangs = hangs
then_yield f breaks = breaks
then_yield f (yields a) = yields (f a)

-- What a call of `read` returns: the bytes that it put down, or an error.
pub data Reading : Type 0 where
  got : List ℕ → Reading
  failed : Reading

abbrev pub write_at : ℕ → List ℕ → List ℕ → List ℕ
write_at start new old = take start old ++ new ++ drop (start + length new) old

-- `while (done < common->bytesPerCapture)`: `done` and the buffer. An error counts as -1, which
-- puts the next address before the buffer if nothing has been read.
pub read_loop : ℕ → List Reading → ℕ → List ℕ → Outcome (ℕ × List ℕ)
read_loop total [] done buffer = if ltb done total then hangs else yields (done, buffer)
read_loop total (got bytes ∷ rest) done buffer =
    let later = read_loop total rest (done + length bytes) (write_at done bytes buffer) in
    if ltb done total
    then (if leb (done + length bytes) (length buffer) then later else breaks)
    else yields (done, buffer)
read_loop total (failed ∷ rest) done buffer =
    let later = read_loop total rest (done - 1) buffer in
    if ltb done total then (if ltb 0 done then later else breaks) else yields (done, buffer)

-- `int` as a condition.
abbrev pub is_set : ℤ → Bool
is_set (pos n) = ltb 0 n
is_set (negsuc n) = true

-- What `select` and `FD_ISSET` say.
pub data Poll : Type 0 where
  timed_out select_failed unset : Poll
  readable : List Reading → Poll

module _ {R : Type 0} where
  -- The answer to the `w` command.
  unfoldable pub answer : Common R → Common R
  answer c = let f = c.flags in record c { flags = record f { audr_sig = false } }

  unfoldable pub hand_over : List ℕ → Memo → Common R → Outcome (ℕ × List ℕ) → Outcome (Common R)
  hand_over sinewave memo c hangs = hangs
  hand_over sinewave memo c breaks = breaks
  hand_over sinewave memo c (yields (done, bytes)) =
      let n = c.counters in
      let filled = record memo { data1 = done; bytes = bytes } in
      let tone = record memo { data1 = length sinewave; bytes = write_at 0 sinewave bytes } in
      let c' = record c { counters = record n { units_rec = suc n.units_rec } } in
      if is_set c.flags.audio_gen_tone
      then (if leb (length sinewave) (length bytes)
          then yields (record c' { codec_q = signal_data tone c.codec_q })
          else breaks)
      else yields (record c' { codec_q = signal_data filled c.codec_q })

  -- The branch `nFound > 0`.
  unfoldable pub capture : (ℕ → List ℕ) → List ℕ → List Reading → Common R → Outcome (Common R)
  unfolding hand_over
  capture malloc sinewave readings c =
      let (memo, rmg) = alloc_memo malloc c.rmg in
      hand_over sinewave (record memo { code = msg_enc }) (record c { rmg = rmg })
        (read_loop c.settings.bytes_per_capture readings 0 memo.bytes)

  -- A round of the loop that records.
  unfoldable pub record_round : (ℕ → List ℕ) → List ℕ → Poll → Common R → Outcome (Common R)
  unfolding capture answer
  record_round malloc sinewave timed_out c = yields c
  record_round malloc sinewave select_failed c = yields c
  record_round malloc sinewave unset c = yields (answer c)
  record_round malloc sinewave (readable readings) c =
      then_yield answer (capture malloc sinewave readings c)

-- The inner `while (1)`, for the bytes left to write, by what the calls of `write` return: a number
-- of bytes, or an error. The bytes written.
pub write_loop : List (Option ℕ) → List ℕ → Outcome (List ℕ)
write_loop [] left = hangs
write_loop (none ∷ rest) left = yields []
write_loop (some size ∷ rest) left =
    let later = write_loop rest (drop size left) in
    if size == 0
    then yields []
    else if ltb size (length left)
    then then_yield (λ out. take size left ++ out) later
    else yields left

-- While the sound is off, one `write` of the silence, whatever it returns.
pub write_silence : List (Option ℕ) → List ℕ → Outcome (List ℕ)
write_silence [] golden = hangs
write_silence (none ∷ rest) golden = yields []
write_silence (some size ∷ rest) golden = yields (take size golden)

module _ {R : Type 0} (golden : List ℕ) (results : List (Option ℕ)) where
  -- VIVOCE_MSG_PLAY.
  unfoldable pub play : Memo → Common R → Outcome (List ℕ)
  play memo c =
      if is_set c.flags.audio_mute
      then write_silence results golden
      else if leb memo.data1 (length memo.bytes)
      then write_loop results (take memo.data1 memo.bytes)
      else breaks

  -- A round of the loop that plays, with what `waitForData` returned: the bytes written.
  unfoldable pub play_round : Option Memo → Common R → Outcome (List ℕ × Common R)
  unfolding play
  play_round none c = yields ([], c)
  play_round (some memo) c =
      let n = c.counters in
      let c1 = record c { rmg = release_memo (some memo) c.rmg } in
      if memo.code == msg_play
      then then_yield
          (λ out. (out, record c1 { counters = record n { units_pld = suc n.units_pld } }))
          (play memo c)
      else yields ([], c1)

-- The round while there is no call and no test: the memo is dropped.
unfoldable pub drop_round : {R : Type 0} → Option Memo → Common R → Common R
drop_round memo c = record c { rmg = release_memo memo c.rmg }
