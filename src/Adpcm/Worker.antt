-- ===== src/Adpcm/Worker.antt =====
-- src/AdpcmCodec.cpp: the codec thread, `adpcm_set` of src/kodek.c, and the payload of src/RTP.h. The
-- u-law tables, `audio_u2s` and `audio_s2u`, are parameters. A memo is used again for the result,
-- in its own buffer. Bytes and `unsigned short`s are bit patterns, the low byte of a `short` first.
-- An access outside a buffer or outside the table of step sizes is a fault, `none`.
pub mod Passing
pub mod Heard
pub mod Custody
mod Tests
use viva_voce.Prelude.{
  ℕ, suc, ◌+◌, ◌-◌, ◌*◌, ◌/◌, ◌%◌, ◌^◌, List, [], ◌∷◌, ◌++◌, Option, none, some, ltb, leb, ◌==◌,
  ◌&&◌, ◌||◌, if◌then◌else◌, get_or, length, take, drop, map,
}
use viva_voce.Prelude.Int.{ℤ, pos, negsuc}
use viva_voce.Queue.{SyncQueue, signal_data}
use viva_voce.Pool.{Memo, ResourceManager, release_memo}
use viva_voce.Adpcm.{AdpcmState, to_short}
use viva_voce.Adpcm.Codec.{encode, decode}

-- The codes of the memos.
abbrev pub msg_enc : ℕ
msg_enc = 20

abbrev pub msg_dec : ℕ
msg_dec = 21

abbrev pub msg_play : ℕ
msg_play = 22

abbrev pub msg_send : ℕ
msg_send = 24

abbrev pub respond : ℕ
respond = 99

-- `pcmSamples`, and the two states that `common` points to.
pub record AdpcmCodec : Type 0 where
  pub pcm_samples : List ℕ
  pub state_enc : AdpcmState
  pub state_dec : AdpcmState

-- `first` is an `int` that becomes a `short`. `isNew` is never read.
pub adpcm_set : ℤ → ℕ → AdpcmState
adpcm_set first index = record { previous = to_short first; index = index }

-- A `short` as an `unsigned short`.
abbrev pub unsigned_short : ℤ → ℕ
unsigned_short (pos n) = n % 2 ^ 16
unsigned_short (negsuc n) = 2 ^ 16 - 1 - n % 2 ^ 16

-- A buffer whose first places are written.
abbrev pub overwrite : List ℕ → List ℕ → List ℕ
overwrite new old = new ++ drop (length new) old

-- `rtpAudioPayload`.
abbrev pub payload : ℕ → ℕ → ℕ → List ℕ → List ℕ
payload first stepsize_index reserved data_ =
    (first % 256) ∷ (first / 256 % 256) ∷ stepsize_index ∷ reserved ∷ data_

-- The queues that the thread passes memos to, its pool and its counters.
pub record Worker : Type 0 where
  pub codec : AdpcmCodec
  pub send_q : SyncQueue Memo
  pub play_q : SyncQueue Memo
  pub rmg : ResourceManager
  pub units_enc : ℕ
  pub units_dec : ℕ

pub after_encode : Worker → Option (AdpcmCodec × Memo) → Option Worker
after_encode w none = none
after_encode w (some (c, memo)) = some (record w {
  codec = c;
  send_q = signal_data (record memo { code = msg_send }) w.send_q;
  units_enc = suc w.units_enc;
})

pub after_decode : Worker → Option (AdpcmCodec × Memo) → Option Worker
after_decode w none = none
after_decode w (some (c, memo)) = some (record w {
  codec = c;
  play_q = signal_data (record memo { code = msg_play }) w.play_q;
  units_dec = suc w.units_dec;
})

-- `encode` from the payload's header on: the first sample goes as it is, and the rest as codes.
pub encode_samples : AdpcmCodec → Memo → ℕ → List ℤ → Option (AdpcmCodec × Memo)
encode_samples c memo first rest =
    let e = encode (adpcm_set (pos first) 0) rest in
    if leb (4 + length e.bytes) (length memo.bytes)
    then some (
      record c { state_enc = e.state },
      record memo { data1 = e.count + 4; bytes = overwrite (payload first 0 0 e.bytes) memo.bytes },
    )
    else none

module _ (audio_u2s : ℕ → ℕ) where
  -- The loop that fills `pcmSamples`.
  unfoldable pub samples_of : Memo → List ℕ
  samples_of memo = map (λ b. audio_u2s b % 2 ^ 16) (take memo.data1 memo.bytes)

  pub encode_memo : AdpcmCodec → Memo → Option (AdpcmCodec × Memo)
  encode_memo c memo =
      let pcm = overwrite (samples_of memo) c.pcm_samples in
      if leb memo.data1 (length memo.bytes) && leb memo.data1 (length c.pcm_samples)
      then encode_samples (record c { pcm_samples = pcm }) memo (get_or pcm 0 0)
          (map (λ n. to_short (pos n)) (take (memo.data1 - 1) (drop 1 pcm)))
      else none

module _ (audio_s2u : ℕ → ℕ) where
  -- The loop that writes the samples back.
  pub bytes_of : List ℕ → List ℕ
  bytes_of samples = map (λ n. audio_s2u n % 256) samples

  -- What is done with the samples. A memo shorter than the header decodes a negative number of
  -- bytes: none, and `data1` ends below zero, as a bit pattern.
  pub decode_samples : AdpcmCodec → Memo → ℕ → List ℕ → Option (AdpcmCodec × Memo)
  decode_samples c memo count samples =
      if leb (count + 1) (length c.pcm_samples) && leb (count + 1) (length memo.bytes)
      then (let c' = record c { pcm_samples = overwrite samples c.pcm_samples } in
          if ltb memo.data1 4
          then some (c', record memo { data1 = (2 ^ 32 + memo.data1 * 2 - 7) % 2 ^ 32 })
          else some (
            c',
            record memo { data1 = count + 1; bytes = overwrite (bytes_of samples) memo.bytes },
          ))
      else none

  -- The step index, a `char` of the packet, is used only if there is a byte to decode.
  pub decode_memo : AdpcmCodec → Memo → Option (AdpcmCodec × Memo)
  decode_memo c memo =
      let first = get_or memo.bytes 0 0 + 256 * get_or memo.bytes 1 0 in
      let index = get_or memo.bytes 2 0 in
      let d =
        decode (adpcm_set (to_short (pos first)) index)
          (take (memo.data1 - 4) (drop 4 memo.bytes)) in
      if leb memo.data1 (length memo.bytes)
        && (leb 4 (length memo.bytes) && (leb memo.data1 4 || leb index 88))
      then decode_samples (record c { state_dec = d.state }) memo d.count
          (first ∷ map unsigned_short d.samples)
      else none

module _ (audio_u2s audio_s2u : ℕ → ℕ) where
  -- The `switch` of a round of `run`, for a memo that `waitForData` returned.
  pub serve_memo : Memo → Worker → Option Worker
  serve_memo memo w =
      if memo.code == msg_enc
      then after_encode w (encode_memo audio_u2s w.codec memo)
      else if memo.code == msg_dec
      then after_decode w (decode_memo audio_s2u w.codec memo)
      else if memo.code == respond
      then some (record w { rmg = release_memo (some memo) w.rmg })
      else some w
