-- ===== src/Adpcm/Sizes.antt =====
-- src/kodek.c: `adpcm_init`, `adpcm_reset` and the sizes of the buffers.
use viva_voce.Prelude.{
  ℕ, ◌+◌, ◌-◌, ◌*◌, ◌/◌, ◌%◌, ◌≡◌, Bool, false, List, arith, if◌then◌else◌, length, ap,
}
use viva_voce.Prelude.Int.{ℤ, pos, sub_ℕ}
use viva_voce.Adpcm.{AdpcmState}
use viva_voce.Adpcm.Codec.{encode, decode}
use viva_voce.Adpcm.Codec.Lockstep.{decode-encode, length-encode}

-- Of the new state, `nwBound` and `isNew` are never read, and the rest is set before it is read.
pub adpcm_init : AdpcmState
adpcm_init = record { previous = pos 0; index = 0 }

pub adpcm_reset : AdpcmState → AdpcmState
adpcm_reset s = record s { previous = pos 0; index = 0 }

pub encoded_buffer_size : ℕ → Bool → ℕ
encoded_buffer_size n_samples is_new = if is_new then (n_samples - 1) / 2 + 2 else n_samples / 2

-- Fewer than two bytes give a negative size.
pub decoded_buffer_size : ℕ → Bool → ℤ
decoded_buffer_size n_bytes is_new = if is_new then sub_ℕ (n_bytes * 2 + 1) 4 else pos (n_bytes * 2)

-- For an even number of samples and no header, the sizes are what the encoder writes and what the
-- decoder writes.
pub buffer_sizes_lem :
    (s : AdpcmState) (samples : List ℤ)
    → length samples % 2 ≡ 0
    → let e = encode s samples in
      (length e.bytes ≡ encoded_buffer_size (length samples) false)
      × (pos (decode s e.bytes).count ≡ decoded_buffer_size (length e.bytes) false)
unfolding encoded_buffer_size decoded_buffer_size
buffer_sizes_lem s samples h =
    let step = decode-encode s samples h in
    let bytes = length-encode s samples h in
    (omega (arith, step.2, bytes), ap pos (omega (arith, step.2, step.3, bytes)))
