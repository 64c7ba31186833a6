-- ===== src/Adpcm.antt =====
-- src/kodek.h and src/kodek.c: the ADPCM codec. The code computes with `float`s that are whole
-- multiples of 0.25 below 2 ^ 18, which 24 bits hold exactly; a number of quarters stands for each.
pub mod Quantizer
pub mod Rounding
pub mod Codec
pub mod Worker
pub mod Sizes
mod Tests
use viva_voce.Prelude.{
  ℕ, zero, suc, ◌+◌, ◌-◌, ◌*◌, ◌/◌, ◌%◌, ◌^◌, List, [], ◌∷◌, ◌++◌, Bool, true, false, ◌&&◌, Option,
  none, some, ltb, leb, ◌==◌, if◌then◌else◌, get_or,
}
use viva_voce.Prelude.Int.{ℤ, pos, negsuc, pos_part, neg_part, sub_ℕ, ◌+ℤ◌, ◌-ℤ◌, ltb_ℤ}

-- `indexadjust`.
abbrev pub index_adjust : List ℤ
index_adjust = negsuc 0 ∷ negsuc 0 ∷ negsuc 0 ∷ negsuc 0 ∷ pos 2 ∷ pos 4 ∷ pos 6 ∷ pos 8 ∷ []

-- `stepsize`.
abbrev pub step_sizes : List ℕ
step_sizes =
    7 ∷ 8 ∷ 9 ∷ 10 ∷ 11 ∷ 12 ∷ 13 ∷ 14 ∷ 16 ∷ 17 ∷ 19 ∷ 21 ∷ 23 ∷ 25 ∷ 28 ∷ 31 ∷ 34 ∷ 37 ∷ 41 ∷ 45
    ∷ 50 ∷ 55 ∷ 60 ∷ 66 ∷ 73 ∷ 80 ∷ 88 ∷ 97 ∷ 107 ∷ 118 ∷ 130 ∷ 143 ∷ 157 ∷ 173 ∷ 190 ∷ 209 ∷ 230
    ∷ 253 ∷ 279 ∷ 307 ∷ 337 ∷ 371 ∷ 408 ∷ 449 ∷ 494 ∷ 544 ∷ 598 ∷ 658 ∷ 724 ∷ 796 ∷ 876 ∷ 963 ∷ 1060
    ∷ 1166 ∷ 1282 ∷ 1411 ∷ 1552 ∷ 1707 ∷ 1878 ∷ 2066 ∷ 2272 ∷ 2499 ∷ 2749 ∷ 3024 ∷ 3327 ∷ 3660
    ∷ 4026 ∷ 4428 ∷ 4871 ∷ 5358 ∷ 5894 ∷ 6484 ∷ 7132 ∷ 7845 ∷ 8630 ∷ 9493 ∷ 10442 ∷ 11487 ∷ 12635
    ∷ 13899 ∷ 15289 ∷ 16818 ∷ 18500 ∷ 20350 ∷ 22385 ∷ 24623 ∷ 27086 ∷ 29794 ∷ 32767 ∷ []

-- The fields that outlive a sample: `previous`, a `short`, and `index`.
pub record AdpcmState : Type 0 where
  pub previous : ℤ
  pub index : ℕ

-- A conversion to `short`: the low 16 bits, read with their sign.
pub to_short : ℤ → ℤ
to_short (pos n) =
    let low = n % 2 ^ 16 in if ltb low (2 ^ 15) then pos low else negsuc (2 ^ 16 - low - 1)
to_short (negsuc n) =
    let low = n % 2 ^ 16 in if ltb low (2 ^ 15) then negsuc low else pos (2 ^ 16 - low - 1)

-- Quarters to a whole number, rounded toward zero, as a `float` is converted.
pub truncate : ℤ → ℤ
truncate (pos n) = pos (n / 4)
truncate (negsuc n) = sub_ℕ 0 (suc n / 4)

-- The loop of `quantize` from `q` on, by the rounds left: the first `q` below 7 with
-- `0.25 * q * step <= smpl < 0.25 * (q + 1) * step`, else 7. `mul` is then `0.25 * q`.
pub quantize_from : ℕ → ℕ → ℕ → ℤ → ℕ
quantize_from zero q step smpl = 7
quantize_from (suc n) q step smpl =
    let rest = quantize_from n (suc q) step smpl in
    if leb (q * step) (4 * pos_part smpl)
      && (ltb (4 * pos_part smpl) (suc q * step) && leb (neg_part smpl) 0)
    then q
    else rest

pub quantize : ℕ → ℤ → ℕ
unfolding quantize_from
quantize step smpl = quantize_from 7 0 step smpl

-- `sign * step * mul`, in quarters.
abbrev pub change : Bool → ℕ → ℕ → ℤ
change negative step q = if negative then sub_ℕ 0 (q * step) else pos (q * step)

-- `(short)roundOff(previous + x)`. The macro does not bracket its parameter, so what it tests is
-- `previous + x - (int)previous + x >= 0.5`, and what it yields is `(int)previous + x`, with 1 added
-- if the test succeeds.
pub predict : ℤ → ℤ → ℤ
predict previous x =
    let whole = 4 * pos_part previous in
    let below = 4 * neg_part previous in
    let bias = if ltb_ℤ (x +ℤ x) (pos 2) then 0 else 4 in
    to_short (truncate (sub_ℕ (whole + pos_part x + bias) (below + neg_part x)))

-- `index += indexadjust[q]`, clamped to 0 .. 88.
pub adjust_index : ℕ → ℕ → ℕ
adjust_index index q =
    let a = get_or index_adjust q (pos 0) in
    if ltb (index + pos_part a) (neg_part a)
    then 0
    else if ltb 88 (index + pos_part a - neg_part a)
    then 88
    else index + pos_part a - neg_part a

-- What encoder and decoder do to the state on a code `q` with its sign.
pub advance : AdpcmState → Bool → ℕ → AdpcmState
advance s negative q =
    let step = get_or step_sizes s.index 0 in
    record {
      previous = predict s.previous (change negative step q);
      index = adjust_index s.index q;
    }
