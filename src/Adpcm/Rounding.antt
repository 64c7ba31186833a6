-- ===== src/Adpcm/Rounding.antt =====
-- src/kodek.h and src/kodek.c: `roundOff` as the predictor uses it, and the range of the state.
use viva_voce.Prelude.{ℕ, ◌+◌, ◌/◌, ◌^◌, ◌≤◌, ◌<◌, ◌≡◌, arith, Bool, get_or}
use viva_voce.Prelude.Int.{ℤ, pos, negsuc, ◌+ℤ◌, ◌≤ℤ◌}
use viva_voce.Adpcm.{
  AdpcmState, to_short, truncate, change, predict, adjust_index, advance, step_sizes,
}

-- The index lies in the table of step sizes, and `previous` is a `short`.
pub record InRange (s : AdpcmState) : Type 0 where
  pub indexed : s.index ≤ 88
  pub low : negsuc 32767 ≤ℤ s.previous
  pub high : s.previous ≤ℤ pos 32767

to_short-low : (x : ℤ) → negsuc 32767 ≤ℤ to_short x
unfolding to_short
to_short-low (pos n) = ground arith
to_short-low (negsuc n) = ground arith

to_short-high : (x : ℤ) → to_short x ≤ℤ pos 32767
unfolding to_short
to_short-high (pos n) = ground arith
to_short-high (negsuc n) = ground arith

adjust_index-le : (index q : ℕ) → adjust_index index q ≤ 88
unfolding adjust_index
adjust_index-le index q = ground arith

predict_range : (p x : ℤ) → (negsuc 32767 ≤ℤ predict p x) × (predict p x ≤ℤ pos 32767)
unfolding predict
predict_range p x = omega (arith, to_short-low, to_short-high)

-- A code with its sign leaves the index in the table and the prediction within 16 bits, whatever the
-- state was.
pub advance-InRange : (s : AdpcmState) (negative : Bool) (q : ℕ) → InRange (advance s negative q)
unfolding advance
advance-InRange s negative q =
    let r = predict_range s.previous (change negative (get_or step_sizes s.index 0) q) in
    record { indexed = adjust_index-le s.index q; low = r.0; high = r.1 }

-- A prediction of at least 0 that goes up by `x` quarters, above 0, and stays below 2 ^ 15, goes
-- up by the whole part of `x / 4` and one more, where rounding to the nearest gives `(x + 2) / 4`.
pub predict_up :
    (p x : ℕ) → 0 < x → p + x / 4 + 1 < 2 ^ 15 → predict (pos p) (pos x) ≡ pos (p + x / 4 + 1)
unfolding predict to_short truncate ◌+ℤ◌
predict_up p x h k = ground arith
