-- ===== src/Adpcm/Quantizer.antt =====
-- src/kodek.c: `quantize` is a division.
use viva_voce.Prelude.{◌⊎◌, inl, ℕ, zero, suc, ◌+◌, ◌*◌, ◌≤◌, ◌<◌, ◌≡◌, arith}
use viva_voce.Prelude.Int.{ℤ, pos}
use viva_voce.Adpcm.{quantize_from, quantize}

quantize_from-le : (n q step : ℕ) (smpl : ℤ) → n + q ≤ 7 → quantize_from n q step smpl ≤ 7
unfolding quantize_from
quantize_from-le zero q step smpl h = omega arith
quantize_from-le (suc n) q step smpl h = ground (arith, quantize_from-le n (suc q) step smpl)

pub quantize-le : (step : ℕ) (smpl : ℤ) → quantize step smpl ≤ 7
unfolding quantize
quantize-le step smpl = quantize_from-le 7 0 step smpl (omega arith)

quantize_from_bounds :
    (n q step m : ℕ)
    → n + q ≡ 7
    → q * step ≤ 4 * m
    → let r = quantize_from n q step (pos m) in
      (r ≤ 7) × (r * step ≤ 4 * m) × ((r ≡ 7) ⊎ (4 * m < suc r * step))
unfolding quantize_from
quantize_from_bounds zero q step m e h = (omega arith, seven, inl (omega arith))
  where
    seven : 7 * step ≤ 4 * m
    seven = let e' : q ≡ 7 = omega arith in rw e' at h
quantize_from_bounds (suc n) q step m e h = ground (arith, quantize_from_bounds n (suc q) step m)

-- For a magnitude that is no less than 0, `quantize` gives the number of whole quarter steps in
-- the magnitude, and 7 if there are more.
pub quantize_lem :
    (step m : ℕ)
    → let q = quantize step (pos m) in
      (q ≤ 7) × (q * step ≤ 4 * m) × ((q ≡ 7) ⊎ (4 * m < suc q * step))
unfolding quantize
quantize_lem step m = quantize_from_bounds 7 0 step m (omega arith) (omega arith)
