-- ===== src/Audio/Loops.antt =====
-- src/AudioRW.cpp: what the loops over `read` and `write` do.
use mathlib.Core.List.{append_assoc, append-nil}
use viva_voce.Prelude.{
  ℕ, suc, ◌+◌, ◌≤◌, ◌<◌, ◌≡◌, refl, sym, ap, List, [], ◌∷◌, ◌++◌, some, arith, ltb, length,
  length-append, drop, map, take-append, drop-append, drop-drop, ltb-false, leb-true, Bool-cases,
  inl, inr, length-drop, nil_of_length, ◌-◌, false, take-drop, ◌==◌,
}
use viva_voce.Audio.{Reading, got, failed, yields, write_at, read_loop, write_loop}

abbrev pub joined : List (List ℕ) → List ℕ
joined [] = []
joined (l ∷ ls) = l ++ joined ls

write_at-append :
    (before new old : List ℕ)
    → write_at (length before) new (before ++ old) ≡ (before ++ new) ++ drop (length new) old
write_at-append before new old =
    rw (take-append before old, drop-append (length new) before old) refl

read_loop-done :
    (readings : List Reading) (total done : ℕ) (buffer : List ℕ)
    → total ≤ done
    → read_loop total readings done buffer ≡ yields (done, buffer)
unfolding read_loop
read_loop-done [] total done buffer h = rw (ltb-false done total h) refl
read_loop-done (got bytes ∷ rest) total done buffer h = rw (ltb-false done total h) refl
read_loop-done (failed ∷ rest) total done buffer h = rw (ltb-false done total h) refl

-- The end of the loop, with no byte left to come.
all_read :
    (l : List ℕ) (readings : List Reading) (total : ℕ) (before old : List ℕ)
    → length before + length l ≡ total
    → total ≤ length before
    → read_loop total readings (length before) (before ++ old)
      ≡ yields (total, before ++ l ++ drop (length l) old)
all_read l readings total before old h k =
    rw
      (
        read_loop-done readings total (length before) (before ++ old) k,
        nil_of_length l (omega arith),
        append-nil before,
        same,
      )
      refl
  where
    same : length before ≡ total
    same = omega arith

-- The loop reads on until the chunks, together, are as many bytes as are asked for: they stand at
-- the start of the buffer then.
pub read_loop-joined :
    (chunks : List (List ℕ)) (total : ℕ) (before old : List ℕ)
    → length before + length (joined chunks) ≡ total
    → total ≤ length before + length old
    → read_loop total (map got chunks) (length before) (before ++ old)
      ≡ yields (total, before ++ joined chunks ++ drop (length (joined chunks)) old)
unfolding read_loop
read_loop-joined [] total before old h k = all_read [] [] total before old h (omega arith)
read_loop-joined (l ∷ ls) total before old h k = elim (Bool-cases (ltb (length before) total)) [
  | inl more ↦
      rw
        (
          more,
          leb-true (length before + length l) (length (before ++ old))
              (omega (arith, length-append before old, length-append l (joined ls))),
          write_at-append before l old,
          sym (length-append before l),
          read_loop-joined ls total (before ++ l) (drop (length l) old)
              (omega (arith, length-append before l, length-append l (joined ls)))
              (omega (
                arith,
                length-append before l,
                length-drop (length l) old,
                length-append l (joined ls),
              )),
          drop-drop (length (joined ls)) (length l) old,
          sym (length-append l (joined ls)),
          append_assoc before l (joined ls),
        )
        refl
  | inr enough ↦ all_read (l ++ joined ls) (map got (l ∷ ls)) total before old h (ground arith)
]

suc_not_zero : (n : ℕ) → (suc n == 0) ≡ false
suc_not_zero n = ground arith

-- Whatever positive sizes `write` returns, as many of them as there are bytes are enough for all
-- the bytes, in their order.
pub write_loop-all :
    (sizes left : List ℕ)
    → 0 < length left
    → length left ≤ length sizes
    → write_loop (map (λ n. some (suc n)) sizes) left ≡ yields left
unfolding write_loop
write_loop-all [] left h k = absurd (omega arith)
write_loop-all (n ∷ sizes) left h k = elim (Bool-cases (ltb (suc n) (length left))) [
  | inl more ↦
      let fewer : length (drop (suc n) left) ≡ length left - suc n = length-drop (suc n) left in
      rw
        (
          suc_not_zero n,
          more,
          write_loop-all sizes (drop (suc n) left) (ground (arith, more, fewer))
              (omega (arith, fewer)),
        )
        (ap yields (take-drop (suc n) left))
  | inr last ↦ rw (suc_not_zero n, last) refl
]
