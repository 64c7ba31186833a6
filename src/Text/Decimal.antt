-- ===== src/Text/Decimal.antt =====
-- Numbers as texts: `atoi`, `sprintf`'s `%d`, and `%.0f` of a number without a fraction. An `int` is
-- its value modulo 2^32.
use viva_voce.Prelude.{
  ℕ, zero, suc, ◌+◌, ◌-◌, ◌*◌, ◌/◌, ◌%◌, ◌^◌, ◌≤◌, ◌<◌, ◌≡◌, refl, sym, ap, ◌∙◌, [], ◌∷◌, ◌++◌,
  Bool, true, false, ◌&&◌, ◌||◌, not, ltb, leb, ◌==◌, if◌then◌else◌, arith,
}
use native.Mathlib.Nat.{mod-eq_of_lt}
use mathlib.Core.List.{append-nil}
use viva_voce.Text.{Text, codes, member}
use viva_voce.Text.Cuts.{IsPlain, specials, free}

abbrev pub is_digit : ℕ → Bool
is_digit c = leb b'0' c && leb c b'9'

digits_from : ℕ → Text → ℕ
digits_from n [] = n
digits_from n (c ∷ s) =
    let rest = digits_from (n * 10 + (c - b'0')) s in if is_digit c then rest else n

-- A sign and digits, in an integer of some width.
signed : ℕ → Text → ℕ
unfolding digits_from
signed w [] = 0
signed w (c ∷ s) =
    if c == b'-'
    then (2 ^ w - digits_from 0 s % 2 ^ w) % 2 ^ w
    else digits_from 0 (if c == b'+' then s else c ∷ s) % 2 ^ w

abbrev is_space : ℕ → Bool
is_space c = c == 32 || leb 9 c && leb c 13

-- White space, a sign, digits.
read_number : ℕ → Text → ℕ
unfolding signed
read_number w [] = 0
read_number w (c ∷ s) = let rest = read_number w s in if is_space c then rest else signed w (c ∷ s)

unfoldable pub atoi : Text → ℕ
unfolding read_number
atoi s = read_number 32 s

-- `atol`: a `long` is its value modulo 2^64.
unfoldable pub atol : Text → ℕ
unfolding read_number
atol s = read_number 64 s

-- The digits of a number before a text.
digits : ℕ → ℕ → Text → Text
digits zero n s = (b'0' + n % 10) ∷ s
digits (suc fuel) n s =
    let rest = digits fuel (n / 10) ((b'0' + n % 10) ∷ s) in
    if ltb n 10 then (b'0' + n) ∷ s else rest

-- `%.0f`.
unfoldable pub decimal : ℕ → Text
unfolding digits
decimal n = digits n n []

-- `%ld`.
unfoldable pub show_long : ℕ → Text
show_long n = if ltb n (2 ^ 63) then decimal n else b'-' ∷ decimal (2 ^ 64 - n)

-- `%d`.
unfoldable pub show_int : ℕ → Text
show_int n = if ltb n (2 ^ 31) then decimal n else b'-' ∷ decimal (2 ^ 32 - n)

digits_from-digits :
    (fuel n : ℕ) (s : Text) → n ≤ fuel → digits_from 0 (digits fuel n s) ≡ digits_from n s
unfolding digits_from digits
digits_from-digits zero n s h = ground arith
digits_from-digits (suc fuel) n s h =
    let next = digits_from-digits fuel (n / 10) ((b'0' + n % 10) ∷ s) (ground arith) in ground arith

-- A text that goes on with no digit.
abbrev pub ends_number : Text → Bool
ends_number [] = true
ends_number (c ∷ s) = not (is_digit c)

digits_from-end : (n : ℕ) (s : Text) → ends_number s ≡ true → digits_from n s ≡ n
unfolding digits_from
digits_from-end n [] h = refl
digits_from-end n (c ∷ s) h = ground arith

digits-append : (fuel n : ℕ) (s t : Text) → digits fuel n s ++ t ≡ digits fuel n (s ++ t)
unfolding digits
digits-append zero n s t = refl
digits-append (suc fuel) n s t =
    let next = digits-append fuel (n / 10) ((b'0' + n % 10) ∷ s) t in ground arith

read_number-digits :
    (w fuel n : ℕ) (s : Text)
    → read_number w (digits fuel n s) ≡ digits_from 0 (digits fuel n s) % 2 ^ w
unfolding read_number digits signed digits_from
read_number-digits w zero n s = ground arith
read_number-digits w (suc fuel) n s =
    let next = read_number-digits w fuel (n / 10) ((b'0' + n % 10) ∷ s) in ground arith

-- A printed number is read back, with text after it that begins with no digit.
read_number-decimal :
    (w n : ℕ) (s : Text) → n < 2 ^ w → ends_number s ≡ true → read_number w (decimal n ++ s) ≡ n
unfolding decimal
read_number-decimal w n s h e =
    rw
      (
        digits-append n n [] s,
        read_number-digits w n n s,
        digits_from-digits n n s (omega arith),
        digits_from-end n s e,
      )
      (mod-eq_of_lt h)

pub atoi-decimal_all : (n : ℕ) → n < 2 ^ 31 → atoi (decimal n) ≡ n
unfolding atoi
atoi-decimal_all n h =
    ap (read_number 32) (sym (append-nil (decimal n)))
    ∙ read_number-decimal 32 n [] (omega arith) refl

pub atol-decimal : (n : ℕ) → n < 2 ^ 64 → atol (codes " " ++ decimal n) ≡ n
unfolding atol
atol-decimal n h =
    ap (read_number 64) (sym (append-nil (decimal n))) ∙ read_number-decimal 64 n [] h refl

-- White space before the number is passed over.
pub atoi-space : (s : Text) → atoi (32 ∷ s) ≡ atoi s
unfolding atoi
atoi-space s = refl

digit-member : (c : ℕ) → is_digit c ≡ true → member c specials ≡ false
digit-member c h = ground arith

digits-IsPlain : (fuel n : ℕ) (s : Text) → free specials s ≡ true → IsPlain (digits fuel n s)
unfolding digits
digits-IsPlain zero n s h = ground arith
digits-IsPlain (suc fuel) n s h =
    let next = digits-IsPlain fuel (n / 10) ((b'0' + n % 10) ∷ s) (ground arith) in ground arith

pub decimal-IsPlain : (n : ℕ) → IsPlain (decimal n)
unfolding decimal
decimal-IsPlain n = digits-IsPlain n n [] refl

pub show_int-decimal : (n : ℕ) → n < 2 ^ 31 → show_int n ≡ decimal n
unfolding show_int
show_int-decimal n h = ground arith
