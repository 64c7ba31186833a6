-- ===== src/Sdp/Session/Lines.antt =====
-- src/SDP.cpp: `SDPHandler::read` of a text that is made of whole lines.
use viva_voce.Prelude.{
  ℕ, suc, ◌≡◌, refl, Bool, true, false, ◌&&◌, List, [], ◌∷◌, ◌++◌, Option, some, arith,
}
use viva_voce.Text.{Text, codes, strtok}
use viva_voce.Text.Cuts.{
  free, is_word, strtok-skip, strtok-all, strtok-append, cut-here, free-within, within, word-free,
}
use mathlib.Core.List.{append-nil}
use viva_voce.Prelude.Int.{ℤ}
use viva_voce.Sdp.{SdpPacket}
use viva_voce.Sdp.Reader.{Order, Reading, placed, check_key, set_field, after_key, read_lines}

-- A line: its key and its text.
abbrev pub Line : Type 0
Line = ℕ × Text

abbrev pub ends : Text
ends = codes "\r\n="

-- The key and the text hold neither a line's end nor the sign between them.
abbrev pub fine : Line → Bool
fine (key, value) = free ends (key ∷ []) && is_word ends value

abbrev pub all_fine : List Line → Bool
all_fine [] = true
all_fine (l ∷ ls) = fine l && all_fine ls

-- Lines as they stand in a text, each behind the end of the one before.
abbrev pub texts_of : List Line → Text → Text
texts_of [] rest = rest
texts_of ((key, value) ∷ ls) rest = b'\n' ∷ key ∷ b'=' ∷ value ++ b'\r' ∷ texts_of ls rest

abbrev pub more : List Line → ℕ → ℕ
more [] n = n
more (l ∷ ls) n = suc (more ls n)

and_left : (a b : Bool) → (a && b) ≡ true → a ≡ true
and_left true b h = refl
and_left false b h = h

and_right : (a b : Bool) → (a && b) ≡ true → b ≡ true
and_right true b h = h
and_right false b h = absurd (ground (arith, h))

is_word-free : (ds s : Text) → free ds s ≡ true → is_word ends s ≡ true → is_word ds s ≡ true
is_word-free ds [] h k = k
is_word-free ds (c ∷ s) h k = h

-- What a fine line is free of.
module _ (key : ℕ) (value : Text) (h : fine (key, value) ≡ true) where
  key_free : free ends (key ∷ []) ≡ true
  key_free = and_left (free ends (key ∷ [])) (is_word ends value) h

  value_word : is_word ends value ≡ true
  value_word = and_right (free ends (key ∷ [])) (is_word ends value) h

  value_free : (ds : Text) → within ds ends ≡ true → free ds value ≡ true
  value_free ds w = free-within ds ends value w (word-free ends value value_word)

  line_free : free (codes "\r\n") (key ∷ b'=' ∷ value) ≡ true
  line_free =
      let k = free-within (codes "\r\n") ends (key ∷ []) refl key_free in
      let v = value_free (codes "\r\n") refl in ground (arith, k, v)

line_token :
    (key : ℕ) (value rest : Text)
    → fine (key, value) ≡ true
    → strtok (codes "\r\n") (b'\n' ∷ key ∷ b'=' ∷ value ++ b'\r' ∷ rest)
      ≡ (some (key ∷ b'=' ∷ value), rest)
line_token key value rest h =
    rw
      (
        strtok-skip (codes "\r\n") b'\n' (key ∷ b'=' ∷ value ++ b'\r' ∷ rest) refl,
        strtok-append (codes "\r\n") (key ∷ b'=' ∷ value) (b'\r' ∷ rest) (line_free key value h),
        cut-here (codes "\r\n") b'\r' rest refl,
        append-nil value,
      )
      refl

key_token :
    (key : ℕ) (value : Text)
    → fine (key, value) ≡ true
    → strtok (codes "=") (key ∷ b'=' ∷ value) ≡ (some (key ∷ []), value)
key_token key value h =
    rw
      (
        strtok-append (codes "=") (key ∷ []) (b'=' ∷ value)
            (free-within (codes "=") ends (key ∷ []) refl (key_free key value h)),
        cut-here (codes "=") b'=' value refl,
      )
      refl

value_token :
    (key : ℕ) (value : Text)
    → fine (key, value) ≡ true
    → strtok (codes "=") value ≡ (some value, [])
value_token key value h = strtok-all (codes "=") value (
    is_word-free (codes "=") value (value_free key value h (codes "=") refl)
      (value_word key value h))

module _ (absent : Text → ℤ) (inet_addr : Text → ℕ) where
  -- What the lines do, one after the other, and what comes then.
  abbrev pub through :
      List Line → Order → SdpPacket → (Order → SdpPacket → Option Reading) → Option Reading
  through [] o p go = go o p
  through ((key, value) ∷ ls) o p go =
      after_key (check_key absent o key) p
        (λ o1. set_field absent inet_addr o1.media_started key (some value) p)
        (λ o1 p1. through ls o1 p1 go)

  pub read_lines-through :
      (ls : List Line) (rest : Text) (fuel : ℕ) (o : Order) (p : SdpPacket)
      → all_fine ls ≡ true
      → read_lines absent inet_addr (more ls fuel) (texts_of ls rest) o p
        ≡ through ls o p (λ o1 p1. read_lines absent inet_addr fuel rest o1 p1)
  unfolding read_lines
  read_lines-through [] rest fuel o p h = refl
  read_lines-through ((key, value) ∷ ls) rest fuel o p h =
      let one = and_left (fine (key, value)) (all_fine ls) h in
      rw
        (
          line_token key value (texts_of ls rest) one,
          key_token key value one,
          value_token key value one,
        )
        (λ i.
          after_key (check_key absent o key) p
            (λ o1. set_field absent inet_addr o1.media_started key (some value) p)
            (λ o1 p1.
              read_lines-through ls rest fuel o1 p1 (and_right (fine (key, value)) (all_fine ls) h)
                i))

  -- A line that is in order and sets its field.
  pub through-placed :
      (key : ℕ) (value : Text) (ls : List Line) (o o1 : Order) (p p1 : SdpPacket)
      (go : Order → SdpPacket → Option Reading)
      → check_key absent o key ≡ placed o1
      → set_field absent inet_addr o1.media_started key (some value) p ≡ some p1
      → through ((key, value) ∷ ls) o p go ≡ through ls o1 p1 go
  through-placed key value ls o o1 p p1 go c s = rw (c, s) refl
