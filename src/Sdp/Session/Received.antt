-- ===== src/Sdp/Session/Received.antt =====
-- src/SDP.cpp: the text of the session of `init` as it stands in the content of a SIP packet.
use mathlib.Core.List.{append_assoc}
use viva_voce.Prelude.{
  ℕ, suc, ◌+◌, ◌≤◌, ◌≡◌, refl, ap, ◌∙◌, List, [], ◌∷◌, ◌++◌, true, arith, length, length-append,
  take, take-append,
}
use viva_voce.Text.{Text, codes}
use viva_voce.Text.Cuts.{IsPlain, free, free_append, is_word, free-within, word-free, specials}
use viva_voce.Text.Decimal.{decimal, decimal-IsPlain}
use viva_voce.Sdp.Session.Lines.{Line, texts_of, more, all_fine, ends}
use viva_voce.Sdp.Session.Written.{owner_of, own_lines, own_text, attribute_start}
use viva_voce.Sip.RoundTrip.Lines.{rest_of}
use viva_voce.Sip.RoundTrip.Packets.{tail}
use viva_voce.Sip.Writer.{ended}

texts_of-append : (ls : List Line) (a b : Text) → texts_of ls (a ++ b) ≡ texts_of ls a ++ b
texts_of-append [] a b = refl
texts_of-append ((key, value) ∷ ls) a b = rw (texts_of-append ls a b) (simp append_assoc refl)

pub texts_of-length :
    (ls : List Line) (rest : Text) → more ls (length rest) ≤ length (texts_of ls rest)
texts_of-length [] rest = omega arith
texts_of-length ((key, value) ∷ ls) rest =
    let more_of = texts_of-length ls rest in
    let l = length-append value (b'\r' ∷ texts_of ls rest) in omega (arith, more_of, l)

plain_free : (w : Text) → IsPlain w → free ends w ≡ true
plain_free w h = free-within ends specials w refl (word-free specials w h)

owner_of-word :
    (username : Text) (i v : ℕ) → IsPlain username → is_word ends (owner_of username i v) ≡ true
owner_of-word [] i v h = ground (arith, h)
owner_of-word (c ∷ s) i v h =
    let u = plain_free (c ∷ s) h in
    let a = plain_free (decimal i) (decimal-IsPlain i) in
    let b = plain_free (decimal v) (decimal-IsPlain v) in
    simp (free_append, a, b) (ground (arith, u))

pub own_lines-fine :
    (username : Text) (i v port : ℕ)
    → IsPlain username
    → all_fine (own_lines (owner_of username i v) port) ≡ true
own_lines-fine username i v port h =
    let o = owner_of-word username i v h in
    let c = plain_free (decimal port) (decimal-IsPlain port) in simp (free_append, o, c) refl

-- What a peer reads: the text behind the bytes `\n\r\n`, as far as the text's length goes.
pub take_behind :
    (text kept lost : Text)
    → b'\n' ∷ text ≡ kept ++ lost
    → length lost ≡ 3
    → take (length text) (rest_of [] (tail text)) ≡ b'\n' ∷ b'\r' ∷ kept
unfolding ended
take_behind text kept lost e three =
    let sizes : suc (length text) ≡ length kept + 3 =
      ap (λ (l : Text). length l) e ∙ length-append kept lost ∙ ap (λ n. length kept + n) three in
    let size : length text ≡ length (b'\n' ∷ b'\r' ∷ kept) = omega (arith, sizes) in
    rw (size, e) (take-append (b'\n' ∷ b'\r' ∷ kept) lost)

pub text_lines :
    (owner : Text) (port : ℕ)
    → b'\n' ∷ own_text owner port ≡ texts_of (own_lines owner port) attribute_start ++ codes "0\r\n"
text_lines owner port = texts_of-append (own_lines owner port) attribute_start (codes "0\r\n")
