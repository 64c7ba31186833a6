-- ===== src/Sip/RoundTrip/Words.antt =====
-- src/SIP.cpp: no line that `SIPHandler::write` prints holds the end of a line.
use viva_voce.Prelude.{ℕ, ◌<◌, ◌^◌, ◌≡◌, refl, [], ◌∷◌, Option, none, some, true, arith}
use viva_voce.Text.{Text, codes, printed}
use viva_voce.Text.Cuts.{IsPlain, is_word, free, free_append, free-within, plain-free}
use viva_voce.Text.Decimal.{decimal-IsPlain, show_int-decimal}
use viva_voce.Sip.Writer.{
  request_line, response_line, request_string_of, response_string_of, via_line_of, party_line_of,
  call_line, cseq_line, contact_line, length_line, or_empty, tag_part,
}
use viva_voce.Sip.RoundTrip.Parties.{OptPlain}
use viva_voce.Sip.RoundTrip.Lines.{crlf}
use viva_voce.Sip.RoundTrip.First.{Method, inv, ack, bye, options, register, cancel}

ruleset words = (free_append, plain-free, decimal-IsPlain)

pub request_line-word :
    (code : ℕ) (id host : Text)
    → Method code
    → IsPlain id
    → IsPlain host
    → is_word crlf (request_line code id host) ≡ true
unfolding request_string_of
request_line-word code id host inv h i = simp words
request_line-word code id host ack h i = simp words
request_line-word code id host bye h i = simp words
request_line-word code id host options h i = simp words
request_line-word code id host register h i = simp words
request_line-word code id host cancel h i = simp words

response_string-free : (code : ℕ) → free crlf (response_string_of code) ≡ true
unfolding response_string_of
response_string-free code = ground arith

pub response_line-word : (code : ℕ) → code < 2 ^ 31 → is_word crlf (response_line code) ≡ true
response_line-word code h = rw (show_int-decimal code h) (simp (words, response_string-free code))

pub via_line-word :
    (transport host : Text) (port : ℕ) (branch : Text)
    → IsPlain transport
    → IsPlain host
    → port < 2 ^ 31
    → IsPlain branch
    → is_word crlf (via_line_of transport host port (some branch)) ≡ true
via_line-word transport host port branch h i j k = rw (show_int-decimal port j) (simp words)

or_empty-free : (name : Option Text) → OptPlain name → free crlf (or_empty name) ≡ true
or_empty-free none h = refl
or_empty-free (some t) h = simp words

tag_part-free : (tag : Option Text) → OptPlain tag → free crlf (printed (tag_part tag)) ≡ true
tag_part-free none h = refl
tag_part-free (some t) h = simp words

module _ (name : Option Text) (id host : Text) (tag : Option Text) (name_plain : OptPlain name)
    (id_plain : IsPlain id) (host_plain : IsPlain host) (tag_plain : OptPlain tag) where
  pub from_line-word : is_word crlf (party_line_of (codes "From") name id host tag) ≡ true
  from_line-word = simp (words, or_empty-free name name_plain, tag_part-free tag tag_plain)

  pub to_line-word : is_word crlf (party_line_of (codes "To") name id host tag) ≡ true
  to_line-word = simp (words, or_empty-free name name_plain, tag_part-free tag tag_plain)

pub call_line-word : (n : ℕ) (host : Text) → IsPlain host → is_word crlf (call_line n host) ≡ true
call_line-word n host h = simp words

pub cseq_line-word :
    (n : ℕ) (method : Text) → n < 2 ^ 31 → IsPlain method → is_word crlf (cseq_line n method) ≡ true
cseq_line-word n method h i = rw (show_int-decimal n h) (simp words)

pub contact_line-word :
    (id host transport : Text)
    → IsPlain id
    → IsPlain host
    → IsPlain transport
    → is_word crlf (contact_line id host transport) ≡ true
contact_line-word id host transport h i j = simp words

pub type_line-word :
    (t : Text)
    → free (codes "\r\n:") t ≡ true
    → is_word crlf (printed (codes "Content-Type: " ∷ t ∷ [])) ≡ true
type_line-word t h = simp (words, free-within crlf (codes "\r\n:") t refl h)

pub length_line-word : (n : ℕ) → n < 2 ^ 31 → is_word crlf (length_line n) ≡ true
length_line-word n h = rw (show_int-decimal n h) (simp words)
