-- ===== src/Sip/RoundTrip/First.antt =====
-- src/SIP.cpp: the first line that `SIPHandler::write` prints, read back, and the loop's turn at what
-- is left of it.
use viva_voce.Prelude.{
  ℕ, ◌<◌, ◌^◌, ◌≡◌, refl, ◌⊎◌, inl, inr, [], ◌∷◌, Option, none, some, true, false, arith,
}
use viva_voce.Text.{Text, codes, printed, terminated, starts_with}
use viva_voce.Text.Cuts.{IsPlain, tokens}
use viva_voce.Text.Decimal.{show_int, atoi-decimal_all, decimal-IsPlain, show_int-decimal}
use viva_voce.Sip.{SipPacket}
use viva_voce.Sip.Reader.{Reader, next, atoi_at, parse_uri}
use viva_voce.Sip.Reader.Lines.{
  read_line, read_field, read_first, read_request, read_response, read_target, method_in,
}
use viva_voce.Sip.Writer.{request_line, response_line, request_string_of, response_string_of}
use viva_voce.Sip.RoundTrip.Parties.{NextIs, uri_of}

-- The methods that the reader knows.
pub data Method : ℕ → Type 0 where
  inv : Method 10
  ack : Method 11
  bye : Method 12
  options : Method 13
  register : Method 14
  cancel : Method 15

abbrev pub with_request : ℕ → Text → Text → SipPacket → SipPacket
with_request code id host p = record p {
  is_request = true;
  request_code = code;
  request_string = some (request_string_of code);
  request_uri = uri_of id host;
}

pub request_line-NextIs :
    (strtod : Text → ℕ) (code : ℕ) (id host : Text) (r : Reader)
    → Method code
    → IsPlain id
    → IsPlain host
    → NextIs (with_request code id host r.packet) (read_first strtod (request_line code id host) r)
unfolding read_first read_request read_target parse_uri method_in request_string_of starts_with
request_line-NextIs strtod code id host r inv h i = simp tokens
request_line-NextIs strtod code id host r ack h i = simp tokens
request_line-NextIs strtod code id host r bye h i = simp tokens
request_line-NextIs strtod code id host r options h i = simp tokens
request_line-NextIs strtod code id host r register h i = simp tokens
request_line-NextIs strtod code id host r cancel h i = simp tokens

-- The first turn of the loop sees the method alone, which is no field.
pub request_string-turn :
    (strtod : Text → ℕ) (code : ℕ) (id host : Text) (r : Reader)
    → Method code
    → read_line strtod (terminated (codes " ") (request_line code id host)) r ≡ some (next r)
unfolding read_line read_field terminated request_string_of
request_string-turn strtod code id host r inv = refl
request_string-turn strtod code id host r ack = refl
request_string-turn strtod code id host r bye = refl
request_string-turn strtod code id host r options = refl
request_string-turn strtod code id host r register = refl
request_string-turn strtod code id host r cancel = refl

abbrev pub or_null : Text → Option Text
or_null [] = none
or_null (c ∷ s) = some (c ∷ s)

abbrev pub with_response : ℕ → SipPacket → SipPacket
with_response code p = record p {
  is_request = false;
  response_code = code;
  response_string = or_null (response_string_of code);
}

status_line : ℕ → Text → Text
status_line code w = printed (codes "SIP/2.0 " ∷ show_int code ∷ codes " " ∷ w ∷ [])

status_line-NextIs :
    (strtod : Text → ℕ) (code : ℕ) (w : Text) (r : Reader)
    → code < 2 ^ 31
    → (w ≡ []) ⊎ IsPlain w
    → NextIs
        (record r.packet { is_request = false; response_code = code; response_string = or_null w })
        (read_first strtod (status_line code w) r)
unfolding read_first read_response atoi_at status_line
status_line-NextIs strtod code [] r h e =
    rw (show_int-decimal code h) (simp (tokens, decimal-IsPlain, atoi-decimal_all code h))
status_line-NextIs strtod code (c ∷ w) r h (inl e) = absurd (ground arith)
status_line-NextIs strtod code (c ∷ w) r h (inr e) =
    rw (show_int-decimal code h) (simp (tokens, decimal-IsPlain, atoi-decimal_all code h))

response_string-IsPlain :
    (code : ℕ) → (response_string_of code ≡ []) ⊎ IsPlain (response_string_of code)
unfolding response_string_of
response_string-IsPlain code = ground arith

pub response_line-NextIs :
    (strtod : Text → ℕ) (code : ℕ) (r : Reader)
    → code < 2 ^ 31
    → NextIs (with_response code r.packet) (read_first strtod (response_line code) r)
unfolding status_line
response_line-NextIs strtod code r h =
    status_line-NextIs strtod code (response_string_of code) r h (response_string-IsPlain code)

pub response_turn :
    (strtod : Text → ℕ) (code : ℕ) (r : Reader)
    → read_line strtod (terminated (codes " ") (response_line code)) r ≡ some (next r)
unfolding read_line read_field terminated
response_turn strtod code r = refl
