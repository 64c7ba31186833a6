-- ===== src/Sip/RoundTrip/Fields.antt =====
-- src/SIP.cpp: the other lines that `SIPHandler::write` prints, read back.
use viva_voce.Prelude.{ℕ, ◌<◌, ◌^◌, ◌≡◌, ◌≢◌, refl, [], ◌∷◌, ◌++◌, some, true, arith}
use mathlib.Core.List.{append-nil}
use viva_voce.Text.{Text, codes, printed, strtok_r}
use viva_voce.Text.Cuts.{IsPlain, free, cut-all, free-within, tokens}
use viva_voce.Sip.{SipPacket}
use viva_voce.Text.Decimal.{
  show_int, decimal, atoi, atoi-decimal_all, atoi-space, decimal-IsPlain, show_int-decimal,
}
use viva_voce.Sip.Reader.{Reader, content, parse_uri, compare_word, atoi_at}
use viva_voce.Sip.Reader.Fields.{
  read_cseq, read_contact, read_content_type, read_content_length, read_transport,
}
use viva_voce.Sip.Reader.Lines.{read_line, read_field, read_call_id}
use viva_voce.Sip.Writer.{call_line, cseq_line, contact_line, length_line}
use viva_voce.Sip.RoundTrip.Parties.{NextIs, uri_of}

-- What `strtod` is relied on for: it passes over white space, and reads a number back that `%.0f`
-- prints of a `double`, which holds every whole number below 2^53.
abbrev pub ReadsBack : (Text → ℕ) → Type 0
ReadsBack strtod = (n : ℕ) → n < 2 ^ 53 → strtod (codes " " ++ decimal n) ≡ n

abbrev pub with_call : ℕ → Text → SipPacket → SipPacket
with_call n host p = record p { call_id = n; call_id_host = some host }

pub call_line-NextIs :
    (strtod : Text → ℕ) (n : ℕ) (host : Text) (r : Reader)
    → ReadsBack strtod
    → n < 2 ^ 53
    → IsPlain host
    → NextIs (with_call n host r.packet) (read_line strtod (call_line n host) r)
unfolding read_line read_field read_call_id parse_uri
call_line-NextIs strtod n host r reads h i = simp (tokens, decimal-IsPlain, reads n h)

abbrev pub with_cseq : ℕ → Text → SipPacket → SipPacket
with_cseq n method p = record p { cseq_code = n; cseq_method = some method }

pub cseq_line-NextIs :
    (strtod : Text → ℕ) (n : ℕ) (method : Text) (r : Reader)
    → n < 2 ^ 31
    → IsPlain method
    → NextIs (with_cseq n method r.packet) (read_line strtod (cseq_line n method) r)
unfolding read_line read_field read_cseq atoi_at
cseq_line-NextIs strtod n method r h i =
    rw (show_int-decimal n h) (simp (tokens, decimal-IsPlain, atoi-decimal_all n h))

abbrev pub with_contact : Text → Text → Text → SipPacket → SipPacket
with_contact id host transport p = record p {
  contact_uri = uri_of id host;
  contact_transport = some transport;
}

pub contact_line-NextIs :
    (strtod : Text → ℕ) (id host transport : Text) (r : Reader)
    → IsPlain id
    → IsPlain host
    → IsPlain transport
    → NextIs
        (with_contact id host transport r.packet)
        (read_line strtod (contact_line id host transport) r)
unfolding read_line read_field read_contact strtok_r parse_uri compare_word read_transport
contact_line-NextIs strtod id host transport r h i j = simp tokens

-- The type is read with the space before it.
pub type_line-NextIs :
    (strtod : Text → ℕ) (t : Text) (r : Reader)
    → free (codes "\r\n:") t ≡ true
    → NextIs
        (record r.packet { content_type = some (b' ' ∷ t) })
        (read_line strtod (printed (codes "Content-Type: " ∷ t ∷ [])) r)
unfolding read_line read_field read_content_type
type_line-NextIs strtod t r h =
    simp (append-nil, cut-all (codes ":") t (free-within (codes ":") (codes "\r\n:") t refl h))

pub length_line-NextIs :
    (strtod : Text → ℕ) (r : Reader)
    → NextIs (record r.packet { content_length = 0 }) (read_line strtod (length_line 0) r)
unfolding read_line read_field read_content_length atoi show_int decimal
length_line-NextIs strtod r = refl

-- A packet with content ends at the line of its length.
pub length_line-content :
    (strtod : Text → ℕ) (n : ℕ) (r : Reader)
    → n ≢ 0
    → n < 2 ^ 31
    → read_line strtod (length_line n) r
      ≡ some (content (record r { packet = record r.packet { content_length = n } }))
unfolding read_line read_field read_content_length
length_line-content strtod n r h i =
    rw (show_int-decimal n i)
      (simp (tokens, decimal-IsPlain, atoi-space, atoi-decimal_all n i) (ground arith))
