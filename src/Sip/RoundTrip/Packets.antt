-- ===== src/Sip/RoundTrip/Packets.antt =====
-- src/SIP.cpp: a whole packet that `SIPHandler::write` prints, read back by `SIPHandler::read`.
use viva_voce.Prelude.{
  ℕ, zero, suc, ◌<◌, ◌^◌, ◌≡◌, refl, List, [], ◌∷◌, ◌++◌, Option, none, some, true, arith,
}
use mathlib.Core.Path.{subst}
use mathlib.Core.Option.{some-injective}
use viva_voce.Text.{Text, codes, printed, strtok, skip, first_token}
use viva_voce.Text.Cuts.{IsPlain, free}
use viva_voce.Sip.{SipPacket, Uri}
use viva_voce.Sip.Reader.{Reader}
use viva_voce.Sip.Reader.Lines.{read_line}
use viva_voce.Sip.Reader.Parties.{from_of, to_of, with_from_party, with_to_party}
use viva_voce.Sip.Writer.{
  party_line_of, ended, type_lines, or_empty, party_line, call_line, cseq_line, contact_line,
  length_line, field_lines, body,
}
use viva_voce.Sip.RoundTrip.Parties.{
  OptPlain, or_kept, party_of, NextIs, from_line-NextIs, to_line-NextIs,
}
use viva_voce.Sip.RoundTrip.Fields.{
  ReadsBack, with_call, with_cseq, with_contact, call_line-NextIs, cseq_line-NextIs,
  contact_line-NextIs, type_line-NextIs, length_line-NextIs, length_line-content,
}
use viva_voce.Sip.RoundTrip.Lines.{at, Ends, rest_of, loop-lines, loop-last, loop-content}
use viva_voce.Sip.RoundTrip.Words.{
  from_line-word, to_line-word, call_line-word, cseq_line-word, contact_line-word, type_line-word,
  length_line-word,
}

-- The end of the message: the blank line, and the content.
abbrev pub tail : Text → Text
tail content = b'\r' ∷ b'\n' ∷ content

-- The packet after the line of the content's length.
abbrev pub with_length : ℕ → Text → SipPacket → SipPacket
with_length zero content p = record p { content_length = 0 }
with_length (suc n) content p = record p {
  content_length = suc n;
  content_data = some (rest_of [] (tail content));
}

abbrev pub with_type : Option Text → SipPacket → SipPacket
with_type none p = p
with_type (some t) p = record p { content_type = some (b' ' ∷ t) }

-- Without a length there is no content.
data Fits : ℕ → Text → Type 0 where
  empty : Fits 0 []
  filled : (n : ℕ) (content : Text) → Fits (suc n) content

length-Ends :
    (strtod : Text → ℕ) (n : ℕ) (content : Text) (r : Reader)
    → n < 2 ^ 31
    → Fits n content
    → Ends strtod (length_line n) (rest_of [] (tail content)) r (with_length n content r.packet)
unfolding ended strtok first_token skip
length-Ends strtod n content r h empty =
    loop-last strtod (length_line 0) _ r _ _ refl (length_line-NextIs strtod r) refl
length-Ends strtod _ _ r h (filled n content) =
    loop-content strtod (length_line (suc n)) _ r _
      (length_line-content strtod (suc n) r (λ e. omega arith) h)

body-Fits :
    (n : ℕ) (bytes : Option Text) (content : Text) → body n bytes ≡ some content → Fits n content
unfolding body
body-Fits zero bytes content e = subst (Fits 0) (some-injective _ _ e) empty
body-Fits (suc n) bytes content e = filled n content

-- A pointer to a plain word.
pub record Word (o : Option Text) : Type 0 where
  pub text : Text
  pub is : o ≡ some text
  pub plain : IsPlain text

-- The fields that the writer prints, but for the first line and the Via fields.
pub record IsWritable (p : SipPacket) : Type 0 where
  pub from_name : OptPlain p.from_name
  pub from_id : Word p.from_uri.id
  pub from_host : Word p.from_uri.host
  pub from_tag : OptPlain p.from_tag
  pub to_name : OptPlain p.to_name
  pub to_id : Word p.to_uri.id
  pub to_host : Word p.to_uri.host
  pub to_tag : OptPlain p.to_tag
  pub call_small : p.call_id < 2 ^ 53
  pub call_host : Word p.call_id_host
  pub cseq_small : p.cseq_code < 2 ^ 31
  pub method : Word p.cseq_method
  pub contact_id : Word p.contact_uri.id
  pub contact_host : Word p.contact_uri.host
  pub transport : Word p.contact_transport
  pub type_free : free (codes "\r\n:") (or_empty p.content_type) ≡ true
  pub length_small : p.content_length < 2 ^ 31
  pub content : Text
  pub content_is : body p.content_length p.content_data ≡ some content

abbrev pub copied : Uri → Uri
copied uri = record { id = uri.id; host = uri.host }

-- What the fields after the Via fields leave of a packet.
abbrev pub with_fields : SipPacket → SipPacket → SipPacket
with_fields p q = record q {
  from_name = p.from_name;
  from_uri = copied p.from_uri;
  from_tag = or_kept p.from_tag q.from_tag;
  to_name = p.to_name;
  to_uri = copied p.to_uri;
  to_tag = or_kept p.to_tag q.to_tag;
  call_id = p.call_id;
  call_id_host = p.call_id_host;
  cseq_code = p.cseq_code;
  cseq_method = p.cseq_method;
  contact_uri = copied p.contact_uri;
  contact_transport = p.contact_transport;
}

module _ (strtod : Text → ℕ) (reads : ReadsBack strtod) (p : SipPacket) (w : IsWritable p) where
  abbrev pub from : Text
  from = party_line_of (codes "From") p.from_name w.from_id.text w.from_host.text p.from_tag

  abbrev pub to : Text
  to = party_line_of (codes "To") p.to_name w.to_id.text w.to_host.text p.to_tag

  abbrev pub call : Text
  call = call_line p.call_id w.call_host.text

  abbrev pub cseq : Text
  cseq = cseq_line p.cseq_code w.method.text

  abbrev pub contact : Text
  contact = contact_line w.contact_id.text w.contact_host.text w.transport.text

  abbrev pub ending : List Text
  ending = length_line p.content_length ∷ []

  pub field_lines-writable :
      field_lines p ≡ some (from ∷ to ∷ call ∷ cseq ∷ contact ∷ type_lines p.content_type ++ ending)
  unfolding field_lines party_line
  field_lines-writable =
      rw
        (
          w.from_id.is, w.from_host.is, w.to_id.is, w.to_host.is, w.call_host.is, w.method.is,
          w.contact_id.is, w.contact_host.is, w.transport.is,
        )
        refl

  contact-Ends :
      (t : Option Text) (r : Reader) (q : SipPacket)
      → free (codes "\r\n:") (or_empty t) ≡ true
      → NextIs q (read_line strtod contact r)
      → Ends strtod contact
          (rest_of (type_lines t ++ ending) (tail w.content))
          r
          (with_length p.content_length w.content (with_type t q))
  contact-Ends none r q f n =
      let fits = body-Fits p.content_length p.content_data w.content w.content_is in
      loop-lines strtod contact (length_line p.content_length) [] (tail w.content) r _ q
        (length_line-word p.content_length w.length_small) n
        (λ f1 s1. length-Ends strtod p.content_length w.content (at q f1 s1) w.length_small fits)
  contact-Ends (some t) r q f n =
      let fits = body-Fits p.content_length p.content_data w.content w.content_is in
      loop-lines strtod contact (printed (codes "Content-Type: " ∷ t ∷ [])) ending (tail w.content)
        r _ q (type_line-word t f) n
        (λ f1 s1.
          loop-lines strtod (printed (codes "Content-Type: " ∷ t ∷ []))
            (length_line p.content_length) [] (tail w.content) (at q f1 s1) _ _
            (length_line-word p.content_length w.length_small)
            (type_line-NextIs strtod t (at q f1 s1) f)
            (λ f2 s2.
              length-Ends strtod p.content_length w.content (at (with_type (some t) q) f2 s2)
                w.length_small fits))

  -- The packet after each of the five lines.
  abbrev pub after_from : SipPacket → SipPacket
  after_from q =
      with_from_party (party_of p.from_name w.from_id.text w.from_host.text p.from_tag (from_of q))
        q

  abbrev pub after_to : SipPacket → SipPacket
  after_to q =
      with_to_party (party_of p.to_name w.to_id.text w.to_host.text p.to_tag (to_of (after_from q)))
        (after_from q)

  abbrev pub after_call : SipPacket → SipPacket
  after_call q = with_call p.call_id w.call_host.text (after_to q)

  abbrev pub after_cseq : SipPacket → SipPacket
  after_cseq q = with_cseq p.cseq_code w.method.text (after_call q)

  abbrev pub after_contact : SipPacket → SipPacket
  after_contact q =
      with_contact w.contact_id.text w.contact_host.text w.transport.text (after_cseq q)

  pub fields-Ends :
      (line : Text) (r : Reader) (q : SipPacket)
      → NextIs q (read_line strtod line r)
      → Ends strtod line
          (rest_of
            (from ∷ to ∷ call ∷ cseq ∷ contact ∷ type_lines p.content_type ++ ending)
            (tail w.content))
          r
          (with_length p.content_length w.content (with_type p.content_type (after_contact q)))
  fields-Ends line r q n =
      loop-lines strtod line from _ _ r _ q
        (from_line-word p.from_name _ _ p.from_tag w.from_name w.from_id.plain w.from_host.plain
          w.from_tag)
        n
        (λ f1 s1.
          loop-lines strtod from to _ _ (at q f1 s1) _ _
            (to_line-word p.to_name _ _ p.to_tag w.to_name w.to_id.plain w.to_host.plain w.to_tag)
            (from_line-NextIs strtod p.from_name _ _ p.from_tag (at q f1 s1) w.from_name
              w.from_id.plain w.from_host.plain w.from_tag)
            (λ f2 s2.
              loop-lines strtod to call _ _ (at (after_from q) f2 s2) _ _
                (call_line-word p.call_id _ w.call_host.plain)
                (to_line-NextIs strtod p.to_name _ _ p.to_tag (at (after_from q) f2 s2) w.to_name
                  w.to_id.plain w.to_host.plain w.to_tag)
                (λ f3 s3.
                  loop-lines strtod call cseq _ _ (at (after_to q) f3 s3) _ _
                    (cseq_line-word p.cseq_code _ w.cseq_small w.method.plain)
                    (call_line-NextIs strtod p.call_id _ (at (after_to q) f3 s3) reads w.call_small
                      w.call_host.plain)
                    (λ f4 s4.
                      loop-lines strtod cseq contact _ _ (at (after_call q) f4 s4) _ _
                        (contact_line-word w.contact_id.text w.contact_host.text w.transport.text
                          w.contact_id.plain w.contact_host.plain w.transport.plain)
                        (cseq_line-NextIs strtod p.cseq_code _ (at (after_call q) f4 s4)
                          w.cseq_small w.method.plain)
                        (λ f5 s5.
                          contact-Ends p.content_type (at (after_cseq q) f5 s5) _ w.type_free (
                            contact_line-NextIs strtod _ _ _ (at (after_cseq q) f5 s5)
                              w.contact_id.plain w.contact_host.plain w.transport.plain))))))

  pub after_contact_lem : (q : SipPacket) → after_contact q ≡ with_fields p q
  after_contact_lem q =
      rw
        (
          w.from_id.is, w.from_host.is, w.to_id.is, w.to_host.is, w.call_host.is, w.method.is,
          w.contact_id.is, w.contact_host.is, w.transport.is,
        )
        refl
