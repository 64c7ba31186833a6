-- ===== src/Sip/RoundTrip/Parties.antt =====
-- src/SIP.cpp: each Via, From and To line that `SIPHandler::write` prints, read back.
use viva_voce.Prelude.{ℕ, ◌<◌, ◌^◌, ◌≡◌, refl, ◌∷◌, ◌++◌, Option, none, some, true, ◌>>=◌}
use viva_voce.Prelude.Int.{pos}
use viva_voce.Text.{Text, codes, printed, strtok_r}
use viva_voce.Text.Cuts.{IsPlain, tokens, lacks_prefix}
use viva_voce.Sip.{SipPacket, Uri, Via, add_via_field}
use viva_voce.Text.Decimal.{atoi-decimal_all, decimal-IsPlain, show_int-decimal}
use viva_voce.Sip.Reader.{Reader, Step, next, parse_uri, compare_word, atoi_at}
use viva_voce.Sip.Reader.Parties.{
  read_via, read_from, read_to, read_party, read_address, read_tag, party_step, from_of, to_of,
  with_from_party, with_to_party, Party, PartyRead,
}
use viva_voce.Sip.Reader.Lines.{read_line, read_field}
use viva_voce.Sip.Writer.{via_line_of, party_line_of, tag_part, or_empty, branch_start}

-- A text that may be null.
abbrev pub OptPlain : Option Text → Type 0
OptPlain none = Unit
OptPlain (some t) = IsPlain t

-- What is read where the packet may lack a text, which then stays as it was.
abbrev pub or_kept {ℓ} : {A : Type ℓ} → Option A → Option A → Option A
or_kept none kept = kept
or_kept (some t) kept = some t

abbrev pub uri_of : Text → Text → Uri
uri_of id host = record { id = some id; host = some host }

ruleset party_rules = (tokens, lacks_prefix, read_party, or_empty)

-- What the reader of a party returns at the end of a party's line.
abbrev PartyIs : Option Text → Text → Text → Option Text → Party → Option PartyRead → Type 0
PartyIs name id host tag p none = ⊥
PartyIs name id host tag p (some r) =
    (r.code ≡ pos 0)
    × (r.party ≡ record { name = name; uri = uri_of id host; tag = or_kept tag p.tag })

read_party-line :
    (name : Option Text) (id host : Text) (tag : Option Text) (p : Party) (sub : Option Text)
    → OptPlain name
    → IsPlain id
    → IsPlain host
    → OptPlain tag
    → PartyIs name id host tag p (
        read_party
          (printed (
            codes " "
            ∷ or_empty name
            ∷ codes " <sip:"
            ∷ id
            ∷ codes "@"
            ∷ host
            ∷ codes ">"
            ∷ tag_part tag))
          p
          sub)
unfolding read_party read_address read_tag strtok_r parse_uri compare_word
read_party-line (some name) id host (some tag) p sub h i j k = simp party_rules (refl, refl)
read_party-line (some name) id host none p sub h i j k = simp party_rules (refl, refl)
read_party-line none id host (some tag) p sub h i j k = simp tokens (refl, refl)
read_party-line none id host none p sub h i j k = simp tokens (refl, refl)

-- The line is read to its end, and the next line is read with this packet.
abbrev pub NextIs : SipPacket → Option Step → Type 0
NextIs p (some (next r)) = r.packet ≡ p
NextIs p _ = ⊥

abbrev pub party_of : Option Text → Text → Text → Option Text → Party → Party
party_of name id host tag p = record { name = name; uri = uri_of id host; tag = or_kept tag p.tag }

party_step-NextIs :
    (put : Party → SipPacket → SipPacket) (name : Option Text) (id host : Text) (tag : Option Text)
    (before : Party) (p : SipPacket) (o : Option PartyRead)
    → PartyIs name id host tag before o
    → NextIs (put (party_of name id host tag before) p) (o >>= λ read. some (party_step put p read))
party_step-NextIs put name id host tag before p none h = h
party_step-NextIs put name id host tag before p (some o) h = rw (h.0, h.1) refl

module _ (strtod : Text → ℕ) (name : Option Text) (id host : Text) (tag : Option Text) (r : Reader)
    (name_plain : OptPlain name) (id_plain : IsPlain id) (host_plain : IsPlain host)
    (tag_plain : OptPlain tag) where
  pub from_line-NextIs :
      NextIs
        (with_from_party (party_of name id host tag (from_of r.packet)) r.packet)
        (read_line strtod (party_line_of (codes "From") name id host tag) r)
  unfolding read_line read_field read_from
  from_line-NextIs =
      party_step-NextIs with_from_party name id host tag (from_of r.packet) r.packet _ (
        read_party-line name id host tag (from_of r.packet) r.sub_field name_plain id_plain
          host_plain tag_plain)

  pub to_line-NextIs :
      NextIs
        (with_to_party (party_of name id host tag (to_of r.packet)) r.packet)
        (read_line strtod (party_line_of (codes "To") name id host tag) r)
  unfolding read_line read_field read_to
  to_line-NextIs = party_step-NextIs with_to_party name id host tag (to_of r.packet) r.packet _ (
      read_party-line name id host tag (to_of r.packet) r.sub_field name_plain id_plain host_plain
        tag_plain)

abbrev pub received_via : Text → Text → ℕ → Option Text → Via
received_via transport host port branch = record {
  is_auto = true;
  transport = some transport;
  host = some host;
  port = port;
  branch = branch;
}

-- A Via line is read back with its branch's beginning.
pub via_line-NextIs :
    (strtod : Text → ℕ) (transport host : Text) (port : ℕ) (branch : Text) (r : Reader)
    → IsPlain transport
    → IsPlain host
    → port < 2 ^ 31
    → IsPlain branch
    → NextIs
        (add_via_field (received_via transport host port (some (branch_start ++ branch))) r.packet)
        (read_line strtod (via_line_of transport host port (some branch)) r)
unfolding read_line read_field read_via strtok_r atoi_at compare_word
via_line-NextIs strtod transport host port branch r h i j k =
    rw (show_int-decimal port j) (simp (tokens, decimal-IsPlain, atoi-decimal_all port j))
