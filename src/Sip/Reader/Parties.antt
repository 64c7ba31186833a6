-- ===== src/Sip/Reader/Parties.antt =====
-- src/SIP.cpp: the Via, From and To fields of `SIPHandler::read`.
use viva_voce.Prelude.{true, not, Option, none, some, if◌then◌else◌, ◌>>=◌}
use viva_voce.Prelude.Int.{ℤ, pos, negsuc}
use viva_voce.Text.{Text, codes, has_prefix, strtok, strtok_r}
use viva_voce.Sip.{SipPacket, Uri, add_via_field}
use viva_voce.Sip.Reader.{
  Reader, Step, next, failed, parse_uri, compare_word, atoi_at, unknown_field, unknown_uri,
  malformed_pack,
}

unfoldable pub read_via : Text → Reader → Option Step
unfolding strtok strtok_r compare_word atoi_at
read_via key r =
    let value = strtok (codes ":") key in
    elim value.0 [
      | none ↦ some (next r)
      | some line ↦
          let version = strtok (codes " ") line in
          elim version.0 [
            | none ↦ none
            | some sip ↦
                let host = strtok (codes " ") version.1 in
                let first = strtok (codes "/") sip in
                let second = strtok (codes "/") first.1 in
                let transport = strtok (codes "/") second.1 in
                let after = strtok (codes ":") value.1 in
                if not (has_prefix (codes "SIP/2.0") sip)
                then some (failed malformed_pack (record r { sub_field = some version.1 }))
                else do
                  port ← strtok_r (codes ";") after.0 (some transport.1)
                  number ← atoi_at port.0
                  branch ← strtok_r (codes ";") none port.1
                  name ← strtok_r (codes "=") branch.0 r.field
                  known ← compare_word (codes "branch") name.0
                  text ← strtok_r (codes "=") none name.1
                  some (
                      if not known
                      then failed unknown_field (record r { field = name.1; sub_field = branch.1 })
                      else next (record {
                        packet =
                            add_via_field
                              (record {
                                is_auto = true;
                                transport = transport.0;
                                host = host.0;
                                port = number;
                                branch = text.0;
                              })
                              r.packet;
                        field = text.1;
                        sub_field = branch.1;
                      }))
          ]
    ]

-- The name, the URI and the tag of a From or To field.
pub record Party : Type 0 where
  pub name : Option Text
  pub uri : Uri
  pub tag : Option Text

-- What a From or To field leaves: an error or 0, the party, `stkField` and `stkSubField`.
pub record PartyRead : Type 0 where
  pub code : ℤ
  pub party : Party
  pub field : Option Text
  pub sub_field : Option Text

unfoldable pub read_tag : Party → Option Text → Option Text → Option Text → Option PartyRead
unfolding strtok_r compare_word
read_tag party none field sub =
    some (record { code = pos 0; party = party; field = field; sub_field = sub })
read_tag party (some tag) field sub = do
  name ← strtok_r (codes "=") (some tag) sub
  known ← compare_word (codes "tag") name.0
  text ← strtok_r (codes "=") none name.1
  some (
      if not known
      then record { code = unknown_field; party = party; field = field; sub_field = name.1 }
      else record {
        code = pos 0;
        party = record party { tag = text.0 };
        field = field;
        sub_field = text.1;
      })

-- From `str1` on, the text after the name.
unfoldable pub read_address : Party → Option Text → Option Text → Option Text → Option PartyRead
unfolding strtok_r compare_word parse_uri read_tag
read_address party str1 field sub = do
  address ← strtok_r (codes ";") str1 field
  inner ← strtok_r (codes "<>") address.0 sub
  scheme ← strtok_r (codes ":") inner.0 inner.1
  sip ← compare_word (codes "sip") scheme.0
  if not sip
      then some
          (record { code = unknown_uri; party = party; field = address.1; sub_field = scheme.1 })
      else (do
        rest ← strtok_r (codes ":") none scheme.1
        uri ← parse_uri rest.0
        tag ← strtok_r (codes ";") none address.1
        read_tag (record party { uri = uri }) tag.0 tag.1 rest.1)

unfoldable pub read_party : Text → Party → Option Text → Option PartyRead
unfolding strtok read_address
read_party key party sub =
    let name = strtok (codes " ") key in
    elim name.0 [
      | none ↦ some (record {
        code = pos 0;
        party = record party { name = none };
        field = some name.1;
        sub_field = sub;
      })
      | some text ↦
          let after = strtok (codes " ") name.1 in
          let quoted = strtok (codes " ") text in
          if has_prefix (codes "<") text
          then read_address (record party { name = none }) quoted.0 (some text) sub
          else read_address (record party { name = some text }) after.0 (some after.1) sub
    ]

abbrev pub step_of : ℤ → Reader → Step
step_of (pos n) r = next r
step_of (negsuc n) r = failed (negsuc n) r

abbrev pub from_of : SipPacket → Party
from_of p = record { name = p.from_name; uri = p.from_uri; tag = p.from_tag }

abbrev pub to_of : SipPacket → Party
to_of p = record { name = p.to_name; uri = p.to_uri; tag = p.to_tag }

abbrev pub with_from_party : Party → SipPacket → SipPacket
with_from_party o p = record p { from_name = o.name; from_uri = o.uri; from_tag = o.tag }

abbrev pub with_to_party : Party → SipPacket → SipPacket
with_to_party o p = record p { to_name = o.name; to_uri = o.uri; to_tag = o.tag }

-- The packet with the party that was read, and the error if there is one.
abbrev pub party_step : (Party → SipPacket → SipPacket) → SipPacket → PartyRead → Step
party_step put p read =
    step_of read.code
      (record { packet = put read.party p; field = read.field; sub_field = read.sub_field })

unfoldable pub read_from : Text → Reader → Option Step
unfolding read_party
read_from key r = do
  read ← read_party key (from_of r.packet) r.sub_field
  some (party_step with_from_party r.packet read)

unfoldable pub read_to : Text → Reader → Option Step
unfolding read_party
read_to key r = do
  read ← read_party key (to_of r.packet) r.sub_field
  some (party_step with_to_party r.packet read)
