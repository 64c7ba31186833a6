-- ===== src/Sip/Reader/Fields.antt =====
-- src/SIP.cpp: the fields CSeq, Contact, Content-Type and Content-Length of `SIPHandler::read`.
use viva_voce.Prelude.{not, Option, none, some, ◌==◌, if◌then◌else◌, ◌>>=◌}
use viva_voce.Text.{Text, codes, strtok, strtok_r}
use viva_voce.Text.Decimal.{atoi}
use viva_voce.Sip.Reader.{
  Reader, Step, next, content, failed, parse_uri, compare_word, atoi_at, unknown_field, unknown_uri,
}

unfoldable pub read_cseq : Text → Reader → Option Step
unfolding strtok atoi_at
read_cseq key r = elim ((strtok (codes ":") key).0) [
  | none ↦ some (next r)
  | some line ↦
      let number = strtok (codes " ") line in
      let method = strtok (codes " ") number.1 in
      do
        n ← atoi_at number.0
        some (
            next (record r {
              packet = record r.packet { cseq_code = n; cseq_method = method.0 };
              field = some method.1;
            }))
]

unfoldable pub read_transport : Text → Reader → Option Step
unfolding strtok compare_word
read_transport text r =
    let name = strtok (codes "=") text in
    let transport = strtok (codes "=") name.1 in
    do
      known ← compare_word (codes "transport") name.0
      some (
          if not known
          then failed unknown_field (record r { sub_field = some name.1 })
          else next (record r {
            packet = record r.packet { contact_transport = transport.0 };
            sub_field = some transport.1;
          }))

unfoldable pub read_contact : Text → Reader → Option Step
unfolding strtok strtok_r compare_word parse_uri read_transport
read_contact key r =
    let open_ = strtok (codes "<>") key in
    let address = strtok (codes ";") open_.1 in
    do
      scheme ← strtok_r (codes ":") address.0 r.sub_field
      sip ← compare_word (codes "sip") scheme.0
      if not sip
          then some (failed unknown_uri (record r { field = some address.1; sub_field = scheme.1 }))
          else (do
            rest ← strtok_r (codes ":") none scheme.1
            uri ← parse_uri rest.0
            let transport = strtok (codes ";>") address.1 in
                let r1 : Reader = record {
                  packet = record r.packet { contact_uri = uri };
                  field = some transport.1;
                  sub_field = rest.1;
                } in
                elim transport.0 [ none ↦ some (next r1) | some text ↦ read_transport text r1 ])

unfoldable pub read_content_type : Text → Reader → Option Step
unfolding strtok
read_content_type key r = elim ((strtok (codes ":") key).0) [
  | none ↦ some (next r)
  | some type_ ↦ some (next (record r { packet = record r.packet { content_type = some type_ } }))
]

unfoldable pub read_content_length : Text → Reader → Option Step
unfolding strtok
read_content_length key r = elim ((strtok (codes ":") key).0) [
  | none ↦ some (next r)
  | some text ↦
      let r1 = record r { packet = record r.packet { content_length = atoi text } } in
      some (if atoi text == 0 then next r1 else content r1)
]
