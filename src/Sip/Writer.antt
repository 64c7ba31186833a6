-- ===== src/Sip/Writer.antt =====
-- src/SIP.cpp: `getRequestString`, `getResponseString` and `SIPHandler::write`. A null pointer for a
-- `%s`, a message that does not fit the buffer and a content shorter than its length are faults.
use viva_voce.Prelude.{
  ℕ, zero, suc, List, [], ◌∷◌, ◌++◌, Bool, true, false, Option, none, some, ltb, ◌==◌,
  if◌then◌else◌, ◌>>=◌, length, take,
}
use viva_voce.Prelude.Int.{ℤ, pos, negsuc}
use viva_voce.Text.{Text, codes, printed}
use viva_voce.Text.Decimal.{decimal, show_int}
use viva_voce.Sip.{
  SipPacket, Uri, Via, method_inv, method_ack, method_bye, method_opt, method_reg, method_cnl,
}

unfoldable pub request_string_of : ℕ → Text
request_string_of code =
    if code == method_inv
    then codes "INVITE"
    else if code == method_ack
    then codes "ACK"
    else if code == method_bye
    then codes "BYE"
    else if code == method_opt
    then codes "OPTIONS"
    else if code == method_reg
    then codes "REGISTER"
    else if code == method_cnl
    then codes "CANCEL"
    else []

unfoldable pub response_string_of : ℕ → Text
response_string_of code =
    if code == 180
    then codes "RINGING"
    else if code == 200
    then codes "OK"
    else if code == 486
    then codes "BUSY"
    else if code == 501
    then codes "UNIMPLEMENTED"
    else []

-- `SIP_BRANCH_START`.
abbrev pub branch_start : Text
branch_start = codes "z9hG4bK"

-- A request URI that lacks a part is replaced by the To URI.
unfoldable pub with_target : SipPacket → SipPacket
with_target p =
    let replaced = record p { request_uri = p.to_uri } in
    if p.is_request
    then elim p.request_uri.id [
      | none ↦ replaced
      | some id ↦ elim p.request_uri.host [ none ↦ replaced | some host ↦ p ]
    ]
    else p

abbrev pub request_line : ℕ → Text → Text → Text
request_line code id host =
    printed (request_string_of code ∷ codes " sip:" ∷ id ∷ codes "@" ∷ host ∷ codes " SIP/2.0" ∷ [])

abbrev pub response_line : ℕ → Text
response_line code =
    printed (codes "SIP/2.0 " ∷ show_int code ∷ codes " " ∷ response_string_of code ∷ [])

abbrev pub first_line_of : Bool → SipPacket → Option Text
first_line_of true p = do
  id ← p.request_uri.id
  host ← p.request_uri.host
  some (request_line p.request_code id host)
first_line_of false p = some (response_line p.response_code)

unfoldable pub first_line : SipPacket → Option Text
first_line p = first_line_of p.is_request p

abbrev pub branch_part : Option Text → List Text
branch_part none = []
branch_part (some branch) = codes ";branch=" ∷ branch_start ∷ branch ∷ []

abbrev pub via_line_of : Text → Text → ℕ → Option Text → Text
via_line_of transport host port branch = printed (
    codes "Via: SIP/2.0/"
    ∷ transport
    ∷ codes " "
    ∷ host
    ∷ codes ":"
    ∷ show_int port
    ∷ branch_part branch)

unfoldable pub via_line : Via → Option Text
via_line via = do
  transport ← via.transport
  host ← via.host
  some (via_line_of transport host via.port via.branch)

unfoldable pub via_lines : List Via → Option (List Text)
unfolding via_line
via_lines [] = some []
via_lines (via ∷ vias) = do line ← via_line via; lines ← via_lines vias; some (line ∷ lines)

abbrev pub or_empty : Option Text → Text
or_empty none = []
or_empty (some t) = t

abbrev pub tag_part : Option Text → List Text
tag_part none = []
tag_part (some tag) = codes ";tag=" ∷ tag ∷ []

abbrev pub party_line_of : Text → Option Text → Text → Text → Option Text → Text
party_line_of field name id host tag = printed (
    field
    ∷ codes ": "
    ∷ or_empty name
    ∷ codes " <sip:"
    ∷ id
    ∷ codes "@"
    ∷ host
    ∷ codes ">"
    ∷ tag_part tag)

-- The From line and the To line.
unfoldable pub party_line : Text → Option Text → Uri → Option Text → Option Text
party_line field name uri tag = do
  id ← uri.id
  host ← uri.host
  some (party_line_of field name id host tag)

abbrev pub call_line : ℕ → Text → Text
call_line number host = printed (codes "CALL-ID: " ∷ decimal number ∷ codes "@" ∷ host ∷ [])

abbrev pub cseq_line : ℕ → Text → Text
cseq_line code method = printed (codes "CSeq: " ∷ show_int code ∷ codes " " ∷ method ∷ [])

abbrev pub contact_line : Text → Text → Text → Text
contact_line id host transport = printed (
    codes "Contact: <sip:"
    ∷ id
    ∷ codes "@"
    ∷ host
    ∷ codes ";transport="
    ∷ transport
    ∷ codes ">"
    ∷ [])

abbrev pub type_lines : Option Text → List Text
type_lines none = []
type_lines (some t) = printed (codes "Content-Type: " ∷ t ∷ []) ∷ []

abbrev pub length_line : ℕ → Text
length_line n = printed (codes "Content-Length: " ∷ show_int n ∷ [])

-- The lines after the Via fields.
unfoldable pub field_lines : SipPacket → Option (List Text)
unfolding party_line
field_lines p = do
  from ← party_line (codes "From") p.from_name p.from_uri p.from_tag
  to ← party_line (codes "To") p.to_name p.to_uri p.to_tag
  call_host ← p.call_id_host
  method ← p.cseq_method
  id ← p.contact_uri.id
  host ← p.contact_uri.host
  transport ← p.contact_transport
  some (
      from
        ∷ to
        ∷ call_line p.call_id call_host
        ∷ cseq_line p.cseq_code method
        ∷ contact_line id host transport
        ∷ type_lines p.content_type
      ++ length_line p.content_length ∷ [])

-- Every line ends with "\r\n".
unfoldable pub ended : List Text → Text → Text
ended [] s = s
ended (line ∷ lines) s = line ++ b'\r' ∷ b'\n' ∷ ended lines s

-- The content of a packet whose length is not 0.
unfoldable pub body : ℕ → Option Text → Option Text
body zero bytes = some []
body (suc n) none = none
body (suc n) (some bytes) = if ltb (length bytes) (suc n) then none else some (take (suc n) bytes)

-- The text of the message, without its final zero.
unfoldable pub message : SipPacket → Option Text
unfolding first_line via_lines field_lines ended body
message p = do
  first ← first_line p
  vias ← via_lines p.via_list
  fields ← field_lines p
  content ← body p.content_length p.content_data
  some (ended (first ∷ vias ++ fields) (b'\r' ∷ b'\n' ∷ content))

-- The result, the packet, whose request URI may have been replaced, and the bytes written.
pub record Written : Type 0 where
  pub code : ℤ
  pub packet : SipPacket
  pub bytes : List ℕ

-- The end of `write`, with the final zero, which its result counts. The code has no test here: a text
-- that the buffer does not hold is written past its end, which is a fault.
unfoldable pub finished : SipPacket → ℕ → Text → Option Written
finished p len text =
    if ltb len (suc (length text))
    then none
    else some (record { code = pos (suc (length text)); packet = p; bytes = text ++ 0 ∷ [] })

unfoldable pub write : SipPacket → ℕ → Option Written
unfolding with_target message finished
write p len =
    if ltb len 1000
    then some (record { code = negsuc 0; packet = p; bytes = [] })
    else (message (with_target p) >>= finished (with_target p) len)
