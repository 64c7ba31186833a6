-- ===== src/Sip/Reader/Lines.antt =====
-- src/SIP.cpp: the first line, the lines and the whole of `SIPHandler::read`.
use viva_voce.Prelude.{
  ℕ, zero, suc, List, [], ◌∷◌, true, false, not, Option, none, some, ltb, if◌then◌else◌, ◌>>=◌,
  length,
}
use viva_voce.Prelude.Int.{pos}
use viva_voce.Text.{Text, codes, same_word, starts_with, has_prefix, strtok, terminated}
use viva_voce.Sip.{
  SipPacket, method_inv, method_ack, method_bye, method_opt, method_reg, method_cnl,
}
use viva_voce.Sip.Reader.{
  Reader, Step, next, content, failed, Outcome, returned, looping, parse_uri, atoi_at,
  unknown_method, malformed_pack,
}
use viva_voce.Sip.Reader.Parties.{read_via, read_from, read_to}
use viva_voce.Sip.Reader.Fields.{read_cseq, read_contact, read_content_type, read_content_length}

-- The end of the loop's body: the line's outcome, the rest and the line after it, if there is one.
abbrev pub after_line :
    Option Step → Text → Option Text → (Text → Reader → Option Outcome) → Option Outcome
after_line none rest line go = none
after_line (some (failed code r)) rest line go = some (returned code r.packet)
after_line (some (content r)) rest line go =
    some (returned (pos 0) (record r.packet { content_data = some rest }))
after_line (some (next r)) rest none go = some (returned (pos 0) r.packet)
after_line (some (next r)) rest (some line) go = go line r

-- The end of the first line.
abbrev pub after_first : Option Step → (Reader → Option Outcome) → Option Outcome
after_first none go = none
after_first (some (failed code r)) go = some (returned code r.packet)
after_first (some (content r)) go = none
after_first (some (next r)) go = go r

-- The methods, as the chain of comparisons tries them.
abbrev pub methods : List (Text × ℕ)
methods =
    (codes "INVITE", method_inv)
    ∷ (codes "ACK", method_ack)
    ∷ (codes "BYE", method_bye)
    ∷ (codes "OPTIONS", method_opt)
    ∷ (codes "REGISTER", method_reg)
    ∷ (codes "CANCEL", method_cnl)
    ∷ []

unfoldable pub method_in : List (Text × ℕ) → Text → Option ℕ
method_in [] word = none
method_in (m ∷ ms) word =
    let rest = method_in ms word in if same_word m.0 word then some m.1 else rest

-- The C library's `strtod`, which reads the call number.
module _ (strtod : Text → ℕ) where
  abbrev call_number : Option Text → Option ℕ
  call_number none = none
  call_number (some id) = some (strtod id)

  unfoldable pub read_call_id : Text → Reader → Option Step
  unfolding strtok parse_uri
  read_call_id key r = elim ((strtok (codes ":") key).0) [
    | none ↦ some (next r)
    | some line ↦ do
      uri ← parse_uri (some line)
      n ← call_number uri.id
      some (next (record r { packet = record r.packet { call_id = n; call_id_host = uri.host } }))
  ]

  -- The chain of comparisons with the name of the line's field.
  unfoldable pub read_field : Text → Text → Reader → Option Step
  unfolding read_via read_from read_to read_call_id read_cseq read_contact read_content_type
      read_content_length
  read_field name key r =
      if same_word (codes "Via") name
      then read_via key r
      else if same_word (codes "From") name
      then read_from key r
      else if same_word (codes "To") name
      then read_to key r
      else if same_word (codes "CALL-ID") name
      then read_call_id key r
      else if same_word (codes "CSeq") name
      then read_cseq key r
      else if same_word (codes "Contact") name
      then read_contact key r
      else if same_word (codes "Content-Type") name
      then read_content_type key r
      else if same_word (codes "Content-Length") name
      then read_content_length key r
      else some (next r)

  unfoldable pub read_line : Text → Reader → Option Step
  unfolding strtok read_field
  read_line line r =
      let name = strtok (codes ":") line in
      elim name.0 [ none ↦ none | some text ↦ read_field text name.1 r ]

  -- The loop, at a line with the rest after it (`stkLine`).
  unfoldable pub read_lines : ℕ → Text → Text → Reader → Option Outcome
  unfolding strtok read_line
  read_lines zero line rest r = some looping
  read_lines (suc fuel) line rest r =
      let following = strtok (codes "\r\n") rest in
      after_line (read_line line r) rest following.0
        (λ line1 r1. read_lines fuel line1 following.1 r1)

  -- The rest of a request's first line, from the URI on.
  unfoldable pub read_target : Text → Reader → Option Step
  unfolding strtok parse_uri
  read_target rest r =
      let target = strtok (codes " ") rest in
      elim target.0 [
        | none ↦ some (failed malformed_pack r)
        | some text ↦
            let version = strtok (codes " ") target.1 in
            let scheme = strtok (codes ":") text in
            let address = strtok (codes ":") scheme.1 in
            if not (starts_with (codes "sip:") text)
            then some (failed malformed_pack r)
            else elim version.0 [
              | none ↦ none
              | some sip ↦
                  if not (has_prefix (codes "SIP/2.0") sip)
                  then some (failed malformed_pack r)
                  else do
                    uri ← parse_uri address.0
                    some (
                        next (record r {
                          packet = record r.packet { request_uri = uri };
                          field = some address.1;
                        }))
            ]
      ]

  -- The first word of a request, and the method that it names, if there is one.
  abbrev pub with_word : Text → ℕ → Reader → Reader
  with_word word code r = record r {
    packet = record r.packet { is_request = true; request_string = some word; request_code = code };
  }

  unfoldable pub read_method : Text → Option ℕ → Text → Reader → Option Step
  unfolding read_target
  read_method word none rest r = some (failed unknown_method (with_word word 0 r))
  read_method word (some code) rest r = read_target rest (with_word word code r)

  unfoldable pub read_request : Text → Reader → Option Step
  unfolding read_method strtok method_in
  read_request line r =
      let word = strtok (codes " ") line in
      do text ← word.0; read_method text (method_in methods text) word.1 r

  unfoldable pub read_response : Text → Reader → Option Step
  unfolding strtok atoi_at
  read_response line r =
      let version = strtok (codes " ") line in
      let code = strtok (codes " ") version.1 in
      let text = strtok (codes " ") code.1 in
      do
        n ← atoi_at code.0
        some (
            next (record r {
              packet = record r.packet {
                is_request = false;
                response_code = n;
                response_string = text.0;
              };
              field = some text.1;
            }))

  unfoldable pub read_first : Text → Reader → Option Step
  unfolding read_request read_response
  read_first line r =
      if not (has_prefix (codes "SIP/2.0") line) then read_request line r else read_response line r

  -- `SIPHandler::read` of a text and its length. The line that the loop begins with is what the
  -- search for its first word has left of it.
  unfoldable pub read : Text → ℕ → SipPacket → Option Outcome
  unfolding terminated read_lines read_first
  read bytes len pack =
      let first = strtok (codes "\r\n") bytes in
      let r : Reader = record {
        packet = record pack { is_request = false; input = some bytes };
        field = none;
        sub_field = none;
      } in
      if ltb len (length bytes) then none else (do
        line ← first.0
        after_first (read_first line r)
            (λ r1. read_lines (suc (length first.1)) (terminated (codes " ") line) first.1 r1))
