-- ===== src/Sip/RoundTrip/Whole.antt =====
-- src/SIP.cpp: a whole packet that `SIPHandler::write` prints, read back by `SIPHandler::read`.
use viva_voce.Prelude.{
  ℕ, suc, ◌<◌, ◌^◌, ◌≡◌, refl, List, [], ◌∷◌, ◌++◌, Option, none, some, Bool, true, false, ◌>>=◌,
  length, arith, ltb,
}
use viva_voce.Prelude.Int.{pos}
use viva_voce.Text.{Text, codes, strtok, terminated}
use viva_voce.Text.Cuts.{is_word, tokens, strtok-append}
use viva_voce.Sip.{SipPacket, Via, add_via_field}
use viva_voce.Sip.Reader.{Reader, Outcome, returned, Step, next, content, failed}
use viva_voce.Sip.Reader.Lines.{read_line, read_first, read, after_first}
use viva_voce.Sip.Writer.{
  request_line, response_line, request_string_of, via_line_of, ended, type_lines, message,
  first_line, first_line_of, via_line, via_lines, branch_start,
}
use viva_voce.Sip.RoundTrip.Parties.{NextIs, via_line-NextIs}
use viva_voce.Sip.RoundTrip.Fields.{ReadsBack}
use viva_voce.Sip.RoundTrip.Lines.{crlf, at, Ends, rest_of, loop-lines}
use viva_voce.Sip.RoundTrip.First.{
  Method, with_response, request_line-NextIs, response_line-NextIs, request_string-turn,
  response_turn,
}
use viva_voce.Sip.RoundTrip.Words.{via_line-word, request_line-word, response_line-word}
use viva_voce.Sip.RoundTrip.Packets.{
  IsWritable, Word, fields-Ends, field_lines-writable, after_contact_lem, with_fields, with_type,
  with_length, tail, copied, from, to, call, cseq, contact, ending,
}

pub record WritableVia (v : Via) : Type 0 where
  pub transport : Word v.transport
  pub host : Word v.host
  pub port_small : v.port < 2 ^ 31
  pub branch : Word v.branch

abbrev pub WritableVias : List Via → Type 0
WritableVias [] = Unit
WritableVias (v ∷ vs) = WritableVia v × WritableVias vs

-- The Via field that is read; the writer puts the branch's beginning before the branch.
abbrev pub read_back : Via → Via
read_back v = record {
  is_auto = true;
  transport = v.transport;
  host = v.host;
  port = v.port;
  branch = v.branch >>= λ branch. some (branch_start ++ branch);
}

abbrev pub with_vias : List Via → SipPacket → SipPacket
with_vias [] q = q
with_vias (v ∷ vs) q = with_vias vs (add_via_field (read_back v) q)

abbrev via_text : (v : Via) → WritableVia v → Text
via_text v w = via_line_of w.transport.text w.host.text v.port (some w.branch.text)

abbrev via_texts : (vs : List Via) → WritableVias vs → List Text
via_texts [] w = []
via_texts (v ∷ vs) w = via_text v w.0 ∷ via_texts vs w.1

via_lines-texts : (vs : List Via) (w : WritableVias vs) → via_lines vs ≡ some (via_texts vs w)
unfolding via_lines via_line
via_lines-texts [] w = refl
via_lines-texts (v ∷ vs) w =
    rw (w.0.transport.is, w.0.host.is, w.0.branch.is, via_lines-texts vs w.1) refl

pub read_via_back :
    (strtod : Text → ℕ) (v : Via) (u : WritableVia v) (r : Reader)
    → NextIs (add_via_field (read_back v) r.packet) (read_line strtod (via_text v u) r)
read_via_back strtod v u r =
    rw (u.transport.is, u.host.is, u.branch.is)
      (via_line-NextIs strtod u.transport.text u.host.text v.port u.branch.text r u.transport.plain
        u.host.plain u.port_small u.branch.plain)

module _ (strtod : Text → ℕ) (reads : ReadsBack strtod) (p : SipPacket) (w : IsWritable p) where
  abbrev fields : List Text
  fields =
      from strtod reads p w
        ∷ to strtod reads p w
        ∷ call strtod reads p w
        ∷ cseq strtod reads p w
        ∷ contact strtod reads p w
        ∷ type_lines p.content_type
      ++ ending strtod reads p w

  abbrev pub finished : SipPacket → SipPacket
  finished q = with_length p.content_length w.content (with_type p.content_type (with_fields p q))

  vias-Ends :
      (vs : List Via) (u : WritableVias vs) (line : Text) (r : Reader) (q : SipPacket)
      → NextIs q (read_line strtod line r)
      → Ends strtod line
          (rest_of (via_texts vs u ++ fields) (tail w.content))
          r
          (finished (with_vias vs q))
  vias-Ends [] u line r q n =
      rw (after_contact_lem strtod reads p w q) at (fields-Ends strtod reads p w line r q n)
  vias-Ends (v ∷ vs) u line r q n =
      loop-lines strtod line (via_text v u.0) (via_texts vs u.1 ++ fields) (tail w.content) r _ q
        (via_line-word u.0.transport.text u.0.host.text v.port u.0.branch.text u.0.transport.plain
          u.0.host.plain u.0.port_small u.0.branch.plain)
        n
        (λ f1 s1.
          vias-Ends vs u.1 (via_text v u.0) (at q f1 s1) _
            (read_via_back strtod v u.0 (at q f1 s1)))

-- The first line: a request that the reader knows, with its URI, or a response.
abbrev pub WritableFirst : Bool → SipPacket → Type 0
WritableFirst true p = Method p.request_code × Word p.request_uri.id × Word p.request_uri.host
WritableFirst false p = p.response_code < 2 ^ 31

abbrev pub with_first : Bool → SipPacket → SipPacket → SipPacket
with_first true p q = record q {
  is_request = true;
  request_code = p.request_code;
  request_string = some (request_string_of p.request_code);
  request_uri = copied p.request_uri;
}
with_first false p q = with_response p.response_code q

-- The packet after the first line and the Via fields.
abbrev pub before_fields : SipPacket → Text → SipPacket → SipPacket
before_fields p text q =
    with_vias p.via_list
      (with_first p.is_request p (record q { is_request = false; input = some text }))

-- The packet that is read: what the message holds of the packet written, and the rest as it was.
abbrev pub received : SipPacket → Text → Text → SipPacket → SipPacket
received p bytes text q =
    with_length p.content_length bytes
      (with_type p.content_type (with_fields p (before_fields p text q)))

-- A text is read without an error, and this packet is left.
abbrev pub ReadAs : (Text → ℕ) → (Text → SipPacket → SipPacket) → SipPacket → Option Text → Type 0
ReadAs strtod result q none = ⊥
ReadAs strtod result q (some text) =
    read strtod text (length text) q ≡ some (returned (pos 0) (result text q))

ltb_self : (n : ℕ) → ltb n n ≡ false
ltb_self n = ground arith

strtok-ended :
    (line : Text) (lines : List Text) (s : Text)
    → is_word crlf line ≡ true
    → strtok crlf (ended (line ∷ lines) s) ≡ (some line, rest_of lines s)
unfolding ended
strtok-ended line lines s h = simp (tokens, strtok-append)

first-then :
    (strtod : Text → ℕ) (p : SipPacket) (o : Option Step) (go : Reader → Option Outcome)
    {out : Option Outcome}
    → NextIs p o
    → ((r1 : Reader) → r1.packet ≡ p → go r1 ≡ out)
    → after_first o go ≡ out
first-then strtod p none go n k = absurd n
first-then strtod p (some (next r1)) go n k = k r1 n
first-then strtod p (some (content r1)) go n k = absurd n
first-then strtod p (some (failed code r1)) go n k = absurd n

-- The text begins with a line that is read, and after it come the lines that are left.
read-first :
    (strtod : Text → ℕ) (first : Text) (lines : List Text) (s : Text) (q p1 pf : SipPacket)
    → is_word crlf first ≡ true
    → NextIs p1 (
        read_first strtod first
          (at (record q { is_request = false; input = some (ended (first ∷ lines) s) }) none none))
    → ((r : Reader) → read_line strtod (terminated (codes " ") first) r ≡ some (next r))
    → ((line : Text) (r : Reader)
        → NextIs p1 (read_line strtod line r)
        → Ends strtod line (rest_of lines s) r pf)
    → read strtod (ended (first ∷ lines) s) (length (ended (first ∷ lines) s)) q
      ≡ some (returned (pos 0) pf)
unfolding read
read-first strtod first lines s q p1 pf h n t k =
    rw (ltb_self (length (ended (first ∷ lines) s)), strtok-ended first lines s h)
      (first-then strtod _ _ _ n (λ r1 e.
        k (terminated (codes " ") first) r1 (rw (t r1) e) (suc (length (rest_of lines s)))
          (omega arith)))

-- A packet that the writer prints without a fault and that the reader can read.
pub record IsSendable (p : SipPacket) : Type 0 where
  pub first : WritableFirst p.is_request p
  pub vias : WritableVias p.via_list
  pub fields : IsWritable p

first_text : (b : Bool) (p : SipPacket) → WritableFirst b p → Text
first_text true p w = request_line p.request_code w.1.text w.2.text
first_text false p w = response_line p.response_code

first_line-text :
    (b : Bool) (p : SipPacket) (w : WritableFirst b p) → first_line_of b p ≡ some (first_text b p w)
unfolding first_text
first_line-text true p w = rw (w.1.is, w.2.is) refl
first_line-text false p w = refl

first_text-word :
    (b : Bool) (p : SipPacket) (w : WritableFirst b p) → is_word crlf (first_text b p w) ≡ true
unfolding first_text
first_text-word true p w =
    request_line-word p.request_code w.1.text w.2.text w.0 w.1.plain w.2.plain
first_text-word false p w = response_line-word p.response_code w

first_text-NextIs :
    (strtod : Text → ℕ) (b : Bool) (p : SipPacket) (w : WritableFirst b p) (r : Reader)
    → NextIs (with_first b p r.packet) (read_first strtod (first_text b p w) r)
unfolding first_text
first_text-NextIs strtod true p w r =
    rw (w.1.is, w.2.is)
      (request_line-NextIs strtod p.request_code w.1.text w.2.text r w.0 w.1.plain w.2.plain)
first_text-NextIs strtod false p w r = response_line-NextIs strtod p.response_code r w

first_text-turn :
    (strtod : Text → ℕ) (b : Bool) (p : SipPacket) (w : WritableFirst b p) (r : Reader)
    → read_line strtod (terminated (codes " ") (first_text b p w)) r ≡ some (next r)
unfolding first_text
first_text-turn strtod true p w r =
    request_string-turn strtod p.request_code w.1.text w.2.text r w.0
first_text-turn strtod false p w r = response_turn strtod p.response_code r

module _ (strtod : Text → ℕ) (reads : ReadsBack strtod) (p : SipPacket) (w : IsSendable p) where
  message-sendable :
      message p
      ≡ some (
          ended
            (first_text p.is_request p w.first ∷ via_texts p.via_list w.vias
              ++ fields strtod reads p w.fields)
            (tail w.fields.content))
  unfolding message first_line
  message-sendable =
      rw
        (
          first_line-text p.is_request p w.first,
          via_lines-texts p.via_list w.vias,
          field_lines-writable strtod reads p w.fields,
          w.fields.content_is,
        )
        refl

  -- The text that `SIPHandler::write` prints of a sendable packet is read by `SIPHandler::read`
  -- into any packet with the result 0: it leaves what the text holds of the packet written (the
  -- first line, the Via, From, To, Call-ID, CSeq and Contact fields, the content's type and length
  -- and the content), and of the packet read into what the text lacks. A packet is sendable
  -- (`IsSendable`) if it is a request of a known method or a response, the texts of its fields are
  -- there and plain, its numbers fit, and its Via fields have branches; a branch is read with
  -- `z9hG4bK` before it, and the content with the end of its blank line. Of `strtod` it is assumed
  -- that it reads whole numbers below 2 ^ 53 back that `%.0f` prints.
  pub read-message : (q : SipPacket) → ReadAs strtod (received p w.fields.content) q (message p)
  read-message q = rw message-sendable (
      read-first strtod (first_text p.is_request p w.first)
        (via_texts p.via_list w.vias ++ fields strtod reads p w.fields) (tail w.fields.content) q _
        _ (first_text-word p.is_request p w.first)
        (first_text-NextIs strtod p.is_request p w.first _)
        (first_text-turn strtod p.is_request p w.first)
        (λ line r. vias-Ends strtod reads p w.fields p.via_list w.vias line r _))
