-- ===== src/Sip/RoundTrip/Lines.antt =====
-- src/SIP.cpp: the loop of `SIPHandler::read` over lines, one after another.
use viva_voce.Prelude.{
  ℕ, zero, suc, ◌<◌, ◌≡◌, refl, ap, List, ◌∷◌, Option, none, some, true, length, arith,
}
use viva_voce.Prelude.Int.{pos}
use viva_voce.Text.{Text, codes, strtok}
use viva_voce.Text.Cuts.{is_word, tokens, strtok-append, strtok-length}
use viva_voce.Sip.{SipPacket}
use viva_voce.Sip.Reader.{Reader, Step, next, content, failed, returned}
use viva_voce.Sip.Reader.Lines.{read_line, read_lines}
use viva_voce.Sip.Writer.{ended}
use viva_voce.Sip.RoundTrip.Parties.{NextIs}

abbrev pub crlf : Text
crlf = codes "\r\n"

-- A reader at a packet.
abbrev pub at : SipPacket → Option Text → Option Text → Reader
at p field sub = record { packet = p; field = field; sub_field = sub }

-- The rest after a line: the other lines and what follows them.
abbrev pub rest_of : List Text → Text → Text
rest_of lines s = b'\n' ∷ ended lines s

module _ (strtod : Text → ℕ) where
  -- The loop at a line, with the lines after it, returns 0 with the packet, whatever the fuel.
  abbrev pub Ends : Text → Text → Reader → SipPacket → Type 0
  Ends line rest r p =
      (fuel : ℕ)
      → length rest < fuel
      → read_lines strtod fuel line rest r ≡ some (returned (pos 0) p)

  loop-next :
      (line line1 rest1 rest : Text) (r : Reader) (p q : SipPacket) (o : Option Step)
      → read_line strtod line r ≡ o
      → NextIs q o
      → strtok crlf rest ≡ (some line1, rest1)
      → ((field sub : Option Text) → Ends line1 rest1 (at q field sub) p)
      → Ends line rest r p
  unfolding read_lines
  loop-next line line1 rest1 rest r p q o e n t k zero f = absurd (omega arith)
  loop-next line line1 rest1 rest r p q none e n t k (suc fuel) f = absurd n
  loop-next line line1 rest1 rest r p q (some (content r1)) e n t k (suc fuel) f = absurd n
  loop-next line line1 rest1 rest r p q (some (failed code r1)) e n t k (suc fuel) f = absurd n
  loop-next line line1 rest1 rest r p q (some (next r1)) e n t k (suc fuel) f =
      let shorter = strtok-length crlf rest line1 (ap (λ x. x.0) t) in
      let lt : length rest1 < length rest = rw (ap (λ x. x.1) t) at shorter in
      rw (e, t) (rw (← n) at (k r1.field r1.sub_field fuel (omega (arith, lt))))

  pub loop-last :
      (line rest : Text) (r : Reader) (q : SipPacket) (o : Option Step)
      → read_line strtod line r ≡ o
      → NextIs q o
      → (strtok crlf rest).0 ≡ none
      → Ends line rest r q
  unfolding read_lines
  loop-last line rest r q o e n t zero f = absurd (omega arith)
  loop-last line rest r q none e n t (suc fuel) f = absurd n
  loop-last line rest r q (some (content r1)) e n t (suc fuel) f = absurd n
  loop-last line rest r q (some (failed code r1)) e n t (suc fuel) f = absurd n
  loop-last line rest r q (some (next r1)) e n t (suc fuel) f = rw (e, t, n) refl

  pub loop-content :
      (line rest : Text) (r r1 : Reader)
      → read_line strtod line r ≡ some (content r1)
      → Ends line rest r (record r1.packet { content_data = some rest })
  unfolding read_lines
  loop-content line rest r r1 e zero f = absurd (omega arith)
  loop-content line rest r r1 e (suc fuel) f = rw e refl

  token-ended :
      (line : Text) (lines : List Text) (s : Text)
      → is_word crlf line ≡ true
      → strtok crlf (rest_of (line ∷ lines) s) ≡ (some line, rest_of lines s)
  unfolding ended
  token-ended line lines s h = simp (tokens, strtok-append)

  pub loop-lines :
      (line line1 : Text) (lines : List Text) (s : Text) (r : Reader) (p q : SipPacket)
      → is_word crlf line1 ≡ true
      → NextIs q (read_line strtod line r)
      → ((field sub : Option Text) → Ends line1 (rest_of lines s) (at q field sub) p)
      → Ends line (rest_of (line1 ∷ lines) s) r p
  loop-lines line line1 lines s r p q h n k =
      loop-next line line1 (rest_of lines s) (rest_of (line1 ∷ lines) s) r p q _ refl n
        (token-ended line1 lines s h) k
