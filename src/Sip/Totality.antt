-- ===== src/Sip/Totality.antt =====
-- src/SIP.cpp: the loop of `SIPHandler::read` ends.
use viva_voce.Prelude.{
  ℕ, zero, suc, ◌<◌, ◌≡◌, ◌≢◌, refl, Option, none, some, Bool, true, false, length, ltb, arith,
  if◌then◌else◌, ◌>>=◌,
}
use viva_voce.Text.{Text, codes, strtok, terminated}
use viva_voce.Text.Cuts.{strtok-length}
use viva_voce.Sip.{SipPacket}
use viva_voce.Sip.Reader.{Reader, Step, next, content, failed, Outcome, looping}
use viva_voce.Sip.Reader.Lines.{read, read_lines, read_line, after_line, after_first}

after_line-ends :
    (o : Option Step) (rest : Text) (line : Option Text) (go : Text → Reader → Option Outcome)
    → ((text : Text) (r : Reader) → line ≡ some text → go text r ≢ some looping)
    → after_line o rest line go ≢ some looping
after_line-ends none rest line go h = λ e. cc
after_line-ends (some (failed code r)) rest line go h = λ e. cc
after_line-ends (some (content r)) rest line go h = λ e. cc
after_line-ends (some (next r)) rest none go h = λ e. cc
after_line-ends (some (next r)) rest (some text) go h = h text r refl

module _ (strtod : Text → ℕ) where
  read_lines-ends :
      (fuel : ℕ) (line rest : Text) (r : Reader)
      → length rest < fuel
      → read_lines strtod fuel line rest r ≢ some looping
  unfolding read_lines
  read_lines-ends zero line rest r h = absurd (omega arith)
  read_lines-ends (suc fuel) line rest r h =
      after_line-ends (read_line strtod line r) rest _ _ (λ text r1 e.
        read_lines-ends fuel text _ r1 (omega (arith, strtok-length (codes "\r\n") rest text e)))

  after_first-ends :
      (o : Option Step) (go : Reader → Option Outcome)
      → ((r : Reader) → go r ≢ some looping)
      → after_first o go ≢ some looping
  after_first-ends none go h = λ e. cc
  after_first-ends (some (failed code r)) go h = λ e. cc
  after_first-ends (some (content r)) go h = λ e. cc
  after_first-ends (some (next r)) go h = h r

  bind-ends :
      (o : Option Text) (go : Text → Option Outcome)
      → ((line : Text) → go line ≢ some looping)
      → (o >>= go) ≢ some looping
  bind-ends none go h = λ e. cc
  bind-ends (some line) go h = h line

  guard-ends :
      (b : Bool) (o : Option Outcome) → o ≢ some looping → (if b then none else o) ≢ some looping
  guard-ends true o h = λ e. cc
  guard-ends false o h = h

  -- The loop over the lines of `SIPHandler::read` ends for any text and packet: with one round of
  -- fuel more than the text after the first line has bytes it never runs out.
  pub read-terminates :
      (bytes : Text) (len : ℕ) (q : SipPacket) → read strtod bytes len q ≢ some looping
  unfolding read
  read-terminates bytes len q = guard-ends (ltb len (length bytes)) _ (
      bind-ends (strtok (codes "\r\n") bytes).0 _ (λ line. after_first-ends _ _ (λ r1.
        read_lines-ends (suc (length (strtok (codes "\r\n") bytes).1)) (terminated (codes " ") line)
          (strtok (codes "\r\n") bytes).1 r1 (omega arith))))
