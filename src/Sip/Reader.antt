-- ===== src/Sip/Reader.antt =====
-- src/SIP.cpp: `parseURI`, and the state of `SIPHandler::read`. What the buffer holds at a pointer is
-- the text there: each text is cut out of the one before it, so no step changes a text that is still
-- looked at. A null pointer that is looked at, and the pointer that `parseURI` leaves unset, are
-- faults.
pub mod Parties
pub mod Fields
pub mod Lines
use viva_voce.Prelude.{
  ℕ, zero, suc, List, [], ◌∷◌, ◌++◌, Bool, true, false, not, ◌&&◌, Option, none, some, ltb, ◌==◌,
  if◌then◌else◌, ◌>>=◌, length,
}
use viva_voce.Prelude.Int.{ℤ, pos, negsuc}
use viva_voce.Text.{Text, codes, same_word, starts_with, has_prefix, strtok, strtok_r, terminated}
use viva_voce.Text.Decimal.{atoi}
use viva_voce.Sip.{
  SipPacket, Uri, Via, add_via_field, method_inv, method_ack, method_bye, method_opt, method_reg,
  method_cnl,
}

-- `SIP_ERR_…`.
abbrev pub unknown_method : ℤ
unknown_method = negsuc 25

abbrev pub unknown_field : ℤ
unknown_field = negsuc 26

abbrev pub unknown_uri : ℤ
unknown_uri = negsuc 27

abbrev pub malformed_pack : ℤ
malformed_pack = negsuc 28

-- The packet, `stkField` and `stkSubField`.
pub record Reader : Type 0 where
  pub packet : SipPacket
  pub field : Option Text
  pub sub_field : Option Text

-- After a line: the next one, the end of the packet (`break`), or an error.
pub data Step : Type 0 where
  next : Reader → Step
  content : Reader → Step
  failed : ℤ → Reader → Step

-- What `read` returns, and the packet that it leaves; or the fuel was too little for the lines.
pub data Outcome : Type 0 where
  returned : ℤ → SipPacket → Outcome
  looping : Outcome

unfoldable pub parse_uri : Option Text → Option Uri
unfolding strtok
parse_uri none = none
parse_uri (some line) =
    let id = strtok (codes "@") line in
    let host = strtok (codes "@") id.1 in some (record { id = id.0; host = host.0 })

-- `CMP(a, b)` of a text and a pointer.
unfoldable pub compare_word : Text → Option Text → Option Bool
compare_word a none = none
compare_word a (some b) = some (same_word a b)

unfoldable pub atoi_at : Option Text → Option ℕ
atoi_at none = none
atoi_at (some s) = some (atoi s)
