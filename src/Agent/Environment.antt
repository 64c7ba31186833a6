-- ===== src/Agent/Environment.antt =====
-- src/UserAgent.cpp: what the agent calls. The C library's part of it (`malloc`, the resolver) and
-- the other components stand here as operations, so what is proved holds for every choice of them.
use viva_voce.Prelude.{ℕ, List, Bool, Option}
use viva_voce.Text.{Text}
use viva_voce.Pool.{Memo}
use viva_voce.Sip.{SipPacket}

-- The first media description of an SDP packet.
pub record Media : Type 0 where
  pub media : Text
  pub transport : Text
  pub port : ℕ

-- The result of `SDPHandler::read`: an error, or the media descriptions.
pub data Sdp : Type 0 where
  malformed : Sdp
  described : List Media → Sdp

pub record Environment (R : Type 0) : Type 0 where
  pub malloc : ℕ → List ℕ
  pub resolve : Text → Option ℕ
  -- `SIPHandler::read`: whether it returns 0, and the packet that it leaves.
  pub sip_read : Memo → SipPacket → Bool × SipPacket
  -- `SIPHandler::write` into a buffer of a size: its result, as 32 bits, and the bytes.
  pub sip_write : SipPacket → ℕ → ℕ × List ℕ
  pub sdp_read : SipPacket → Sdp
  -- `RTPManager::init`, with or without a statistics file, `close`, and `RTPState::reset`.
  pub rtp_init : Bool → R → R
  pub rtp_close : R → R
  pub rtp_reset : R → R
