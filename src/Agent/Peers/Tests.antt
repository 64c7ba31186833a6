-- ===== src/Agent/Peers/Tests.antt =====
-- src/UserAgent.cpp with src/SIP.cpp: an agent that a peer calls.
use viva_voce.Prelude.{
  ℕ, ◌==◌, if◌then◌else◌, List, [], ◌∷◌, Bool, false, Option, none, some, length, ◌>>=◌,
}
use viva_voce.Text.Decimal.{atol}
use viva_voce.Pool.{Memo}
use viva_voce.Sip.{SipPacket, method_inv, method_ack, method_bye}
use viva_voce.Sip.Reader.{Outcome}
use viva_voce.Sip.Reader.Lines.{read}
use viva_voce.Sip.Writer.{message}
use viva_voce.Sip.Tests.{call}
use viva_voce.Agent.Environment.{Environment}
use viva_voce.Agent.Run.{vivoce_sip_rcvd, vivoce_sip_accept}
use viva_voce.Sdp.Session.Tests.{offer}
use viva_voce.Agent.Tests.{env, memo_of}
use viva_voce.Agent.Peers.{seen}

-- A request of the same call without content.
abbrev bare : ℕ → SipPacket
bare code = record call {
  request_code = code;
  content_type = none;
  content_length = 0;
  content_data = none;
}

abbrev read_written : SipPacket → SipPacket → Option Outcome
read_written p q = message p >>= λ text. read atol text (length text) q

abbrev or_dropped : Option Outcome → SipPacket → Bool × SipPacket
or_dropped none q = (false, q)
or_dropped (some out) q = seen out q

-- The packet that a memo stands for: `data1` is its request.
abbrev packet_of : Memo → SipPacket
packet_of memo = if memo.data1 == method_inv then offer else bare memo.data1

abbrev env_called : Environment ℕ
env_called = record env { sip_read = λ memo q. or_dropped (read_written (packet_of memo) q) q }

abbrev memo_with : ℕ → Memo
memo_with code = memo_of vivoce_sip_rcvd code 9

-- A call comes in, is accepted and acknowledged, and is ended by the peer.
abbrev events : List (ℕ × Option Memo)
events =
    (0, some (memo_with method_inv))
    ∷ (0, some (memo_of vivoce_sip_accept 0 0))
    ∷ (0, some (memo_with method_ack))
    ∷ (0, some (memo_with method_bye))
    ∷ (0, none)
    ∷ []
