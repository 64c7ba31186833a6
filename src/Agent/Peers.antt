-- ===== src/Agent/Peers.antt =====
-- src/UserAgent.cpp with src/SIP.cpp and src/SDP.cpp: an agent that reads by `SIPHandler::read` and
-- `SDPHandler::read` what the writers of the same code have printed for its peers.
mod Offers
mod Tests
use viva_voce.Prelude.{
  ℕ, zero, suc, ◌≡◌, refl, ap, sym, ◌∙◌, Bool, true, false, List, [], ◌∷◌, Option, none, some,
  length, ◌>>=◌, ◌≢◌, ◌⊎◌, arith,
}
use viva_voce.Prelude.Int.{ℤ, pos, negsuc}
use viva_voce.Text.{Text, codes, strtok}
use viva_voce.Text.Cuts.{strtok-skip}
use viva_voce.Pool.{Memo}
use viva_voce.Sip.{SipPacket}
use viva_voce.Sip.Reader.{Outcome, returned, looping}
use viva_voce.Sip.Reader.Lines.{read}
use viva_voce.Sip.Writer.{message}
use viva_voce.Sip.RoundTrip.Fields.{ReadsBack}
use viva_voce.Sip.RoundTrip.Packets.{with_length, with_type, with_fields}
use viva_voce.Sip.RoundTrip.Whole.{IsSendable, ReadAs, received, read-message, before_fields}
use viva_voce.Agent.{Agent}
use viva_voce.Agent.Environment.{Environment}
use viva_voce.Agent.Run.{vivoce_sip_rcvd}
use viva_voce.Agent.Invariant.{IsComplete, is_offer}
use viva_voce.Agent.Peers.Offers.{IsOwnOffer, received-IsComplete}
use viva_voce.Sdp.{SdpPacket}
use viva_voce.Sdp.Session.Peer.{with_sdp}

-- The result 0 and the packet of a reading, as the agent sees it.
abbrev pub seen : Outcome → SipPacket → Bool × SipPacket
seen (returned (pos zero) p) q = (true, p)
seen (returned (pos (suc n)) p) q = (false, p)
seen (returned (negsuc n) p) q = (false, p)
seen looping q = (false, q)

module _ (strtod : Text → ℕ) {R : Type 0} (env : Environment R) where
  -- The agent reads a memo as the code reads the text that was written of a packet.
  abbrev pub Reads : Memo → SipPacket → Type 0
  Reads memo p =
      (q : SipPacket)
      → ((message p >>= λ text. read strtod text (length text) q) >>= λ out. some (seen out q))
        ≡ some (env.sip_read memo q)

  -- What comes to an agent whose peers write their packets by this code: nothing, a command, or the
  -- message of a sendable packet, which holds an agent's own session if it is an INVITE or an OK.
  pub data FromPeers : ℕ × Option Memo → Type 0 where
    idle : (draw : ℕ) → FromPeers (draw, none)
    command : (draw : ℕ) (memo : Memo) → memo.code ≢ vivoce_sip_rcvd → FromPeers (draw, some memo)
    message_of :
        (draw : ℕ) (memo : Memo) (p : SipPacket)
        → IsSendable p
        → (is_offer p ≡ true → IsOwnOffer p)
        → Reads memo p
        → FromPeers (draw, some memo)

  pub data AllFromPeers : List (ℕ × Option Memo) → Type 0 where
    nothing_more : AllFromPeers []
    and_then :
        (e : ℕ × Option Memo) (es : List (ℕ × Option Memo))
        → FromPeers e
        → AllFromPeers es
        → AllFromPeers (e ∷ es)

module _ (absent : Text → ℤ) (inet_addr : Text → ℕ) {R : Type 0} (env : Environment R)
    (sdp : SdpPacket) where
  -- The packet that is left of a reading without a fault.
  abbrev pub LeavesComplete : Option Outcome → Type 0
  LeavesComplete (some (returned (pos zero) p)) = IsComplete (with_sdp absent inet_addr env sdp) p
  LeavesComplete _ = ⊥

  left :
      (strtod : Text → ℕ) (result : Text → SipPacket → SipPacket) (q : SipPacket) (o : Option Text)
      → ReadAs strtod result q o
      → ((text : Text) → IsComplete (with_sdp absent inet_addr env sdp) (result text q))
      → LeavesComplete (o >>= λ text. read strtod text (length text) q)
  left strtod result q none r c = r
  left strtod result q (some text) r c = rw r (c text)

  pub read-IsComplete :
      (strtod : Text → ℕ) (reads : ReadsBack strtod) (p q : SipPacket)
      → IsSendable p
      → (is_offer p ≡ true → IsOwnOffer p)
      → LeavesComplete (message p >>= λ text. read strtod text (length text) q)
  read-IsComplete strtod reads p q w h =
      left strtod (received p w.fields.content) q (message p) (read-message strtod reads p w q)
        (λ text. received-IsComplete absent inet_addr env sdp p w text q h)
