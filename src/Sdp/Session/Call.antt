-- ===== src/Sdp/Session/Call.antt =====
-- src/UserAgent.cpp, src/SIP.cpp and src/SDP.cpp: a SIP packet with the session of `init`, written by
-- one side and taken by the other.
use mathlib.Core.List.{append-nil}
use viva_voce.Prelude.{
  ℕ, ◌+◌, ◌<◌, ◌^◌, ◌≡◌, refl, ap, ◌∙◌, sym, [], ◌∷◌, false, some, Option, arith, length, take,
  take-append, ltb-false,
}
use viva_voce.Prelude.Int.{ℤ, pos}
use viva_voce.Text.{Text, codes, strtok}
use viva_voce.Text.Cuts.{IsPlain}
use viva_voce.Sip.{SipPacket}
use viva_voce.Sip.Reader.{returned}
use viva_voce.Sip.Reader.Lines.{read}
use viva_voce.Sip.Writer.{message, body}
use viva_voce.Sip.RoundTrip.Fields.{ReadsBack}
use mathlib.Core.Path.{subst}
use mathlib.Core.Option.{some-injective}
use viva_voce.Sip.RoundTrip.Packets.{tail}
use viva_voce.Sip.RoundTrip.Lines.{rest_of}
use viva_voce.Sip.RoundTrip.Whole.{IsSendable, ReadAs, received, read-message}
use viva_voce.Sdp.{SdpPacket, new_sdp}
use viva_voce.Sdp.Writer.{write}
use viva_voce.Sdp.Session.{own_session}
use viva_voce.Sdp.Session.Written.{owner_of, own_text}
use viva_voce.Sdp.Session.Peer.{with_sdp, check_content-write}
use viva_voce.Agent.{Agent}
use viva_voce.Agent.Environment.{Environment}
use viva_voce.Agent.Receive.{check_content, check_packet, check_via}

-- The content of a packet whose length is that of its data.
pub body-whole : (c : ℕ) (s : Text) → body (length (c ∷ s)) (some (c ∷ s)) ≡ some (c ∷ s)
unfolding body
body-whole c s =
    rw (ltb-false (length (c ∷ s)) (length (c ∷ s)) (omega arith))
      (ap some (ap (take (length (c ∷ s))) (sym (append-nil (c ∷ s))) ∙ take-append (c ∷ s) []))

read_as :
    (strtod : Text → ℕ) (f : Text → SipPacket → SipPacket) (q : SipPacket) (m : Option Text)
    (text : Text)
    → m ≡ some text
    → ReadAs strtod f q m
    → read strtod text (length text) q ≡ some (returned (pos 0) (f text q))
read_as strtod f q m text e h = subst (ReadAs strtod f q) e h

-- What is left of a packet whose content is a text of some length.
pub received-content :
    (p : SipPacket) (c : ℕ) (s bytes : Text) (q : SipPacket)
    → p.content_type ≡ some (codes "application/sdp")
    → p.content_length ≡ length (c ∷ s)
    → let r = received p (c ∷ s) bytes q in
      (r.content_type ≡ some (codes " application/sdp"))
      × (r.content_length ≡ length (c ∷ s))
      × (r.content_data ≡ some (rest_of [] (tail (c ∷ s))))
received-content p c s bytes q t l = rw (t, l) (refl, refl, refl)

module _ {R : Type 0} (env : Environment R) where
  check_packet-content :
      (a b : Agent R)
      → a.sip_recv.content_type ≡ some (codes " application/sdp")
      → check_content env (some (codes "application/sdp")) a ≡ some b
      → check_packet env a ≡ some (check_via b)
  unfolding check_packet strtok check_content check_via
  check_packet-content a b t h = rw (t, h) refl

module _ {R : Type 0} (env : Environment R) where
  -- For a plain user name and numbers below 2 ^ 31, `SDPHandler::write` of the session of `init`
  -- returns the length of the text it writes. If a sendable SIP packet (`IsSendable`) has the type
  -- application/sdp, this length and this text for its content, then what `SIPHandler::write`
  -- prints of it is read by `SIPHandler::read` with the result 0 into any packet; and
  -- `checkPacket` of an agent that has the packet read, and whose `SDPHandler::read` into a packet
  -- that is reset is the one of the source, accepts the content: it does not discard it but for a
  -- missing Via field, and sets the caller's RTP port and the one above it as the remote RTP and
  -- RTCP ports. This holds although the SDP reader loses the last three bytes of the text. Of
  -- `strtod` it is assumed that it reads whole numbers below 2 ^ 53 back that `%.0f` prints.
  pub check_packet-read :
      (absent : Text → ℤ) (inet_addr strtod : Text → ℕ) (sdp : SdpPacket) (username : Text)
      (session_id owner_version port : ℕ) (p q : SipPacket) (bytes : Text) (a : Agent R)
      → let text = own_text (owner_of username session_id owner_version) port in
        ReadsBack strtod
        → IsPlain username
        → session_id < 2 ^ 31
        → owner_version < 2 ^ 31
        → port < 2 ^ 31
        → IsSendable p
        → p.content_type ≡ some (codes "application/sdp")
        → p.content_length ≡ length text
        → p.content_data ≡ some text
        → message p ≡ some bytes
        → let r = received p text bytes q in
          (write (own_session username session_id owner_version port new_sdp)
            ≡ some (pos (length text), text))
          × (read strtod bytes (length bytes) q ≡ some (returned (pos 0) r))
          × (check_packet (with_sdp absent inet_addr env sdp) (record a { sip_recv = r })
              ≡ some (
                  check_via (record a {
                    sip_recv = record r { content_type = some (codes "application/sdp") };
                    discard = false;
                    remote_rtp_port = port;
                    remote_rtcp_port = port + 1;
                  })))
  check_packet-read absent inet_addr strtod sdp username session_id owner_version port p q bytes a
        reads plain i o h w t l d m =
      let text = own_text (owner_of username session_id owner_version) port in
      let r = received p text bytes q in
      let whole : some w.fields.content ≡ some text =
        sym w.fields.content_is ∙ rw (l, d) (body-whole _ _) in
      let kept = received-content p _ _ bytes q t l in
      let checked =
        check_content-write absent inet_addr env sdp username session_id owner_version port
          (record a { sip_recv = r }) plain i o h kept.2 kept.1 in
      (
        checked.0,
        read_as strtod (received p text) q (message p) bytes m (
            subst (λ c. ReadAs strtod (received p c) q (message p)) (some-injective _ _ whole)
              (read-message strtod reads p w q)),
        check_packet-content (with_sdp absent inet_addr env sdp) (record a { sip_recv = r }) _
            kept.0 checked.1,
      )
