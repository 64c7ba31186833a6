-- ===== src/Sdp/Session/Peer.antt =====
-- src/UserAgent.cpp and src/SDP.cpp: `checkPacket` of a peer that has got the session of `init`.
use viva_voce.Prelude.{
  ℕ, suc, ◌+◌, ◌-◌, ◌<◌, ◌≤◌, ◌^◌, ◌≡◌, refl, ap, ◌∙◌, [], ◌∷◌, true, false, some, none, Option,
  arith, length, take, drop, ltb-true,
}
use viva_voce.Prelude.Int.{ℤ, pos}
use viva_voce.Text.{Text, codes, strtok, starts_with}
use viva_voce.Text.Cuts.{IsPlain}
use viva_voce.Sip.{SipPacket}
use viva_voce.Sdp.{SdpPacket, new_sdp, reset}
use viva_voce.Sdp.Writer.{write}
use viva_voce.Sdp.Reader.{read, read_lines, start}
use viva_voce.Sdp.Session.{own_session}
use viva_voce.Sdp.Session.Lines.{texts_of, more, read_lines-through}
use viva_voce.Sdp.Session.Written.{
  owner_of, own_lines, own_text, attribute_start, write-own_session,
}
use viva_voce.Sdp.Session.Heard.{described_by, read_lines-skip, seen, said, session_told}
use viva_voce.Sip.RoundTrip.Lines.{rest_of}
use viva_voce.Sip.RoundTrip.Packets.{tail}
use viva_voce.Agent.{Agent}
use viva_voce.Agent.Environment.{Environment, Sdp, malformed}
use viva_voce.Agent.Receive.{accept_sdp, accept_media, check_content, has_sdp}
use viva_voce.Sdp.Session.Received.{texts_of-length, own_lines-fine, take_behind, text_lines}

abbrev or_malformed : Option Text → (Text → Sdp) → Sdp
or_malformed none read = malformed
or_malformed (some bytes) read = read bytes

pub has_sdp-sized :
    (p : SipPacket)
    → p.content_type ≡ some (codes "application/sdp")
    → 0 < p.content_length
    → has_sdp p ≡ some true
unfolding starts_with
has_sdp-sized p t h = rw (t, ltb-true 0 p.content_length h) refl

-- `SDPHandler::read` of the content of a SIP packet, into `sdpPackRecv` after `reset`, as an operation
-- of an environment. That has no fault: a null pointer and a fault of the reader stand here for a
-- malformed packet.
module _ (absent : Text → ℤ) (inet_addr : Text → ℕ) where
  abbrev pub sdp_of : SdpPacket → SipPacket → Sdp
  sdp_of q p =
      or_malformed p.content_data
        (λ bytes. described_by (read absent inet_addr bytes p.content_length (reset q)))

  kept_said :
      (username : Text) (session_id owner_version port : ℕ) (p : SdpPacket)
      → IsPlain username
      → port < 2 ^ 31
      → p.medias ≡ []
      → p.n_conn_info ≡ 0
      → let lines = own_lines (owner_of username session_id owner_version) port in
        let copied = b'\n' ∷ b'\r' ∷ texts_of lines attribute_start in
        described_by (read_lines absent inet_addr (suc (length copied)) copied start p) ≡ said port
  unfolding seen
  kept_said username session_id owner_version port p plain h empty none_yet =
      let lines = own_lines (owner_of username session_id owner_version) port in
      let kept = texts_of lines attribute_start in
      let big : 30 ≤ length kept = texts_of-length lines attribute_start in
      let fuel = length kept - 9 in
      let sized : suc (length (b'\n' ∷ b'\r' ∷ kept)) ≡ more lines (suc (suc fuel)) =
        omega (arith, big) in
      ap described_by (
        read_lines-skip absent inet_addr b'\n' (b'\r' ∷ kept) _ start p refl
        ∙ read_lines-skip absent inet_addr b'\r' kept _ start p refl
        ∙ ap (λ n. read_lines absent inet_addr n kept start p) sized
        ∙ read_lines-through absent inet_addr lines attribute_start (suc (suc fuel)) start p
            (own_lines-fine username session_id owner_version port plain))
      ∙ session_told absent inet_addr fuel username session_id owner_version port p plain h empty
          none_yet

  read_as :
      (bytes copied : Text) (len : ℕ) (p : SdpPacket)
      → take len bytes ≡ copied
      → read absent inet_addr bytes len p
        ≡ read_lines absent inet_addr
            (suc (length copied))
            copied
            start
            (record p { input = some copied })
  unfolding read
  read_as bytes copied len p e =
      ap
        (λ (c : Text).
          read_lines absent inet_addr (suc (length c)) c start (record p { input = some c }))
        e

  pub own_session-said :
      (q : SdpPacket) (username : Text) (session_id owner_version port : ℕ)
      → IsPlain username
      → port < 2 ^ 31
      → let text = own_text (owner_of username session_id owner_version) port in
        described_by (read absent inet_addr (rest_of [] (tail text)) (length text) (reset q))
        ≡ said port
  unfolding reset
  own_session-said q username session_id owner_version port plain h =
      let owner = owner_of username session_id owner_version in
      let text = own_text owner port in
      let kept = texts_of (own_lines owner port) attribute_start in
      let copied = b'\n' ∷ b'\r' ∷ kept in
      ap described_by (
        read_as _ _ (length text) (reset q)
          (take_behind text kept (codes "0\r\n") (text_lines owner port) refl))
      ∙ kept_said username session_id owner_version port (record (reset q) { input = some copied })
          plain h refl refl

  module _ {R : Type 0} (env : Environment R) where
    -- The environment of an agent whose `SDPHandler::read` is the one that is modelled.
    abbrev pub with_sdp : SdpPacket → Environment R
    with_sdp q = record env { sdp_read = sdp_of q }

    content_checked :
        (t : Option Text) (a : Agent R)
        → let p = record a.sip_recv { content_type = t } in
          has_sdp p ≡ some true
          → check_content env t a
            ≡ accept_sdp (env.sdp_read p) (record a { discard = true; sip_recv = p })
    unfolding check_content
    content_checked t a h = rw h refl

    accept_sdp-said :
        (port : ℕ) (a : Agent R)
        → accept_sdp (said port) a
          ≡ some (record a { remote_rtp_port = port; remote_rtcp_port = port + 1; discard = false })
    unfolding accept_sdp accept_media strtok starts_with
    accept_sdp-said port a = refl

  module _ {R : Type 0} (env : Environment R) where
    -- The text is written, and a peer with a packet that holds it takes its ports.
    pub check_content-write :
        (q : SdpPacket) (username : Text) (session_id owner_version port : ℕ) (a : Agent R)
        → let text = own_text (owner_of username session_id owner_version) port in
          let p = record a.sip_recv { content_type = some (codes "application/sdp") } in
          IsPlain username
          → session_id < 2 ^ 31
          → owner_version < 2 ^ 31
          → port < 2 ^ 31
          → a.sip_recv.content_data ≡ some (rest_of [] (tail text))
          → a.sip_recv.content_length ≡ length text
          → (write (own_session username session_id owner_version port new_sdp)
              ≡ some (pos (length text), text))
            × (check_content (with_sdp env q) (some (codes "application/sdp")) a
                ≡ some (record a {
                  sip_recv = p;
                  discard = false;
                  remote_rtp_port = port;
                  remote_rtcp_port = port + 1;
                }))
    check_content-write q username session_id owner_version port a plain i o h d l =
        let text = own_text (owner_of username session_id owner_version) port in
        let p = record a.sip_recv { content_type = some (codes "application/sdp") } in
        let size : length text ≡ suc (length (drop 1 text)) = refl in
        let sdp = has_sdp-sized p refl (omega (arith, l, size)) in
        let heard : sdp_of q p ≡ said port =
          rw (d, l) (own_session-said q username session_id owner_version port plain h) in
        (
          write-own_session username session_id owner_version port i o h,
          content_checked (with_sdp env q) (some (codes "application/sdp")) a sdp
              ∙ ap (λ s. accept_sdp s (record a { discard = true; sip_recv = p })) heard
              ∙ accept_sdp-said env port _,
        )
