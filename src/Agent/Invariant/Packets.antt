-- ===== src/Agent/Invariant/Packets.antt =====
-- src/UserAgent.cpp: what `run` does with a packet keeps the invariant.
use viva_voce.Prelude.{
  ◌≡◌, refl, Bool, true, false, ◌&&◌, ◌==◌, ◌∙◌, Bool-cases, inl, inr, Option, none, some, [], ◌∷◌,
  if◌then◌else◌, ◌>>=◌, arith,
}
use viva_voce.Text.{codes, Text, strtok}
use viva_voce.Pool.{Memo}
use viva_voce.Sip.{SipPacket, Uri, reset, method_inv, response_ok}
use viva_voce.Agent.{
  Agent, State, disconnected, sent_inv, rcvd_inv, sent_bye, accepted, rejected, in_call,
}
use viva_voce.Agent.Environment.{Environment, Sdp, malformed, described}
use viva_voce.Agent.Send.{transmit, send_ok, send_ack, send_busy, send_ringing}
use viva_voce.Agent.Receive.{
  has_sdp, release, cleanup, free_host, same_call, accept_media, accept_sdp, check_via,
  check_content, check_packet, ring, on_disconnected, take_invite, take_ok, connect, on_response,
  on_sent_inv, on_sent_bye, on_accepted, on_rejected, on_in_call, on_packet, check_source,
}
use viva_voce.Agent.Run.{on_received}
use viva_voce.Agent.Invariant.{
  is_some, Inv, Keeps, KeepsContact, IsComplete, ReadsComplete, media_complete, if_read,
  content_complete, type_complete,
}

module _ {R : Type 0} (env : Environment R) where
  -- What a check leaves alone.
  pub record Checked (a b : Agent R) : Type 0 where
    pub control : b.control ≡ a.control
    pub remote_host : b.remote_host ≡ a.remote_host
    pub contact : b.sip_recv.contact_uri ≡ a.sip_recv.contact_uri
    pub call_host : b.sip_recv.call_id_host ≡ a.sip_recv.call_id_host

  abbrev pub Checks : Agent R → Option (Agent R) → Type 0
  Checks a none = ⊥
  Checks a (some b) = Checked a b

  accept_sdp-Checks :
      (sdp : Sdp) (a : Agent R) → media_complete sdp ≡ true → Checks a (accept_sdp sdp a)
  unfolding accept_sdp accept_media
  accept_sdp-Checks malformed a m = record {
    control = refl;
    remote_host = refl;
    contact = refl;
    call_host = refl;
  }
  accept_sdp-Checks (described []) a m = record {
    control = refl;
    remote_host = refl;
    contact = refl;
    call_host = refl;
  }
  accept_sdp-Checks (described (d ∷ rest)) a m = ground arith

  check_via-Checked : (a : Agent R) → Checked a (check_via a)
  unfolding check_via
  check_via-Checked a = ground arith

  then_check_via :
      (a : Agent R) (o : Option (Agent R)) → Checks a o → Checks a (o >>= λ a1. some (check_via a1))
  then_check_via a none h = h
  then_check_via a (some b) h = ground (arith, check_via-Checked b)

  onward-Checks : (a b : Agent R) (o : Option (Agent R)) → Checked a b → Checks b o → Checks a o
  onward-Checks a b none k h = h
  onward-Checks a b (some c) k h = record {
    control = h.control ∙ k.control;
    remote_host = h.remote_host ∙ k.remote_host;
    contact = h.contact ∙ k.contact;
    call_host = h.call_host ∙ k.call_host;
  }

  -- The content is read, if it is of that type.
  if_read-Checks :
      (o : Option Bool) (s : Sdp) (a b : Agent R)
      → if_read o s ≡ true
      → Checked a b
      → Checks a (o >>= λ sdp. if sdp then accept_sdp s b else some b)
  if_read-Checks none s a b h k = cc
  if_read-Checks (some false) s a b h k = k
  if_read-Checks (some true) s a b h k =
      onward-Checks a b (accept_sdp s b) k (accept_sdp-Checks s b h)

  check_content-Checks :
      (t : Text) (a : Agent R)
      → content_complete env a.sip_recv (some t) ≡ true
      → Checks a (check_content env (some t) a)
  unfolding check_content
  check_content-Checks t a h =
      let r = a.sip_recv in
      let p = record r { content_type = some t } in
      if_read-Checks (has_sdp p) (env.sdp_read p) a (record a { discard = true; sip_recv = p }) h
        (record { control = refl; remote_host = refl; contact = refl; call_host = refl })

  pub check_packet-Checks :
      (a : Agent R)
      → type_complete env a.sip_recv a.sip_recv.content_type ≡ true
      → Checks a (check_packet env a)
  unfolding check_packet
  check_packet-Checks a h = typed a.sip_recv.content_type h
    where
      token :
          (o : Option Text)
          → content_complete env a.sip_recv o ≡ true
          → Checks a (check_content env o a >>= λ a1. some (check_via a1))
      token none h = cc
      token (some t) h = then_check_via a _ (check_content-Checks t a h)

      typed :
          (o : Option Text)
          → type_complete env a.sip_recv o ≡ true
          → Checks a (
              o >>= λ t. check_content env (strtok (codes " ") t).0 a >>= λ a1. some (check_via a1))
      typed none h = cc
      typed (some t) h = token (strtok (codes " ") t).0 h

  ring-Keeps :
      (memo : Memo) (a : Agent R)
      → IsComplete env a.sip_recv
      → a.control.state ≡ disconnected
      → Inv a
      → KeepsContact a.sip_recv.contact_uri (ring env memo a)
  unfolding ring send_ringing transmit
  ring-Keeps memo a c e v = ground arith

  on_sent_bye-Keeps :
      (memo : Memo) (a : Agent R)
      → a.control.state ≡ sent_bye
      → Inv a
      → KeepsContact a.sip_recv.contact_uri (on_sent_bye env memo a)
  unfolding on_sent_bye cleanup free_host release
  on_sent_bye-Keeps memo a e v = ground arith

  on_accepted-Keeps :
      (memo : Memo) (a : Agent R)
      → IsComplete env a.sip_recv
      → a.control.state ≡ accepted
      → Inv a
      → KeepsContact a.sip_recv.contact_uri (on_accepted env memo a)
  unfolding on_accepted same_call release
  on_accepted-Keeps memo a c e v = ground arith

  on_rejected-Keeps :
      (memo : Memo) (a : Agent R)
      → IsComplete env a.sip_recv
      → a.control.state ≡ rejected
      → Inv a
      → KeepsContact a.sip_recv.contact_uri (on_rejected env memo a)
  unfolding on_rejected same_call release
  on_rejected-Keeps memo a c e v = ground arith

  on_in_call-Keeps :
      (memo : Memo) (a : Agent R)
      → a.control.state ≡ in_call
      → Inv a
      → KeepsContact a.sip_recv.contact_uri (on_in_call env memo a)
  unfolding on_in_call send_ok transmit
  on_in_call-Keeps memo a e v = ground arith

  after_check :
      (u : Uri) (a : Agent R) (o : Option (Agent R)) (f : Agent R → Option (Agent R))
      → Checks a o
      → ((b : Agent R) → Checked a b → KeepsContact u (f b))
      → KeepsContact u (o >>= f)
  after_check u a none f h k = absurd h
  after_check u a (some b) f h k = k b h

  take_invite-Keeps :
      (memo : Memo) (a b : Agent R)
      → IsComplete env a.sip_recv
      → a.control.state ≡ disconnected
      → Inv a
      → Checked a b
      → KeepsContact a.sip_recv.contact_uri (take_invite env memo b)
  unfolding take_invite release ring send_ringing transmit
  take_invite-Keeps memo a b c e v k = ground arith

  on_disconnected-Keeps :
      (memo : Memo) (a : Agent R)
      → IsComplete env a.sip_recv
      → a.control.state ≡ disconnected
      → Inv a
      → KeepsContact a.sip_recv.contact_uri (on_disconnected env memo a)
  unfolding on_disconnected release
  on_disconnected-Keeps memo a c e v =
      elim (Bool-cases (a.sip_recv.is_request && a.sip_recv.request_code == method_inv)) [
        | inl h ↦ rw h (
            after_check a.sip_recv.contact_uri a (check_packet env a) (take_invite env memo)
              (check_packet-Checks a (c.content (ground (arith, h))))
              (λ b. take_invite-Keeps memo a b c e v))
        | inr h ↦ ground (arith, h)
      ]

  take_ok-Keeps :
      (memo : Memo) (a b : Agent R)
      → a.control.state ≡ sent_inv
      → Inv a
      → Checked a b
      → KeepsContact a.sip_recv.contact_uri (take_ok env memo b)
  unfolding take_ok release send_ack transmit
  take_ok-Keeps memo a b e v k = ground arith

  connect-Keeps :
      (memo : Memo) (a : Agent R)
      → type_complete env a.sip_recv a.sip_recv.content_type ≡ true
      → a.control.state ≡ sent_inv
      → Inv a
      → KeepsContact a.sip_recv.contact_uri (connect env memo a)
  unfolding connect
  connect-Keeps memo a c e v =
      after_check a.sip_recv.contact_uri a (check_packet env a) (take_ok env memo)
        (check_packet-Checks a c) (λ b. take_ok-Keeps memo a b e v)

  on_response-Keeps :
      (memo : Memo) (a : Agent R)
      → a.sip_recv.is_request ≡ false
      → IsComplete env a.sip_recv
      → a.control.state ≡ sent_inv
      → Inv a
      → KeepsContact a.sip_recv.contact_uri (on_response env memo a)
  unfolding on_response release
  on_response-Keeps memo a r c e v = elim (Bool-cases (a.sip_recv.response_code == response_ok)) [
    | inl h ↦ ground (arith, h, connect-Keeps memo a (c.content (ground (arith, h, r))) e v)
    | inr h ↦ ground (arith, h)
  ]

  on_sent_inv-Keeps :
      (memo : Memo) (a : Agent R)
      → IsComplete env a.sip_recv
      → a.control.state ≡ sent_inv
      → Inv a
      → KeepsContact a.sip_recv.contact_uri (on_sent_inv env memo a)
  unfolding on_sent_inv same_call
  on_sent_inv-Keeps memo a c e v = elim (Bool-cases a.sip_recv.is_request) [
    | inl r ↦ ground (arith, r)
    | inr r ↦ ground (arith, r, on_response-Keeps memo a r c e v)
  ]

  on_packet-Keeps :
      (s : State) (memo : Memo) (a : Agent R)
      → IsComplete env a.sip_recv
      → a.control.state ≡ s
      → Inv a
      → KeepsContact a.sip_recv.contact_uri (on_packet env s memo a)
  unfolding on_packet
  on_packet-Keeps disconnected memo a c e v = on_disconnected-Keeps memo a c e v
  on_packet-Keeps sent_inv memo a c e v = on_sent_inv-Keeps memo a c e v
  on_packet-Keeps rcvd_inv memo a c e v = ground arith
  on_packet-Keeps sent_bye memo a c e v = on_sent_bye-Keeps memo a e v
  on_packet-Keeps accepted memo a c e v = on_accepted-Keeps memo a c e v
  on_packet-Keeps rejected memo a c e v = on_rejected-Keeps memo a c e v
  on_packet-Keeps in_call memo a c e v = on_in_call-Keeps memo a e v

  check_source-Keeps :
      (memo : Memo) (a : Agent R)
      → is_some a.sip_recv.contact_uri.host ≡ true
      → Inv a
      → Keeps (check_source env memo a)
  unfolding check_source send_busy transmit release
  check_source-Keeps memo a c v = ground arith

  received :
      (memo : Memo) (u : Uri) (o : Option (Agent R))
      → is_some u.host ≡ true
      → KeepsContact u o
      → Keeps (o >>= check_source env memo)
  received memo u none h k = k
  received memo u (some b) h k = check_source-Keeps memo b (ground (arith)) k.0

  with_packet :
      (p : SipPacket) (a : Agent R)
      → is_some p.contact_uri.id ≡ true
      → is_some p.contact_uri.host ≡ true
      → Inv a
      → Inv (record a { sip_recv = p })
  with_packet p a i h v = ground arith

  answered :
      (memo : Memo) (fine : Bool) (a : Agent R)
      → IsComplete env a.sip_recv
      → Inv a
      → Keeps (
          if fine then (on_packet env a.control.state memo a >>= check_source env memo) else some a)
  answered memo false a c v = v
  answered memo true a c v =
      received memo a.sip_recv.contact_uri (on_packet env a.control.state memo a) c.contact_host
        (on_packet-Keeps a.control.state memo a c refl v)

  pub on_received-Keeps :
      (memo : Memo) (a : Agent R) → ReadsComplete env memo → Inv a → Keeps (on_received env memo a)
  unfolding on_received
  on_received-Keeps memo a complete v =
      let c = complete (reset a.sip_recv) in
      let r = env.sip_read memo (reset a.sip_recv) in
      answered memo r.0 (record a { sip_recv = r.1 }) c
        (with_packet r.1 a c.contact_id c.contact_host v)
