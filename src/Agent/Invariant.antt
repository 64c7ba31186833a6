-- ===== src/Agent/Invariant.antt =====
-- src/UserAgent.cpp: what holds of the agent between two rounds of `run`.
pub mod Steps
pub mod Packets
pub mod Rounds
use viva_voce.Prelude.{
  ℕ, ◌≤◌, ◌≡◌, Bool, true, false, Option, none, some, List, [], ◌∷◌, ◌==◌, ◌&&◌, not, ◌||◌,
  if◌then◌else◌,
}
use viva_voce.Text.{codes, Text, strtok}
use viva_voce.Pool.{Memo}
use viva_voce.Sip.{SipPacket, Uri, method_inv, response_ok}
use viva_voce.Agent.Receive.{has_sdp}
use viva_voce.Agent.{
  Agent, State, disconnected, sent_inv, rcvd_inv, sent_bye, accepted, rejected, in_call, Action,
  unset, nothing, disconn, conn, inv_ack, incoming, ringing, send_ring, bye, HostPointer, null,
  local, owned, dangling,
}
use viva_voce.Agent.Environment.{Environment, Media, Sdp, malformed, described}

-- The actions that can be pending in each state.
abbrev pub allowed : State → Action → Bool
allowed disconnected unset = true
allowed disconnected nothing = true
allowed disconnected disconn = true
allowed sent_inv conn = true
allowed sent_inv disconn = true
allowed rcvd_inv send_ring = true
allowed rcvd_inv incoming = true
allowed accepted send_ring = true
allowed accepted incoming = true
allowed rejected disconn = true
allowed sent_bye bye = true
allowed in_call nothing = true
allowed s a = false

abbrev pub may_connect : State → Bool → Bool
may_connect in_call b = true
may_connect s b = not b

-- `callIdHost` is dangling only while nothing is pending in SIP_UA_DISCONNECTED, and null only there.
abbrev pub pointer_good : State → Action → HostPointer → Bool
pointer_good disconnected nothing p = true
pointer_good disconnected disconn null = true
pointer_good disconnected unset null = true
pointer_good s a (owned t) = true
pointer_good s a local = true
pointer_good s a p = false

abbrev pub is_some : Option Text → Bool
is_some none = false
is_some (some t) = true

-- The states in which the peer's host is looked at.
abbrev pub host_known : State → Option Text → Bool
host_known sent_inv h = is_some h
host_known rcvd_inv h = is_some h
host_known accepted h = is_some h
host_known s h = true

abbrev pub contact_known : Action → SipPacket → Bool
contact_known send_ring p = is_some p.contact_uri.id && is_some p.contact_uri.host
contact_known a p = true

module _ {R : Type 0} where
  pub record Inv (a : Agent R) : Type 0 where
    pub pending : allowed a.control.state a.control.default_action ≡ true
    pub connected : may_connect a.control.state a.control.is_connected ≡ true
    pub pointer :
        pointer_good a.control.state a.control.default_action a.control.call_id_host ≡ true
    pub few : a.control.rpt_count ≤ 5
    pub host : host_known a.control.state a.remote_host ≡ true
    pub contact : contact_known a.control.default_action a.sip_recv ≡ true

  -- The step is no fault, and the invariant holds after it.
  abbrev pub Keeps : Option (Agent R) → Type 0
  Keeps none = ⊥
  Keeps (some a) = Inv a

  -- The same, and the contact of the packet stays as it was.
  abbrev pub KeepsContact : Uri → Option (Agent R) → Type 0
  KeepsContact u none = ⊥
  KeepsContact u (some a) = Inv a × (a.sip_recv.contact_uri ≡ u)

-- There is a token before the next space.
abbrev pub has_token : Text → Bool
has_token t = is_some (strtok (codes " ") t).0

abbrev pub has_word : Option Text → Bool
has_word none = false
has_word (some t) = has_token t

abbrev pub media_complete : Sdp → Bool
media_complete malformed = true
media_complete (described []) = true
media_complete (described (m ∷ rest)) = has_token m.transport && has_token m.media

-- The packets whose content `checkPacket` looks at: an INVITE, and an OK response.
abbrev pub is_offer : SipPacket → Bool
is_offer p = if p.is_request then p.request_code == method_inv else p.response_code == response_ok

abbrev pub if_read : Option Bool → Sdp → Bool
if_read none s = false
if_read (some false) s = true
if_read (some true) s = media_complete s

module _ {R : Type 0} (env : Environment R) where
  -- The content of a packet whose type has this first token.
  abbrev pub content_complete : SipPacket → Option Text → Bool
  content_complete p none = false
  content_complete p (some t) =
      let p1 = record p { content_type = some t } in if_read (has_sdp p1) (env.sdp_read p1)

  abbrev pub type_complete : SipPacket → Option Text → Bool
  type_complete p none = false
  type_complete p (some t) = content_complete p (strtok (codes " ") t).0

  -- What the agent relies on in this packet without a test: the host of its call number, its
  -- contact, and, in an INVITE or an OK response, that the content has a type and that what
  -- `SDPHandler::read` makes of it has no media description first that lacks a transport or a media
  -- word.
  pub record IsComplete (p : SipPacket) : Type 0 where
    pub call_host : is_some p.call_id_host ≡ true
    pub contact_id : is_some p.contact_uri.id ≡ true
    pub contact_host : is_some p.contact_uri.host ≡ true
    pub content : is_offer p ≡ true → type_complete p p.content_type ≡ true

  -- The packet that a memo holds has what the agent relies on, whatever packet it is read into.
  abbrev pub ReadsComplete : Memo → Type 0
  ReadsComplete memo = (p : SipPacket) → IsComplete (env.sip_read memo p).1
