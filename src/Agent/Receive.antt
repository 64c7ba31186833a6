-- ===== src/Agent/Receive.antt =====
-- src/UserAgent.cpp: `checkPacket`, `cleanup`, and what `run` does with a packet in each state.
use viva_voce.Prelude.{
  ◌+◌, Bool, true, false, not, ◌&&◌, Option, none, some, [], ◌∷◌, ltb, ◌==◌, ◌>>=◌, if◌then◌else◌,
}
use viva_voce.Text.{Text, codes, text_eq, starts_with, strtok}
use viva_voce.Pool.{Memo, release_memo, empty_queue}
use viva_voce.Sip.{
  SipPacket, no_uri, via_field, method_inv, method_ack, method_bye, response_ok, response_ring,
  response_busy, response_decline,
}
use viva_voce.Udp.{init_remote_addr, init_temp_remote_addr}
use viva_voce.Agent.{
  Agent, Stores, State, disconnected, sent_inv, rcvd_inv, sent_bye, accepted, rejected, in_call,
  nothing, disconn, conn, send_ring, HostPointer, null, local, owned, dangling,
}
use viva_voce.Agent.Environment.{Environment, Media, Sdp, malformed, described}
use viva_voce.Agent.Send.{host_text, send_ok, send_ack, send_busy, send_ringing}

-- `m` is looked at only if the test before it in the condition succeeds.
abbrev pub also : Bool → Option Bool → Option Bool
also false m = some false
also true m = m

-- A test of a text that may be null; to look at a null text is a fault.
abbrev pub has_sdp : SipPacket → Option Bool
has_sdp p =
    also (ltb 0 p.content_length)
      (do t ← p.content_type; some (starts_with (codes "application/sdp") t))

-- To free a dangling pointer is a fault.
unfoldable pub free_host : HostPointer → Option HostPointer
free_host null = some null
free_host local = some local
free_host (owned t) = some dangling
free_host dangling = none

-- The three calls of `emptyQueue`, all into the pool of the audio memos.
unfoldable pub empty_queues : Stores → Stores
empty_queues s =
    let (n1, send_q, rmg1) = empty_queue s.send_q s.rmg in
    let (n2, codec_q, rmg2) = empty_queue s.codec_q rmg1 in
    let (n3, play_q, rmg3) = empty_queue s.play_q rmg2 in
    record s { send_q = send_q; codec_q = codec_q; play_q = play_q; rmg = rmg3 }

module _ {R : Type 0} where
  unfoldable pub release : Memo → Agent R → Agent R
  release memo a =
      let s = a.stores in
      record a { stores = record s { sip_rmg = release_memo (some memo) s.sip_rmg } }

  -- `sipPackRecv->callId == callId && !strcmp(callIdHost, sipPackRecv->callIdHost)`. A bad or null
  -- pointer is a fault.
  unfoldable pub same_call : Agent R → Option Bool
  same_call a = also (a.sip_recv.call_id == a.control.call_id) (do
    mine ← host_text a.local_host a.control.call_id_host
    theirs ← a.sip_recv.call_id_host
    some (text_eq mine theirs))

  -- The branch of `checkPacket` for a media description.
  unfoldable pub accept_media : Media → Agent R → Option (Agent R)
  accept_media m a = do
    transport ← (strtok (codes " ") m.transport).0
    media ← (strtok (codes " ") m.media).0
    some (
        if starts_with (codes "audio") media && starts_with (codes "RTP/AVP") transport
        then record a { remote_rtp_port = m.port; remote_rtcp_port = m.port + 1; discard = false }
        else a)

  unfoldable pub accept_sdp : Sdp → Agent R → Option (Agent R)
  accept_sdp malformed a = some a
  accept_sdp (described []) a = some a
  accept_sdp (described (m ∷ rest)) a = accept_media m a

  unfoldable pub check_via : Agent R → Agent R
  check_via a = elim (via_field 0 a.sip_recv) [
    | some via ↦ record a { remote_sip_port = via.port }
    | none ↦ record a { discard = true }
  ]

module _ {R : Type 0} (env : Environment R) where
  -- The rest of `checkPacket`, for the first token of the content type.
  unfoldable pub check_content : Option Text → Agent R → Option (Agent R)
  check_content token a = do
    let r = a.sip_recv
    let p = record r { content_type = token }
    let a1 = record a { discard = true; sip_recv = p }
    sdp ← has_sdp p
    if sdp then accept_sdp (env.sdp_read p) a1 else some a1

  unfoldable pub check_packet : Agent R → Option (Agent R)
  check_packet a = do
    content_type ← a.sip_recv.content_type
    a1 ← check_content (strtok (codes " ") content_type).0 a
    some (check_via a1)

  unfoldable pub cleanup : Agent R → Option (Agent R)
  cleanup a = do
    pointer ← free_host a.control.call_id_host
    let p = a.sip_send
    let c = a.control
    some (record a {
      rtp = env.rtp_close a.rtp;
      sip_send = record p {
        to_name = none;
        to_uri = no_uri;
        call_id = 0;
        cseq_code = 0;
        cseq_method = none;
      };
      remote_host = none;
      remote_id = none;
      stores = empty_queues a.stores;
      control = record c {
        is_connected = false;
        is_ringing = false;
        call_id = 0;
        call_id_host = pointer;
        state = disconnected;
        default_action = nothing;
      };
    })

  abbrev pub check_later : Agent R → Agent R
  check_later a = record a { check_src = true }

  -- In SIP_UA_DISCONNECTED. The packet of an accepted INVITE is copied; a null text is a fault.
  unfoldable pub ring : Memo → Agent R → Option (Agent R)
  ring memo a = do
    call_host ← a.sip_recv.call_id_host
    contact_id ← a.sip_recv.contact_uri.id
    contact_host ← a.sip_recv.contact_uri.host
    let c = a.control
    a1 ← send_ringing env memo (record a {
      remote_id = some contact_id;
      remote_host = some contact_host;
      control = record c { call_id = a.sip_recv.call_id; call_id_host = owned call_host };
    })
    let c1 = a1.control
    some (record a1 {
      control = record c1 { wait_msec = 2500; state = rcvd_inv; default_action = send_ring };
    })

  -- ... after `checkPacket`.
  unfoldable pub take_invite : Memo → Agent R → Option (Agent R)
  take_invite memo a =
      if a.discard then some (release memo (record a { check_src = false })) else ring memo a

  unfoldable pub on_disconnected : Memo → Agent R → Option (Agent R)
  on_disconnected memo a =
      if a.sip_recv.is_request && a.sip_recv.request_code == method_inv
      then (do a1 ← check_packet a; take_invite memo a1)
      else some (release memo a)

  abbrev pub hang_up : Memo → Agent R → Agent R
  hang_up memo a =
      let c = a.control in
      release memo (record a {
        control = record c { wait_msec = 500; default_action = disconn; is_ringing = false };
      })

  -- The 200 response to an INVITE, after `checkPacket`. A null `remoteHost` would be a fault.
  unfoldable pub take_ok : Memo → Agent R → Option (Agent R)
  take_ok memo a = if a.discard then some (release memo (record a { check_src = false })) else (do
    host ← a.remote_host
    let a1 = send_ack env memo (record a {
      remotes = init_remote_addr env.resolve host a.remote_rtp_port a.remote_rtcp_port 0 a.remotes;
    })
    let c = a1.control
    some (record a1 { control = record c { is_ringing = false } }))

  unfoldable pub connect : Memo → Agent R → Option (Agent R)
  connect memo a = do a1 ← check_packet a; take_ok memo a1

  unfoldable pub on_response : Memo → Agent R → Option (Agent R)
  on_response memo a =
      let code = a.sip_recv.response_code in
      let c = a.control in
      if code == response_ring
      then some (
          release memo (record a {
            control = record c { is_ringing = true; wait_msec = 5000; default_action = conn };
          }))
      else if code == response_busy
      then some (hang_up memo a)
      else if code == response_decline
      then some (hang_up memo a)
      else if code == response_ok
      then connect memo a
      else some (check_later a)

  unfoldable pub on_sent_inv : Memo → Agent R → Option (Agent R)
  on_sent_inv memo a = do
    ours ← also (not a.sip_recv.is_request) (same_call a)
    if ours then on_response memo a else some (check_later a)

  unfoldable pub on_sent_bye : Memo → Agent R → Option (Agent R)
  on_sent_bye memo a =
      if a.sip_recv.is_request
      then some (check_later a)
      else if a.sip_recv.response_code == response_ok
      then (do a1 ← cleanup a; some (release memo a1))
      else some (release memo a)

  unfoldable pub on_accepted : Memo → Agent R → Option (Agent R)
  on_accepted memo a = do
    ours ← also (a.sip_recv.is_request && a.sip_recv.request_code == method_ack) (same_call a)
    let c = a.control
    some (
        if ours
        then release memo (record a {
          rtp = env.rtp_init true a.rtp;
          control = record c {
            is_connected = true;
            wait_msec = 2500;
            default_action = nothing;
            state = in_call;
            is_ringing = false;
          };
        })
        else check_later a)

  unfoldable pub on_rejected : Memo → Agent R → Option (Agent R)
  on_rejected memo a = do
    ours ← also (a.sip_recv.is_request && a.sip_recv.request_code == method_ack) (same_call a)
    let c = a.control
    some (
        if ours
        then hang_up memo (record a { control = record c { is_connected = false } })
        else check_later a)

  unfoldable pub on_in_call : Memo → Agent R → Option (Agent R)
  on_in_call memo a =
      if a.sip_recv.is_request
        && (a.sip_recv.request_code == method_bye && a.sip_recv.call_id == a.control.call_id)
      then (let a1 = send_ok env memo a in
          let c = a1.control in
          some (record a1 {
            control = record c {
              is_connected = false;
              wait_msec = 2500;
              default_action = disconn;
              state = disconnected;
            };
          }))
      else some (check_later a)

  -- The inner `switch(state)`; SIP_UA_RCVD_INV has no case of its own.
  unfoldable pub on_packet : State → Memo → Agent R → Option (Agent R)
  on_packet disconnected memo a = on_disconnected memo a
  on_packet sent_inv memo a = on_sent_inv memo a
  on_packet sent_bye memo a = on_sent_bye memo a
  on_packet accepted memo a = on_accepted memo a
  on_packet rejected memo a = on_rejected memo a
  on_packet in_call memo a = on_in_call memo a
  on_packet rcvd_inv memo a = some (check_later a)

  -- What follows the `switch`: a packet of another call is answered by a busy response.
  unfoldable pub check_source : Memo → Agent R → Option (Agent R)
  check_source memo a =
      if a.check_src
      then (let a1 = record a { check_src = false } in
          if a.sip_recv.call_id == a.control.call_id then some (release memo a1) else (do
            host ← a.sip_recv.contact_uri.host
            some (
                send_busy env memo (record a1 {
                  remotes = init_temp_remote_addr env.resolve host a.remote_sip_port a.remotes;
                }))))
      else some a
