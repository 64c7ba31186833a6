-- ===== src/Agent/Send.antt =====
-- src/UserAgent.cpp: the messages. Each writes `sipPackSend` into the memo and queues the memo.
use viva_voce.Prelude.{ℕ, suc, true, false, Option, none, some, length, ◌>>=◌}
use viva_voce.Text.{Text, codes}
use viva_voce.Queue.{signal_data}
use viva_voce.Pool.{Memo}
use viva_voce.Sip.{
  SipPacket, method_inv, method_ack, method_bye, response_ok, response_ring, response_busy,
  response_decline,
}
use viva_voce.Udp.{init_remote_addr}
use viva_voce.Agent.{
  Agent, sent_inv, rcvd_inv, sent_bye, rejected, in_call, nothing, disconn, conn, send_ring, bye,
  HostPointer, null, local, owned, dangling,
}
use viva_voce.Agent.Environment.{Environment}

abbrev vivoce_sip_send : ℕ
vivoce_sip_send = 35

-- The text behind `callIdHost`, if the pointer is good.
abbrev pub host_text : Text → HostPointer → Option Text
host_text local_host null = none
host_text local_host local = some local_host
host_text local_host (owned t) = some t
host_text local_host dangling = none

module _ {R : Type 0} (env : Environment R) where
  -- `SIPHandler::write`, `memo->code`, `memo->data1` and `sendQ->signalData`, with `memo->data2`.
  unfoldable pub transmit : ℕ → Memo → Agent R → Agent R
  transmit data2 memo a =
      let (ret, bytes) = env.sip_write a.sip_send memo.size in
      let message : Memo = record memo {
        code = vivoce_sip_send;
        data1 = ret;
        data2 = data2;
        bytes = bytes;
      } in
      let s = a.stores in record a { stores = record s { send_q = signal_data message s.send_q } }

  -- `sipPackSend` takes its sender and receiver from `sipPackRecv`.
  abbrev pub echo_parties : Agent R → SipPacket → SipPacket
  echo_parties a p = record p {
    from_name = a.sip_recv.from_name;
    from_uri = a.sip_recv.from_uri;
    to_name = a.sip_recv.to_name;
    to_uri = a.sip_recv.to_uri;
  }

  -- ... or from the agent and its peer.
  abbrev pub own_parties : Agent R → SipPacket → SipPacket
  own_parties a p = record p {
    request_uri = record { id = a.remote_id; host = a.remote_host };
    from_name = some a.local_id;
    from_uri = record { id = some a.local_id; host = some a.local_host };
    to_name = a.remote_id;
    to_uri = record { id = a.remote_id; host = a.remote_host };
  }

  abbrev pub with_content : Agent R → SipPacket → SipPacket
  with_content a p = record p {
    content_data = some a.sdp_buffer;
    content_type = some (codes "application/sdp");
    content_length = length a.sdp_buffer;
  }

  abbrev pub without_content : Agent R → Agent R
  without_content a =
      let p = a.sip_send in
      record a {
        sip_send = record p { content_data = none; content_type = none; content_length = 0 };
      }

  -- `draw` is the product of the three random numbers. A null `remoteHost` would be a fault.
  unfoldable pub send_invite : ℕ → Memo → Agent R → Option (Agent R)
  send_invite draw memo a = elim a.remote_host [
    | none ↦ none
    | some host ↦
        let p = with_content a (own_parties a a.sip_send) in
        let c = a.control in
        let a1 = record a {
          sip_send = record p {
            is_request = true;
            request_code = method_inv;
            call_id = draw;
            call_id_host = some a.local_host;
            cseq_code = 1;
            cseq_method = some (codes "INVITE");
          };
          control = record c { call_id = draw; call_id_host = local };
        } in
        let a2 = without_content (transmit memo.data2 memo a1) in
        let c2 = a2.control in
        some (record a2 {
          remotes = init_remote_addr env.resolve host 0 0 a2.remote_sip_port a2.remotes;
          control = record c2 { state = sent_inv; wait_msec = 5000; default_action = conn };
        })
  ]

  unfoldable pub send_bye : Memo → Agent R → Agent R
  send_bye memo a =
      let p = own_parties a a.sip_send in
      let a1 = transmit memo.data2 memo (record a {
        sip_send = record p {
          is_request = true;
          request_code = method_bye;
          cseq_code = 1;
          cseq_method = some (codes "BYE");
        };
      }) in
      let c = a1.control in
      record a1 { control = record c { state = sent_bye; wait_msec = 1000; default_action = bye } }

  unfoldable pub send_ok : Memo → Agent R → Agent R
  send_ok memo a =
      let p = echo_parties a (with_content a a.sip_send) in
      without_content (
        transmit memo.data2 memo (record a {
          sip_send = record p {
            is_request = false;
            response_code = response_ok;
            call_id = a.control.call_id;
            call_id_host = host_text a.local_host a.control.call_id_host;
            cseq_code = a.cseq_code;
            cseq_method = a.cseq_method;
          };
        }))

  unfoldable pub send_ack : Memo → Agent R → Agent R
  send_ack memo a =
      let p = echo_parties a a.sip_send in
      let a1 = transmit memo.data2 memo (record a {
        sip_send = record p {
          is_request = true;
          request_code = method_ack;
          cseq_code = 1;
          cseq_method = some (codes "ACK");
        };
      }) in
      let c = a1.control in
      record a1 {
        control = record c {
          state = in_call;
          is_connected = true;
          wait_msec = 2500;
          default_action = nothing;
        };
        rtp = env.rtp_init false a1.rtp;
        reader_signals = suc a1.reader_signals;
      }

  unfoldable pub send_decline : Memo → Agent R → Agent R
  send_decline memo a =
      let p = echo_parties a a.sip_send in
      let a1 = transmit memo.data2 memo (record a {
        sip_send = record p {
          is_request = false;
          response_code = response_decline;
          cseq_code = a.cseq_code;
          cseq_method = a.cseq_method;
        };
      }) in
      let c = a1.control in
      record a1 { control = record c { state = rejected; default_action = disconn } }

  -- The memo goes to the temporary address, `data2` being 1.
  unfoldable pub send_busy : Memo → Agent R → Agent R
  send_busy memo a =
      let p = a.sip_send in
      let r = a.sip_recv in
      transmit 1 memo (record a {
        sip_send = record p {
          is_request = false;
          response_code = response_busy;
          from_name = r.from_uri.id;
          from_uri = record { id = r.from_uri.id; host = p.from_uri.host };
          to_name = r.to_uri.id;
          to_uri = r.to_uri;
          call_id = r.call_id;
          call_id_host = r.call_id_host;
          cseq_code = 1;
          cseq_method = some (codes "INVITE");
        };
      })

  -- A null host of the peer or null part of the contact would be a fault.
  unfoldable pub send_ringing : Memo → Agent R → Option (Agent R)
  send_ringing memo a = do
    host ← a.remote_host
    contact_id ← a.sip_recv.contact_uri.id
    contact_host ← a.sip_recv.contact_uri.host
    let p = echo_parties a a.sip_send
    let a1 = transmit memo.data2 memo (record a {
      remotes =
          init_remote_addr env.resolve host a.remote_rtp_port a.remote_rtcp_port a.remote_sip_port
            a.remotes;
      cseq_code = a.sip_recv.cseq_code;
      cseq_method = a.sip_recv.cseq_method;
      remote_id = some contact_id;
      remote_host = some contact_host;
      sip_send = record p {
        is_request = false;
        response_code = response_ring;
        call_id = a.control.call_id;
        call_id_host = host_text a.local_host a.control.call_id_host;
        cseq_code = a.sip_recv.cseq_code;
        cseq_method = a.sip_recv.cseq_method;
      };
    })
    let c = a1.control
    some (record a1 {
      control = record c {
        state = rcvd_inv;
        is_ringing = true;
        wait_msec = 2500;
        default_action = send_ring;
      };
    })
