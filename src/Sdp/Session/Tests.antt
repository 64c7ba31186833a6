-- ===== src/Sdp/Session/Tests.antt =====
-- src/UserAgent.cpp, src/SIP.cpp and src/SDP.cpp: the session of `init` at a small call.
use viva_voce.Prelude.{ℕ, ◌≡◌, refl, [], false, some, none, Option, length, arith}
use viva_voce.Prelude.Int.{ℤ, pos, negsuc}
use viva_voce.Text.{Text, codes}
use viva_voce.Text.Decimal.{atol, decimal}
use viva_voce.Sip.{SipPacket, new_packet}
use viva_voce.Sip.Reader.{returned}
use viva_voce.Sip.Reader.Lines.{read}
use viva_voce.Sip.Writer.{message, body}
use viva_voce.Sip.RoundTrip.Whole.{IsSendable, received}
use viva_voce.Sip.Tests.{call, call-IsSendable, atol-ReadsBack}
use viva_voce.Sdp.{new_sdp}
use viva_voce.Sdp.Writer.{write}
use viva_voce.Sdp.Session.{own_session}
use viva_voce.Sdp.Session.Written.{owner_of, own_text}
use viva_voce.Sdp.Session.Peer.{with_sdp}
use viva_voce.Sdp.Session.Call.{check_packet-read}
use viva_voce.Agent.Receive.{check_packet, check_via}
use viva_voce.Agent.Tests.{env, start}

-- What `indexOf` gives for a character that is not there, and `inet_addr`, in the tests.
abbrev pub absent : Text → ℤ
absent s = negsuc 40

abbrev pub localhost : Text → ℕ
localhost s = 16777343

abbrev text : Text
text = own_text (owner_of (codes "alice") 7 8) 4000

-- The INVITE of the parser's tests, with the text.
abbrev pub offer : SipPacket
offer = record call { content_length = length text; content_data = some text }

pub offer-IsSendable : IsSendable offer
unfolding body decimal
offer-IsSendable =
    let f = call-IsSendable.fields in
    record {
      first = call-IsSendable.first;
      vias = call-IsSendable.vias;
      fields = record {
        from_name = f.from_name;
        from_id = f.from_id;
        from_host = f.from_host;
        from_tag = f.from_tag;
        to_name = f.to_name;
        to_id = f.to_id;
        to_host = f.to_host;
        to_tag = f.to_tag;
        call_small = f.call_small;
        call_host = f.call_host;
        cseq_small = f.cseq_small;
        method = f.method;
        contact_id = f.contact_id;
        contact_host = f.contact_host;
        transport = f.transport;
        type_free = f.type_free;
        length_small = omega arith;
        content = text;
        content_is = refl;
      };
    }

abbrev or_empty : Option Text → Text
or_empty none = []
or_empty (some t) = t

abbrev bytes : Text
bytes = or_empty (message offer)

check_packet-read_example :
    let r = received offer text bytes new_packet in
    (write (own_session (codes "alice") 7 8 4000 new_sdp) ≡ some (pos (length text), text))
    × (read atol bytes (length bytes) new_packet ≡ some (returned (pos 0) r))
    × (check_packet (with_sdp absent localhost env new_sdp) (record start { sip_recv = r })
        ≡ some (
            check_via (record start {
              sip_recv = record r { content_type = some (codes "application/sdp") };
              discard = false;
              remote_rtp_port = 4000;
              remote_rtcp_port = 4001;
            })))
unfolding message body decimal
check_packet-read_example =
    check_packet-read env absent localhost atol new_sdp (codes "alice") 7 8 4000 offer new_packet
      bytes start atol-ReadsBack refl (omega arith) (omega arith) (omega arith) offer-IsSendable
      refl refl refl refl
