-- ===== src/Sip/Tests.antt =====
-- src/SIP.cpp: a call with its packet, and the theorems at it.
use viva_voce.Prelude.{◌≢◌, refl, [], ◌∷◌, true, some, arith}
use viva_voce.Text.{codes}
use viva_voce.Text.Decimal.{atol, atol-decimal}
use viva_voce.Sip.{SipPacket, Uri, Via, new_packet, new_via}
use viva_voce.Sip.Reader.{looping}
use viva_voce.Sip.Reader.Lines.{read}
use viva_voce.Sip.Writer.{message, body}
use viva_voce.Sip.RoundTrip.Fields.{ReadsBack}
use viva_voce.Sip.RoundTrip.First.{inv}
use viva_voce.Sip.RoundTrip.Whole.{IsSendable, ReadAs, received, read-message}
use viva_voce.Sip.Totality.{read-terminates}

abbrev alice : Uri
alice = record { id = some (codes "alice"); host = some (codes "here.org") }

abbrev bob : Uri
bob = record { id = some (codes "bob"); host = some (codes "there.org") }

abbrev via : Via
via = record new_via {
  transport = some (codes "UDP");
  host = some (codes "here.org");
  port = 5060;
  branch = some (codes "4b43");
}

abbrev pub call : SipPacket
call = record new_packet {
  is_request = true;
  request_code = 10;
  request_uri = bob;
  via_list = via ∷ [];
  from_name = some (codes "Alice");
  from_uri = alice;
  from_tag = some (codes "8321");
  to_uri = bob;
  call_id = 4711;
  call_id_host = some (codes "here.org");
  cseq_code = 1;
  cseq_method = some (codes "INVITE");
  contact_uri = alice;
  contact_transport = some (codes "UDP");
  content_type = some (codes "application/sdp");
  content_length = 3;
  content_data = some (codes "v=0");
}

pub atol-ReadsBack : ReadsBack atol
atol-ReadsBack n h = atol-decimal n (omega arith)

pub call-IsSendable : IsSendable call
unfolding body
call-IsSendable = record {
  first = (
    inv,
    record { text = codes "bob"; is = refl; plain = refl },
    record { text = codes "there.org"; is = refl; plain = refl },
  );
  vias = (
    record {
      transport = record { text = codes "UDP"; is = refl; plain = refl };
      host = record { text = codes "here.org"; is = refl; plain = refl };
      port_small = omega arith;
      branch = record { text = codes "4b43"; is = refl; plain = refl };
    },
    tt,
  );
  fields = record {
    from_name = refl;
    from_id = record { text = codes "alice"; is = refl; plain = refl };
    from_host = record { text = codes "here.org"; is = refl; plain = refl };
    from_tag = refl;
    to_name = tt;
    to_id = record { text = codes "bob"; is = refl; plain = refl };
    to_host = record { text = codes "there.org"; is = refl; plain = refl };
    to_tag = tt;
    call_small = omega arith;
    call_host = record { text = codes "here.org"; is = refl; plain = refl };
    cseq_small = omega arith;
    method = record { text = codes "INVITE"; is = refl; plain = refl };
    contact_id = record { text = codes "alice"; is = refl; plain = refl };
    contact_host = record { text = codes "here.org"; is = refl; plain = refl };
    transport = record { text = codes "UDP"; is = refl; plain = refl };
    type_free = refl;
    length_small = omega arith;
    content = codes "v=0";
    content_is = refl;
  };
}

read-message_example : ReadAs atol (received call (codes "v=0")) new_packet (message call)
unfolding body call-IsSendable
read-message_example = read-message atol atol-ReadsBack call call-IsSendable new_packet

read-terminates_example :
    read atol (codes "BYE sip:bob@there.org SIP/2.0") 29 new_packet ≢ some looping
read-terminates_example = read-terminates atol (codes "BYE sip:bob@there.org SIP/2.0") 29 new_packet
