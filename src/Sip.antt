-- ===== src/Sip.antt =====
-- src/SIP.h and src/SIP.cpp: the SIP packet. Its reader and writer are in the child modules. A text field is none where the pointer is null; a call
-- number, a `double` that the code only compares, is a number.
pub mod RoundTrip
pub mod Totality
pub mod Tests
pub mod Reader
pub mod Writer
use viva_voce.Prelude.{ℕ, List, [], ◌∷◌, ◌++◌, Bool, false, Option, none, length, get_elem?}
use viva_voce.Text.{Text}

pub record Uri : Type 0 where
  pub id : Option Text
  pub host : Option Text

pub record Via : Type 0 where
  pub is_auto : Bool
  pub transport : Option Text
  pub host : Option Text
  pub port : ℕ
  pub branch : Option Text

abbrev pub new_via : Via
new_via = record { is_auto = false; transport = none; host = none; port = 0; branch = none }

pub record SipPacket : Type 0 where
  pub is_request : Bool
  pub request_code : ℕ
  pub request_string : Option Text
  pub response_code : ℕ
  pub response_string : Option Text
  pub via_list : List Via
  pub request_uri : Uri
  pub from_name : Option Text
  pub from_uri : Uri
  pub from_tag : Option Text
  pub to_name : Option Text
  pub to_uri : Uri
  pub to_tag : Option Text
  pub call_id : ℕ
  pub call_id_host : Option Text
  pub cseq_code : ℕ
  pub cseq_method : Option Text
  pub contact_uri : Uri
  pub contact_transport : Option Text
  pub content_type : Option Text
  pub content_length : ℕ
  pub content_data : Option Text
  pub input : Option Text

abbrev pub no_uri : Uri
no_uri = record { id = none; host = none }

-- The constructor `SIPPacket()`.
abbrev pub new_packet : SipPacket
new_packet = record {
  is_request = false;
  request_code = 0;
  request_string = none;
  response_code = 0;
  response_string = none;
  via_list = [];
  request_uri = no_uri;
  from_name = none;
  from_uri = no_uri;
  from_tag = none;
  to_name = none;
  to_uri = no_uri;
  to_tag = none;
  call_id = 0;
  call_id_host = none;
  cseq_code = 0;
  cseq_method = none;
  contact_uri = no_uri;
  contact_transport = none;
  content_type = none;
  content_length = 0;
  content_data = none;
  input = none;
}

-- `reset` clears these fields alone.
unfoldable pub reset : SipPacket → SipPacket
reset p = record p { via_list = []; input = none; is_request = false }

unfoldable pub add_via_field : Via → SipPacket → SipPacket
add_via_field v p = record p { via_list = p.via_list ++ v ∷ [] }

unfoldable pub num_via_fields : SipPacket → ℕ
num_via_fields p = length p.via_list

unfoldable pub via_field : ℕ → SipPacket → Option Via
via_field index p = get_elem? p.via_list index

-- `SIP_METHOD_…` and `SIP_RESPONSE_…`.
abbrev pub method_inv : ℕ
method_inv = 10

abbrev pub method_ack : ℕ
method_ack = 11

abbrev pub method_bye : ℕ
method_bye = 12

abbrev pub method_opt : ℕ
method_opt = 13

abbrev pub method_reg : ℕ
method_reg = 14

abbrev pub method_cnl : ℕ
method_cnl = 15

abbrev pub response_ok : ℕ
response_ok = 200

abbrev pub response_ring : ℕ
response_ring = 180

abbrev pub response_busy : ℕ
response_busy = 486

abbrev pub response_decline : ℕ
response_decline = 603
