-- ===== src/Sdp/Session.antt =====
-- src/UserAgent.cpp: the session that `init` describes, and src/SDP.cpp: how its text is read.
pub mod Written
pub mod Heard
pub mod Lines
pub mod Steps
pub mod Received
pub mod Peer
pub mod Call
pub mod Tests
use viva_voce.Prelude.{ℕ, zero, suc, List, [], ◌∷◌, ◌++◌, Option, some, none}
use viva_voce.Text.{Text, codes}
use viva_voce.Sdp.{
  ConnectionInfo, MediaDescription, SdpPacket, new_connection, new_media, new_time, reset,
  set_connection_info, add_media, add_time,
}

-- `sdpConnSend`.
abbrev pub own_connection : ConnectionInfo
own_connection = record new_connection {
  network_type = some (codes "IN");
  address_type = some (codes "IP4");
  address = some (codes "127.0.0.0");
}

-- `sdpMediaSend`, with the port for RTP.
abbrev pub own_media : ℕ → MediaDescription
own_media port = record new_media {
  media = some (codes "audio");
  transport = some (codes "RTP/AVP");
  port = port;
  attributes = codes "rtpmap:0 PCMU/8000" ∷ [];
}

-- The part of `init` that sets `sdpPackSend`, with its two random numbers.
unfoldable pub own_session : Text → ℕ → ℕ → ℕ → SdpPacket → SdpPacket
own_session username session_id owner_version rtp_port p =
    let named = record (reset p) {
      username = some username;
      version = 2;
      session_id = session_id;
      owner_version = owner_version;
      network_type = some (codes "IN");
      address_type = some (codes "IP4");
      address = some (codes "127.0.0.0");
      name = some (codes "SIP/SDP/RTP/ADPCM");
      info = some (codes "VivaVoce IP telephony");
      uri = some (codes "http://sites.google.com/kunalkandekar/");
      email = some (codes "kunalkandekar@gmail.com");
    } in
    let connected = (set_connection_info own_connection named).1 in
    add_time (record new_time { start_time = 0; stop_time = 0 })
      (add_media (own_media rtp_port) connected)
