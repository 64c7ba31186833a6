-- ===== src/Sdp.antt =====
-- src/SDP.h and src/SDP.cpp: the SDP packet, its time and media descriptions and their operations.
-- A text is none where the pointer is null or not set yet; an `int` is its value modulo 2^32, a `long`
-- modulo 2^64. A description that the packet points to is the element of its list.
pub mod Fields
pub mod Reader
pub mod Writer
pub mod Order
pub mod Totality
pub mod Session
mod Tests
use viva_voce.Prelude.{
  ℕ, zero, suc, ◌+◌, List, [], ◌∷◌, ◌++◌, Bool, false, Option, none, some, length, get_elem?, ltb,
  if◌then◌else◌,
}
use viva_voce.Prelude.Int.{ℤ, pos, negsuc}
use viva_voce.Text.{Text}

pub record ConnectionInfo : Type 0 where
  pub is_auto : Bool
  pub network_type : Option Text
  pub address_type : Option Text
  pub address : Option Text
  pub ip_address : ℕ
  pub ttl : ℕ
  pub num_address : ℕ

-- The constructor `SDPConnectionInfo()`.
abbrev pub new_connection : ConnectionInfo
new_connection = record {
  is_auto = false;
  network_type = none;
  address_type = none;
  address = none;
  ip_address = 0;
  ttl = 0;
  num_address = 0;
}

pub record MediaDescription : Type 0 where
  pub is_auto : Bool
  pub media : Option Text
  pub port : ℕ
  pub n_ports : ℕ
  pub transport : Option Text
  pub formats : Option (List ℕ)
  pub title : Option Text
  pub bandwidth : Option Text
  pub encryption_key : Option Text
  pub connection : Option ConnectionInfo
  pub attributes : List Text

-- The constructor `SDPMediaDescription()`.
abbrev pub new_media : MediaDescription
new_media = record {
  is_auto = false;
  media = none;
  port = 0;
  n_ports = 0;
  transport = none;
  formats = none;
  title = none;
  bandwidth = none;
  encryption_key = none;
  connection = none;
  attributes = [];
}

pub record TimeDescription : Type 0 where
  pub is_auto : Bool
  pub time : Option Text
  pub reps : Option Text
  pub start_time : ℕ
  pub stop_time : ℕ
  pub ntp_start_time : ℕ
  pub ntp_stop_time : ℕ
  pub repeat_interval : ℕ
  pub active_duration : ℕ
  pub offsets : Option (List ℕ)

-- The constructor `SDPTimeDescription()`.
abbrev pub new_time : TimeDescription
new_time = record {
  is_auto = false;
  time = none;
  reps = none;
  start_time = 0;
  stop_time = 0;
  ntp_start_time = 0;
  ntp_stop_time = 0;
  repeat_interval = 0;
  active_duration = 0;
  offsets = none;
}

pub record SdpPacket : Type 0 where
  pub n_conn_info : ℕ
  pub version : ℕ
  pub owner : Option Text
  pub connection : Option ConnectionInfo
  pub attributes : List Text
  pub times : List TimeDescription
  pub medias : List MediaDescription
  pub username : Option Text
  pub session_id_str : Option Text
  pub session_id : ℕ
  pub owner_version_str : Option Text
  pub owner_version : ℕ
  pub network_type : Option Text
  pub address : Option Text
  pub address_type : Option Text
  pub name : Option Text
  pub info : Option Text
  pub uri : Option Text
  pub email : Option Text
  pub phone : Option Text
  pub bandwidth : Option Text
  pub timezone_adj : Option Text
  pub encryption_key : Option Text
  pub input : Option Text

-- The constructor `SDPPacket()`.
abbrev pub new_sdp : SdpPacket
new_sdp = record {
  n_conn_info = 0;
  version = 0;
  owner = none;
  connection = none;
  attributes = [];
  times = [];
  medias = [];
  username = none;
  session_id_str = none;
  session_id = 0;
  owner_version_str = none;
  owner_version = 0;
  network_type = none;
  address = none;
  address_type = none;
  name = none;
  info = none;
  uri = none;
  email = none;
  phone = none;
  bandwidth = none;
  timezone_adj = none;
  encryption_key = none;
  input = none;
}

-- `reset` leaves the owner and the texts of the session as they are.
unfoldable pub reset : SdpPacket → SdpPacket
reset p = record p {
  medias = [];
  times = [];
  n_conn_info = 0;
  version = 0;
  connection = none;
  input = none;
  attributes = [];
}

-- `setConnectionInfo` of the packet: a connection that is there stays.
unfoldable pub set_connection_info : ConnectionInfo → SdpPacket → ℤ × SdpPacket
set_connection_info c p = elim p.connection [
  | some old ↦ (negsuc 9, p)
  | none ↦ (pos 0, record p { connection = some c; n_conn_info = suc p.n_conn_info })
]

unfoldable pub add_media : MediaDescription → SdpPacket → SdpPacket
add_media m p =
    let counted : ℕ = elim m.connection [ none ↦ p.n_conn_info | some c ↦ suc p.n_conn_info ] in
    record p { n_conn_info = counted; medias = p.medias ++ m ∷ [] }

unfoldable pub add_time : TimeDescription → SdpPacket → SdpPacket
add_time t p = record p { times = p.times ++ t ∷ [] }

unfoldable pub media_at : ℕ → SdpPacket → Option MediaDescription
media_at index p = get_elem? p.medias index

unfoldable pub time_at : ℕ → SdpPacket → Option TimeDescription
time_at index p = get_elem? p.times index

-- `getAttribute` of a packet or a media description: 0, -1 or 1, and what is copied to the buffer.
unfoldable pub attribute_at : List Text → ℕ → ℕ → ℤ × Option Text
attribute_at attributes len index = elim (get_elem? attributes index) [
  | none ↦ (pos 0, none)
  | some a ↦ if ltb len (length a + 1) then (negsuc 0, none) else (pos 1, some a)
]
