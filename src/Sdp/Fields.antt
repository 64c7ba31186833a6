-- ===== src/Sdp/Fields.antt =====
-- src/SDP.cpp: what a field's text leaves in a connection, a media or time description or a packet.
-- `strtok` with a null text goes on in a text of an earlier call, which the model calls a fault, as
-- it does a null pointer that is looked at.
use viva_voce.Prelude.{
  ℕ, suc, ◌*◌, ◌-◌, ◌%◌, ◌^◌, [], ◌∷◌, ◌++◌, Bool, true, false, Option, none, some, length, get_or,
  ◌==◌, if◌then◌else◌, ◌>>=◌, map,
}
use viva_voce.Prelude.Int.{ℤ, pos, negsuc}
use viva_voce.Text.{Text, codes, strtok, terminated, all_tokens}
use viva_voce.Text.Decimal.{atoi, atol, is_digit}
use viva_voce.Sdp.{ConnectionInfo, MediaDescription, TimeDescription, SdpPacket, new_connection}

-- What is done without a token, and with one.
abbrev pub on_token {ℓ κ} : {A : Type ℓ} {B : Type κ} → Option A → B → (A → B) → B
on_token none stop go = stop
on_token (some a) stop go = go a

-- The C library's `inet_addr`.
module _ (inet_addr : Text → ℕ) where
  -- What stands after the address: the time to live and the number of addresses.
  unfoldable pub set_ttl : Text → ConnectionInfo → ConnectionInfo
  unfolding strtok
  set_ttl rest c =
      let ttl = strtok (codes "/") rest in
      let number = strtok (codes "/") ttl.1 in
      elim ttl.0 [
        | none ↦ c
        | some t ↦ elim number.0 [
          | none ↦ record c { ttl = atoi t }
          | some n ↦ record c { ttl = atoi t; num_address = atoi n }
        ]
      ]

  -- `SDPConnectionInfo::setConnectionInfo` of a new connection, or none where it returns -1.
  unfoldable pub set_connection : Bool → Text → Option ConnectionInfo
  unfolding strtok set_ttl
  set_connection is_auto str =
      let network = strtok (codes " ") str in
      let type_ = strtok (codes " ") network.1 in
      let place = strtok (codes " ") type_.1 in
      do
        network_type ← network.0
        address_type ← type_.0
        whole ← place.0
        let address = strtok (codes "/") whole in
            do
              text ← address.0
              some (
                  set_ttl address.1 (record new_connection {
                    is_auto = is_auto;
                    network_type = some network_type;
                    address_type = some address_type;
                    address = some text;
                    ip_address = inet_addr text;
                  }))

  -- The port of a media description, with the number of ports, if there is one.
  unfoldable pub set_port : Text → MediaDescription → Option MediaDescription
  set_port text m =
      let port = strtok (codes "/") text in
      let number = strtok (codes "/") port.1 in
      do
        digits ← port.0
        some (record m { port = atoi digits; n_ports = on_token number.0 m.n_ports (λ n. atoi n) })

  unfoldable pub set_formats : Text → MediaDescription → MediaDescription
  set_formats rest m =
      on_token (strtok (codes " ") rest).0 m
        (λ t. record m { formats = some (map atoi (all_tokens (codes " ") t)) })

  -- `case 'm'`: the result, and what it leaves of the description.
  unfoldable pub set_media : Text → MediaDescription → ℤ × MediaDescription
  set_media str m =
      let media = strtok (codes " ") str in
      let port = strtok (codes " ") media.1 in
      let transport = strtok (codes " ") port.1 in
      let m1 = record m { media = media.0 } in
      on_token (do name ← media.0; text ← port.0; set_port text m1) (negsuc 0, m1)
        (λ m2.
          let m3 = record m2 { transport = transport.0 } in
          on_token transport.0 (negsuc 0, m3) (λ name. (pos 0, set_formats transport.1 m3)))

  -- `SDPMediaDescription::setField`.
  unfoldable pub set_media_field :
      ℕ → Option Text → MediaDescription → Option (ℤ × MediaDescription)
  unfolding set_connection
  set_media_field ch str m =
      if ch == b'm'
      then (do text ← str; some (set_media text m))
      else if ch == b'i'
      then some (pos 0, record m { title = str })
      else if ch == b'c'
      then (do text ← str; some (pos 0, record m { connection = set_connection false text }))
      else if ch == b'b'
      then some (pos 0, record m { bandwidth = str })
      else if ch == b'k'
      then some (pos 0, record m { encryption_key = str })
      else if ch == b'a'
      then (do text ← str; some (pos 0, record m { attributes = m.attributes ++ text ∷ [] }))
      else some (negsuc 0, m)

  -- `SDPPacket::setConnection`.
  unfoldable pub set_packet_connection : Text → SdpPacket → ℤ × SdpPacket
  unfolding set_connection
  set_packet_connection str p = elim (set_connection true str) [
    | none ↦ (negsuc 0, record p { connection = none })
    | some c ↦ (pos 0, record p { connection = some c; n_conn_info = suc p.n_conn_info })
  ]

-- The factor of a time's unit, or none for an unknown one.
abbrev pub unit_of : ℕ → Option ℕ
unit_of ch =
    if is_digit ch
    then some 1
    else if ch == b'd'
    then some 86400
    else if ch == b'h'
    then some 3600
    else if ch == b'm'
    then some 60
    else if ch == b's'
    then some 1
    else none

-- `parseTime` of a text that is not empty.
unfoldable pub parse_time : Text → ℕ
parse_time str = elim (unit_of (get_or str (length str - 1) 0)) [
  | none ↦ 2 ^ 64 - 1
  | some mul ↦ mul * atol str % 2 ^ 64
]

-- `SDPTimeDescription::setField` of a t field.
unfoldable pub set_time : Text → TimeDescription → ℤ × TimeDescription
unfolding strtok terminated parse_time
set_time str t =
    let start = strtok (codes " ") str in
    let stop = strtok (codes " ") start.1 in
    let t1 = record t { time = some (terminated (codes " ") str) } in
    elim start.0 [
      | none ↦ (negsuc 0, t1)
      | some from ↦
          let t2 = record t1 { ntp_start_time = parse_time from } in
          elim stop.0 [
            | none ↦ (negsuc 0, t2)
            | some to ↦ (pos 0, record t2 { ntp_stop_time = parse_time to })
          ]
    ]

-- The same of an r field.
unfoldable pub set_repeat : Text → TimeDescription → ℤ × TimeDescription
unfolding strtok terminated all_tokens
set_repeat str t =
    let interval = strtok (codes " ") str in
    let duration = strtok (codes " ") interval.1 in
    let t1 = record t { reps = some (terminated (codes " ") str) } in
    elim interval.0 [
      | none ↦ (negsuc 0, t1)
      | some every ↦
          let t2 = record t1 { repeat_interval = atol every } in
          elim duration.0 [
            | none ↦ (negsuc 0, t2)
            | some long ↦ (
              pos 0,
              record t2 {
                active_duration = atol long;
                offsets = some (map atol (all_tokens (codes " ") duration.1));
              },
            )
          ]
    ]

unfoldable pub set_time_field : ℕ → Option Text → TimeDescription → Option (ℤ × TimeDescription)
unfolding set_time set_repeat
set_time_field ch str t =
    if ch == b't'
    then (do text ← str; some (set_time text t))
    else if ch == b'r'
    then (do text ← str; some (set_repeat text t))
    else some (negsuc 0, t)

-- `setOwner`: the six words of an owner, as far as they are there.
unfoldable pub set_owner : Text → SdpPacket → SdpPacket
set_owner str p =
    let user = strtok (codes " ") str in
    let session = strtok (codes " ") user.1 in
    let version = strtok (codes " ") session.1 in
    let network = strtok (codes " ") version.1 in
    let type_ = strtok (codes " ") network.1 in
    let place = strtok (codes " ") type_.1 in
    let p1 = record p { owner = some (terminated (codes " ") str); username = user.0 } in
    on_token user.0 p1 (λ u.
      let p2 = record p1 { session_id_str = session.0 } in
      on_token session.0 p2 (λ s.
        let p3 = record p2 { session_id = atol s; owner_version_str = version.0 } in
        on_token version.0 p3 (λ v.
          let p4 = record p3 { owner_version = atol v; network_type = network.0 } in
          on_token network.0 p4 (λ n.
            let p5 = record p4 { address_type = type_.0 } in
            on_token type_.0 p5 (λ a. record p5 { address = place.0 })))))

-- `SDPPacket::setField`.
unfoldable pub set_session_field : (Text → ℕ) → ℕ → Option Text → SdpPacket → Option (ℤ × SdpPacket)
unfolding set_packet_connection
set_session_field inet_addr ch str p =
    if ch == b'v'
    then (do text ← str; some (pos 0, record p { version = atoi text }))
    else if ch == b'o'
    then (do text ← str; some (pos 0, set_owner text p))
    else if ch == b's'
    then some (pos 0, record p { name = str })
    else if ch == b'i'
    then some (pos 0, record p { info = str })
    else if ch == b'u'
    then some (pos 0, record p { uri = str })
    else if ch == b'e'
    then some (pos 0, record p { email = str })
    else if ch == b'p'
    then some (pos 0, record p { phone = str })
    else if ch == b'c'
    then (do text ← str; some (set_packet_connection inet_addr text p))
    else if ch == b'b'
    then some (pos 0, record p { bandwidth = str })
    else if ch == b'z'
    then some (pos 0, record p { timezone_adj = str })
    else if ch == b'k'
    then some (pos 0, record p { encryption_key = str })
    else if ch == b'a'
    then (do text ← str; some (pos 0, record p { attributes = p.attributes ++ text ∷ [] }))
    else some (negsuc 0, p)
