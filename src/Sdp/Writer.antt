-- ===== src/Sdp/Writer.antt =====
-- src/SDP.cpp: `writeTimeDesc` and `SDPHandler::write`. A null pointer for a `%s` is a fault, as is the
-- text `str` where no attribute has been copied to it yet. The code does not look at the length of the
-- buffer.
use viva_voce.Prelude.{ℕ, zero, suc, List, [], ◌∷◌, ◌++◌, Option, none, some, length, ◌>>=◌}
use viva_voce.Prelude.Int.{ℤ, pos, negsuc}
use viva_voce.Text.{Text, codes, printed}
use viva_voce.Text.Decimal.{show_int, show_long}
use viva_voce.Sdp.{ConnectionInfo, MediaDescription, TimeDescription, SdpPacket, attribute_at}

-- A line of a key and a text, if there is one.
abbrev pub line_of : Text → Option Text → Text
line_of key none = []
line_of key (some t) = printed (key ∷ codes "=" ∷ t ∷ codes "\r\n" ∷ [])

-- `/n` of a number that is not 0.
abbrev pub slash : ℕ → Text
slash zero = []
slash (suc n) = b'/' ∷ show_int (suc n)

unfoldable pub write_connection : ConnectionInfo → Option Text
write_connection c = do
  network ← c.network_type
  type_ ← c.address_type
  address ← c.address
  some (
      printed (
        codes "c="
        ∷ network
        ∷ codes " "
        ∷ type_
        ∷ codes " "
        ∷ address
        ∷ codes "\r\n"
        ∷ slash c.ttl
        ∷ slash c.num_address
        ∷ []))

abbrev pub connection_part : Option ConnectionInfo → Option Text
unfolding write_connection
connection_part none = some []
connection_part (some c) = write_connection c

-- The attributes of the session. The text is printed whether the attribute was copied or not: one that
-- was too long leaves the text before it.
unfoldable pub write_attributes : Option Text → List Text → Option Text
unfolding attribute_at
write_attributes str [] = some []
write_attributes str (a ∷ as') =
    let copied = attribute_at (a ∷ []) 100 0 in
    let now : Option Text = elim copied.1 [ none ↦ str | some t ↦ some t ] in
    do text ← now; rest ← write_attributes now as'; some (line_of (codes "a") (some text) ++ rest)

-- The attributes of a media description, without those that do not fit.
unfoldable pub media_attributes : List Text → Text
unfolding attribute_at
media_attributes [] = []
media_attributes (a ∷ as') =
    line_of (codes "a") (attribute_at (a ∷ []) 100 0).1 ++ media_attributes as'

abbrev pub numbers : (ℕ → Text) → List ℕ → List Text
numbers show [] = []
numbers show (n ∷ ns) = codes " " ∷ show n ∷ numbers show ns

abbrev pub or_zero : List ℕ → List ℕ
or_zero [] = 0 ∷ []
or_zero (n ∷ ns) = n ∷ ns

abbrev pub numbers_of : Option (List ℕ) → List ℕ
numbers_of none = []
numbers_of (some ns) = ns

unfoldable pub write_time : TimeDescription → Text
write_time t =
    let offsets = numbers_of t.offsets in
    printed (
      codes "t="
        ∷ show_long t.start_time
        ∷ codes " "
        ∷ show_long t.stop_time
        ∷ codes "\r\nr="
        ∷ show_long t.repeat_interval
        ∷ codes " "
        ∷ show_long t.active_duration
        ∷ codes " "
        ∷ show_long (length offsets)
        ∷ numbers show_long (or_zero offsets)
      ++ codes "\r\n" ∷ [])

unfoldable pub write_times : List TimeDescription → Text
unfolding write_time
write_times [] = []
write_times (t ∷ ts) = write_time t ++ write_times ts

-- The key line of a media description, which is printed where the packet has a key.
abbrev pub key_part : Option Text → Option Text → Option Text
key_part none key = some []
key_part (some pack_key) none = none
key_part (some pack_key) (some key) = some (line_of (codes "k") (some key))

unfoldable pub write_media : Option Text → MediaDescription → Option Text
unfolding media_attributes connection_part
write_media pack_key m = do
  media ← m.media
  transport ← m.transport
  connection ← connection_part m.connection
  key ← key_part pack_key m.encryption_key
  some (
      printed (
        codes "m="
          ∷ media
          ∷ codes " "
          ∷ show_int m.port
          ∷ slash m.n_ports
          ∷ codes " "
          ∷ transport
          ∷ codes " "
          ∷ numbers show_int (or_zero (numbers_of m.formats))
        ++ codes "\r\n"
          ∷ line_of (codes "i") m.title
          ∷ connection
          ∷ line_of (codes "b") m.bandwidth
          ∷ key
          ∷ media_attributes m.attributes
          ∷ []))

unfoldable pub write_medias : Option Text → List MediaDescription → Option Text
unfolding write_media
write_medias key [] = some []
write_medias key (m ∷ ms) = do
  text ← write_media key m
  rest ← write_medias key ms
  some (text ++ rest)

-- The owner and the name, which a packet must have.
abbrev pub heading : SdpPacket → Option Text
heading p = do
  username ← p.username
  network ← p.network_type
  type_ ← p.address_type
  address ← p.address
  name ← p.name
  some (
      printed (
        codes "v="
        ∷ show_int p.version
        ∷ codes "\r\no="
        ∷ username
        ∷ codes " "
        ∷ show_long p.session_id
        ∷ codes " "
        ∷ show_long p.owner_version
        ∷ codes " "
        ∷ network
        ∷ codes " "
        ∷ type_
        ∷ codes " "
        ∷ address
        ∷ codes "\r\ns="
        ∷ name
        ∷ codes "\r\n"
        ∷ []))

abbrev pub after_heading : SdpPacket → Text → Option Text
unfolding connection_part write_attributes write_times write_medias
after_heading p head = do
  connection ← connection_part p.connection
  attributes ← write_attributes none p.attributes
  medias ← write_medias p.encryption_key p.medias
  some (
      printed (
        head
        ∷ line_of (codes "i") p.info
        ∷ line_of (codes "u") p.uri
        ∷ line_of (codes "e") p.email
        ∷ line_of (codes "p") p.phone
        ∷ connection
        ∷ line_of (codes "b") p.bandwidth
        ∷ line_of (codes "z") p.timezone_adj
        ∷ line_of (codes "k") p.encryption_key
        ∷ attributes
        ∷ write_times p.times
        ∷ medias
        ∷ []))

-- `SDPHandler::write`: its result, and the text in the buffer.
unfoldable pub write : SdpPacket → Option (ℤ × Text)
unfolding after_heading
write p = elim (heading p) [
  | none ↦ some (negsuc 7, [])
  | some head ↦ do text ← after_heading p head; some (pos (length text), text)
]
