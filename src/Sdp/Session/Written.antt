-- ===== src/Sdp/Session/Written.antt =====
-- src/UserAgent.cpp and src/SDP.cpp: the text that is written of the session of `init`.
use mathlib.Core.List.{append_assoc, append-nil}
use viva_voce.Prelude.{ℕ, ◌<◌, ◌^◌, ◌≡◌, refl, List, [], ◌∷◌, ◌++◌, some, arith, length, ltb-true}
use viva_voce.Prelude.Int.{pos}
use viva_voce.Text.{Text, codes, printed}
use viva_voce.Text.Decimal.{decimal, show_int, show_long, show_int-decimal}
use viva_voce.Sdp.{new_sdp, reset, set_connection_info, add_media, add_time, attribute_at}
use viva_voce.Sdp.Writer.{
  write, write_connection, write_attributes, media_attributes, write_time, write_times, write_media,
  write_medias,
}
use viva_voce.Sdp.Session.{own_session}
use viva_voce.Sdp.Session.Lines.{Line, texts_of}

-- The lines but for the last, without the name of the first line's key.
abbrev pub owner_of : Text → ℕ → ℕ → Text
owner_of username session_id owner_version = printed (
    username
    ∷ codes " "
    ∷ decimal session_id
    ∷ codes " "
    ∷ decimal owner_version
    ∷ codes " IN IP4 127.0.0.0"
    ∷ [])

abbrev pub media_of : ℕ → Text
media_of port = printed (codes "audio " ∷ decimal port ∷ codes " RTP/AVP  0" ∷ [])

abbrev pub own_lines : Text → ℕ → List Line
own_lines owner port =
    (b'v', codes "2")
    ∷ (b'o', owner)
    ∷ (b's', codes "SIP/SDP/RTP/ADPCM")
    ∷ (b'i', codes "VivaVoce IP telephony")
    ∷ (b'u', codes "http://sites.google.com/kunalkandekar/")
    ∷ (b'e', codes "kunalkandekar@gmail.com")
    ∷ (b'c', codes "IN IP4 127.0.0.0")
    ∷ (b't', codes "0 0")
    ∷ (b'r', codes "0 0 0 0")
    ∷ (b'm', media_of port)
    ∷ []

-- The last line without its last three bytes.
abbrev pub attribute_start : Text
attribute_start = codes "\na=rtpmap:0 PCMU/800"

-- The whole text: the lines, and the attribute.
abbrev pub own_text : Text → ℕ → Text
own_text owner port =
    b'v' ∷ b'=' ∷ codes "2"
    ++ b'\r'
      ∷ texts_of
          ((b'o', owner)
            ∷ (b's', codes "SIP/SDP/RTP/ADPCM")
            ∷ (b'i', codes "VivaVoce IP telephony")
            ∷ (b'u', codes "http://sites.google.com/kunalkandekar/")
            ∷ (b'e', codes "kunalkandekar@gmail.com")
            ∷ (b'c', codes "IN IP4 127.0.0.0")
            ∷ (b't', codes "0 0")
            ∷ (b'r', codes "0 0 0 0")
            ∷ (b'm', media_of port)
            ∷ [])
          (codes "\na=rtpmap:0 PCMU/8000\r\n")

show_long-decimal : (n : ℕ) → n < 2 ^ 31 → show_long n ≡ decimal n
unfolding show_long
show_long-decimal n h = rw (ltb-true n (2 ^ 63) (omega arith)) refl

small : (show_int 2 ≡ codes "2") × (show_int 0 ≡ codes "0") × (show_long 0 ≡ codes "0")
unfolding show_int show_long decimal
small = (refl, refl, refl)

pub write-own_session :
    (username : Text) (session_id owner_version port : ℕ)
    → session_id < 2 ^ 31
    → owner_version < 2 ^ 31
    → port < 2 ^ 31
    → let text = own_text (owner_of username session_id owner_version) port in
      write (own_session username session_id owner_version port new_sdp)
      ≡ some (pos (length text), text)
unfolding write own_session reset set_connection_info add_media add_time write_connection
    write_attributes media_attributes write_time write_times write_media write_medias attribute_at
write-own_session username session_id owner_version port i o p =
    rw
      (
        small.0,
        small.1,
        small.2,
        show_long-decimal session_id i,
        show_long-decimal owner_version o,
        show_int-decimal port p,
      )
      (simp (append_assoc, append-nil) refl)
