-- ===== src/Sdp/Tests.antt =====
-- src/SDP.cpp: the theorems at small packets, and the packets that show what the reader refuses.
use viva_voce.Prelude.{ℕ, ◌≡◌, refl, List, [], ◌∷◌, Option, none, some}
use viva_voce.Prelude.Int.{ℤ, pos, negsuc}
use viva_voce.Text.{Text, codes}
use viva_voce.Text.Decimal.{atoi}
use viva_voce.Sdp.{MediaDescription, new_sdp, add_media, add_time}
use viva_voce.Sdp.Fields.{
  set_owner, set_media, set_port, set_formats, set_session_field, set_media_field, set_time_field,
}
use viva_voce.Sdp.Reader.{
  start, read, find_index, index_of, last_index_of, on_last, set_last_time, set_last_media, Reading,
  finished, looping,
}
use viva_voce.Sdp.Order.{seen_of, seen_result, take_keys, described, take_keys-described}
use viva_voce.Sdp.Totality.{Ended, read-Ended}

-- What `indexOf` gives for a character that is not there, and `inet_addr`, in the tests.
abbrev absent : Text → ℤ
absent s = negsuc 40

abbrev localhost : Text → ℕ
localhost s = 16777343

take_keys-described_example :
    seen_result (take_keys absent start (codes "vosiuectrmaa"))
    ≡ described absent (seen_of start) (codes "vosiuectrmaa")
take_keys-described_example = take_keys-described absent (codes "vosiuectrmaa")

abbrev session : Text
session =
    codes
      "v=2\r\no=a 1 2 IN IP4 1.2.3.4\r\ns=call\r\nc=IN IP4 1.2.3.4\r\nt=0 0\r\nr=0 0 0 0\r\nm=audio 4000 RTP/AVP  0\r\na=x\r\n"

read-Ended_example : Ended (read absent localhost session 200 new_sdp)
read-Ended_example = read-Ended absent localhost session 200 new_sdp

-- The result and the ports that a text gives.
abbrev ports : List MediaDescription → List ℕ
ports [] = []
ports (m ∷ ms) = m.port ∷ ports ms

abbrev result : Option Reading → ℤ × List ℕ
result none = (negsuc 99, [])
result (some looping) = (negsuc 98, [])
result (some (finished code p)) = (code, ports p.medias)

session_lines : result (read absent localhost session 200 new_sdp) ≡ (pos 0, 4000 ∷ [])
unfolding read find_index last_index_of atoi set_owner set_media set_port set_formats set_last_time
    add_time set_time_field set_last_media on_last add_media set_session_field set_media_field
    index_of
session_lines = refl

-- A second t line in a row is refused.
two_times :
    result (read absent localhost (codes "s=a\nc=IN IP4 1\nt=0 0\nt=1 1") 99 new_sdp)
    ≡ (negsuc 3, [])
unfolding read find_index index_of set_last_time on_last add_time set_session_field set_time_field
two_times = refl

-- A connection in the media description is not counted.
media_connection :
    result (read absent localhost (codes "s=a\nm=audio 5 RTP/AVP 0\nc=IN IP4 1") 99 new_sdp)
    ≡ (negsuc 6, 5 ∷ [])
unfolding read find_index last_index_of atoi set_media set_port set_formats set_last_media on_last
    add_media set_session_field set_media_field index_of
media_connection = refl
