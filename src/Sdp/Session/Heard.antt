-- ===== src/Sdp/Session/Heard.antt =====
-- src/SDP.cpp and src/UserAgent.cpp: the session of `init`, as a peer that runs this code reads it.
use viva_voce.Prelude.{
  ℕ, suc, ◌<◌, ◌^◌, ◌≡◌, refl, ap, ◌∙◌, List, [], ◌∷◌, true, false, some, none, Option, map,
}
use viva_voce.Prelude.Int.{ℤ, pos}
use viva_voce.Text.{Text, codes, member}
use viva_voce.Text.Cuts.{IsPlain, strtok-skip}
use viva_voce.Text.Decimal.{atoi}
use viva_voce.Sdp.{SdpPacket, MediaDescription, new_media}
use viva_voce.Agent.Environment.{Media, Sdp, malformed, described}
use viva_voce.Sdp.Fields.{set_connection, set_packet_connection}
use viva_voce.Sdp.Reader.{
  Order, Reading, finished, start, read_lines, placed, after_key, set_field, check_key,
}
use viva_voce.Sdp.Session.Lines.{Line, through, through-placed}
use viva_voce.Sdp.Session.Steps.{
  set_owner-owner_of, set_media-media_of, after, in_turn, field_set, times_set, medias_set,
}
use viva_voce.Sdp.Session.Written.{owner_of, media_of, own_lines, attribute_start}

-- The result of the reader, as the agent sees it: a null text is like one without a token.
abbrev or_empty : Option Text → Text
or_empty none = []
or_empty (some t) = t

abbrev pub media_heard : MediaDescription → Media
media_heard m = record { media = or_empty m.media; transport = or_empty m.transport; port = m.port }

abbrev pub described_by : Option Reading → Sdp
described_by (some (finished (pos n) p)) = described (map media_heard p.medias)
described_by _ = malformed

-- What the text says, for the agent.
abbrev pub said : ℕ → Sdp
said port =
    described (record { media = codes "audio"; transport = codes "RTP/AVP"; port = port } ∷ [])

module _ (absent : Text → ℤ) (inet_addr : Text → ℕ) where
  pub read_lines-skip :
      (c : ℕ) (s : Text) (fuel : ℕ) (o : Order) (p : SdpPacket)
      → member c (codes "\r\n") ≡ true
      → read_lines absent inet_addr (suc fuel) (c ∷ s) o p
        ≡ read_lines absent inet_addr (suc fuel) s o p
  unfolding read_lines
  read_lines-skip c s fuel o p h = rw (strtok-skip (codes "\r\n") c s h) refl

  -- The reader of the attribute, after lines.
  unfoldable pub seen : ℕ → List Line → Order → SdpPacket → Sdp
  seen fuel ls o p = described_by (
      through absent inet_addr ls o p
        (λ o1 p1. read_lines absent inet_addr (suc (suc fuel)) attribute_start o1 p1))

  attribute_read :
      (fuel : ℕ) (p p1 : SdpPacket)
      → set_field absent inet_addr true b'a' (some (codes "rtpmap:0 PCMU/800")) p ≡ some p1
      → p1.n_conn_info ≡ 1
      → read_lines absent inet_addr (suc (suc fuel)) attribute_start (after 14 b'm' true true) p
        ≡ some (finished (pos 0) p1)
  unfolding read_lines
  attribute_read fuel p p1 sets one =
      let step : read_lines absent inet_addr (suc (suc fuel)) attribute_start
            (after 14 b'm' true true) p
          ≡ after_key (check_key absent (after 14 b'm' true true) b'a') p
              (λ o1.
                set_field absent inet_addr o1.media_started b'a' (some (codes "rtpmap:0 PCMU/800"))
                  p)
              (λ o1 p1. read_lines absent inet_addr (suc fuel) [] o1 p1) =
        refl in
      step ∙ rw ((in_turn absent).10, sets, one) refl

  -- One line more in front.
  told :
      (fuel : ℕ) (s : Sdp) (key : ℕ) (value : Text) (ls : List Line) (o o1 : Order)
      (p p1 : SdpPacket)
      → check_key absent o key ≡ placed o1
      → set_field absent inet_addr o1.media_started key (some value) p ≡ some p1
      → seen fuel ls o1 p1 ≡ s
      → seen fuel ((key, value) ∷ ls) o p ≡ s
  unfolding seen
  told fuel s key value ls o o1 p p1 turn sets next =
      ap described_by (
        through-placed absent inet_addr key value ls o o1 p p1
          (λ o1 p1. read_lines absent inet_addr (suc (suc fuel)) attribute_start o1 p1) turn sets)
      ∙ next

  media_told :
      (fuel port : ℕ) (p : SdpPacket)
      → port < 2 ^ 31
      → p.medias ≡ []
      → p.n_conn_info ≡ 1
      → seen fuel ((b'm', media_of port) ∷ []) (after 8 b'r' true false) p ≡ said port
  unfolding seen
  media_told fuel port p h empty one =
      let sets = medias_set absent inet_addr (media_of port) (codes "rtpmap:0 PCMU/800") p in
      told fuel _ b'm' (media_of port) [] _ _ p _ (in_turn absent).9 sets.0 (
        ap described_by (attribute_read fuel _ _ sets.1 one)
        ∙ rw (empty, set_media-media_of inet_addr port (record new_media { is_auto = true }) h)
            refl)

  times_told :
      (fuel port : ℕ) (p : SdpPacket)
      → port < 2 ^ 31
      → p.medias ≡ []
      → p.n_conn_info ≡ 1
      → seen fuel
          ((b't', codes "0 0") ∷ (b'r', codes "0 0 0 0") ∷ (b'm', media_of port) ∷ [])
          (after 7 b'c' true false)
          p
        ≡ said port
  times_told fuel port p h empty one =
      let sets = times_set absent inet_addr (codes "0 0") (codes "0 0 0 0") p in
      told fuel _ b't' (codes "0 0") _ _ _ p _ (in_turn absent).7 sets.0 (
        told fuel _ b'r' (codes "0 0 0 0") _ _ _ _ _ (in_turn absent).8 sets.1
          (media_told fuel port _ h empty one))

  connection_set :
      (p : SdpPacket)
      → let p1 = (set_packet_connection inet_addr (codes "IN IP4 127.0.0.0") p).1 in
        (p1.medias ≡ p.medias) × (p1.n_conn_info ≡ suc p.n_conn_info)
  unfolding set_packet_connection set_connection
  connection_set p = (refl, refl)

  connection_told :
      (fuel port : ℕ) (p : SdpPacket)
      → port < 2 ^ 31
      → p.medias ≡ []
      → p.n_conn_info ≡ 0
      → seen fuel
          ((b'c', codes "IN IP4 127.0.0.0")
            ∷ (b't', codes "0 0")
            ∷ (b'r', codes "0 0 0 0")
            ∷ (b'm', media_of port)
            ∷ [])
          (after 5 b'e' true false)
          p
        ≡ said port
  connection_told fuel port p h empty none_yet =
      let counted = connection_set p in
      told fuel _ b'c' (codes "IN IP4 127.0.0.0") _ _ _ p _ (in_turn absent).6
        (field_set absent inet_addr (codes "IN IP4 127.0.0.0") p).6
        (times_told fuel port _ h (counted.0 ∙ empty) (counted.1 ∙ ap suc none_yet))

  texts_told :
      (fuel port : ℕ) (p : SdpPacket)
      → port < 2 ^ 31
      → p.medias ≡ []
      → p.n_conn_info ≡ 0
      → seen fuel
          ((b's', codes "SIP/SDP/RTP/ADPCM")
            ∷ (b'i', codes "VivaVoce IP telephony")
            ∷ (b'u', codes "http://sites.google.com/kunalkandekar/")
            ∷ (b'e', codes "kunalkandekar@gmail.com")
            ∷ (b'c', codes "IN IP4 127.0.0.0")
            ∷ (b't', codes "0 0")
            ∷ (b'r', codes "0 0 0 0")
            ∷ (b'm', media_of port)
            ∷ [])
          (after 1 b'o' false false)
          p
        ≡ said port
  texts_told fuel port p h empty none_yet =
      let turn = in_turn absent in
      told fuel _ b's' _ _ _ _ p _ turn.2 (field_set absent inet_addr _ p).2 (
        told fuel _ b'i' _ _ _ _ _ _ turn.3 (field_set absent inet_addr _ _).3 (
          told fuel _ b'u' _ _ _ _ _ _ turn.4 (field_set absent inet_addr _ _).4 (
            told fuel _ b'e' _ _ _ _ _ _ turn.5 (field_set absent inet_addr _ _).5
              (connection_told fuel port _ h empty none_yet))))

  pub session_told :
      (fuel : ℕ) (username : Text) (session_id owner_version port : ℕ) (p : SdpPacket)
      → IsPlain username
      → port < 2 ^ 31
      → p.medias ≡ []
      → p.n_conn_info ≡ 0
      → seen fuel (own_lines (owner_of username session_id owner_version) port) start p ≡ said port
  session_told fuel username session_id owner_version port p plain h empty none_yet =
      let turn = in_turn absent in
      let versioned = record p { version = atoi (codes "2") } in
      let owned = set_owner-owner_of username session_id owner_version versioned plain in
      told fuel _ b'v' (codes "2") _ _ _ p versioned turn.0
        (field_set absent inet_addr (codes "2") p).0
        (told fuel _ b'o' (owner_of username session_id owner_version) _ _ _ versioned _ turn.1
          (field_set absent inet_addr (owner_of username session_id owner_version) versioned).1
          (texts_told fuel port _ h (ap (λ q. q.medias) owned ∙ empty)
            (ap (λ q. q.n_conn_info) owned ∙ none_yet)))
