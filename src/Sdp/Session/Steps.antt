-- ===== src/Sdp/Session/Steps.antt =====
-- src/SDP.cpp: what the reader does with the lines of the session of `init`, one by one.
use viva_voce.Prelude.{
  ℕ, ◌<◌, ◌^◌, ◌≡◌, refl, List, [], ◌∷◌, ◌++◌, Bool, true, false, some, none, Option, map, ◌>>=◌,
}
use viva_voce.Prelude.Int.{ℤ, pos, ◌-ℤ◌}
use viva_voce.Sdp.Session.Written.{owner_of, media_of}
use viva_voce.Text.{terminated, all_tokens, Text, codes}
use viva_voce.Text.Cuts.{IsPlain, tokens}
use viva_voce.Text.Decimal.{decimal, atol, atoi, decimal-IsPlain, atoi-decimal_all}
use viva_voce.Sdp.{
  SdpPacket, MediaDescription, TimeDescription, new_media, new_time, add_media, add_time,
}
use viva_voce.Sdp.Fields.{
  set_port, set_formats, set_owner, set_media, set_session_field, set_media_field, set_time_field,
  set_packet_connection, set_time, set_repeat,
}
use viva_voce.Sdp.Reader.{
  Order, start, placed, set_field, check_key, find_index, index_of, last_index_of, on_last,
  set_last_time, set_last_media,
}

pub set_owner-owner_of :
    (username : Text) (i v : ℕ) (p : SdpPacket)
    → IsPlain username
    → let o = owner_of username i v in
      set_owner o p ≡ record p {
        owner = some (terminated (codes " ") o);
        username = some username;
        session_id_str = some (decimal i);
        session_id = atol (decimal i);
        owner_version_str = some (decimal v);
        owner_version = atol (decimal v);
        network_type = some (codes "IN");
        address_type = some (codes "IP4");
        address = some (codes "127.0.0.0");
      }
unfolding set_owner
set_owner-owner_of username i v p plain = simp (tokens, decimal-IsPlain i, decimal-IsPlain v) refl

zero_format : map atoi (all_tokens (codes " ") (codes "0")) ≡ 0 ∷ []
unfolding all_tokens atoi
zero_format = refl

pub set_media-media_of :
    (inet_addr : Text → ℕ) (port : ℕ) (m : MediaDescription)
    → port < 2 ^ 31
    → set_media inet_addr (media_of port) m ≡ (
      pos 0,
      record m {
        media = some (codes "audio");
        port = port;
        transport = some (codes "RTP/AVP");
        formats = some (0 ∷ []);
      },
    )
unfolding set_media set_port set_formats
set_media-media_of inet_addr port m p =
    simp (tokens, decimal-IsPlain port, atoi-decimal_all port p, zero_format) refl

-- The order after a key.
abbrev pub after : ℕ → ℕ → Bool → Bool → Order
after index key named media = record {
  old_index = pos index;
  prev = key;
  required_done = named;
  media_started = media;
}

-- A list's end, behind one element more.
behind {ℓ} :
    {A : Type ℓ} (o : Option A) (x : A) (s : List A)
    → ((o >>= λ b. some (s ++ b ∷ [])) >>= λ s1. some (x ∷ s1))
      ≡ (o >>= λ b. some (x ∷ s ++ b ∷ []))
behind none x s = refl
behind (some b) x s = refl

pub on_last-append {ℓ} :
    {A : Type ℓ} (f : A → Option A) (s : List A) (a : A)
    → on_last f (s ++ a ∷ []) ≡ (f a >>= λ b. some (s ++ b ∷ []))
unfolding on_last
on_last-append f [] a = refl
on_last-append f (x ∷ []) a = behind (f a) x []
on_last-append f (x ∷ y ∷ s) a = rw (on_last-append f (y ∷ s) a) (behind (f a) x (y ∷ s))

module _ (absent : Text → ℤ) where
  pub in_turn :
      (check_key absent start b'v' ≡ placed (after 0 b'v' false false))
      × (check_key absent (after 0 b'v' false false) b'o' ≡ placed (after 1 b'o' false false))
      × (check_key absent (after 1 b'o' false false) b's' ≡ placed (after 2 b's' true false))
      × (check_key absent (after 2 b's' true false) b'i' ≡ placed (after 3 b'i' true false))
      × (check_key absent (after 3 b'i' true false) b'u' ≡ placed (after 4 b'u' true false))
      × (check_key absent (after 4 b'u' true false) b'e' ≡ placed (after 5 b'e' true false))
      × (check_key absent (after 5 b'e' true false) b'c' ≡ placed (after 7 b'c' true false))
      × (check_key absent (after 7 b'c' true false) b't' ≡ placed (after 10 b't' true false))
      × (check_key absent (after 10 b't' true false) b'r' ≡ placed (after 8 b'r' true false))
      × (check_key absent (after 8 b'r' true false) b'm' ≡ placed (after 14 b'm' true true))
      × (check_key absent (after 14 b'm' true true) b'a' ≡ placed (after 18 b'a' true true))
  unfolding check_key find_index index_of last_index_of ◌-ℤ◌
  in_turn = (refl, refl, refl, refl, refl, refl, refl, refl, refl, refl, refl)

  module _ (inet_addr : Text → ℕ) where
    pub field_set :
        (value : Text) (p : SdpPacket)
        → (set_field absent inet_addr false b'v' (some value) p
            ≡ some (record p { version = atoi value }))
          × (set_field absent inet_addr false b'o' (some value) p ≡ some (set_owner value p))
          × (set_field absent inet_addr false b's' (some value) p
              ≡ some (record p { name = some value }))
          × (set_field absent inet_addr false b'i' (some value) p
              ≡ some (record p { info = some value }))
          × (set_field absent inet_addr false b'u' (some value) p
              ≡ some (record p { uri = some value }))
          × (set_field absent inet_addr false b'e' (some value) p
              ≡ some (record p { email = some value }))
          × (set_field absent inet_addr false b'c' (some value) p
              ≡ some (set_packet_connection inet_addr value p).1)
    unfolding set_field set_session_field
    field_set value p = (refl, refl, refl, refl, refl, refl, refl)

    pub times_set :
        (value again : Text) (p : SdpPacket)
        → let begun : TimeDescription = record new_time { is_auto = true } in
          let timed = record p { times = p.times ++ (set_time value begun).1 ∷ [] } in
          let repeated = record p {
            times = p.times ++ (set_repeat again (set_time value begun).1).1 ∷ [];
          } in
          (set_field absent inet_addr false b't' (some value) p ≡ some timed)
          × (set_field absent inet_addr false b'r' (some again) timed ≡ some repeated)
    unfolding set_field set_last_time add_time set_time_field
    times_set value again p =
        let begun : TimeDescription = record new_time { is_auto = true } in
        (
          rw (on_last-append _ p.times begun) refl,
          rw (on_last-append _ p.times (set_time value begun).1) refl,
        )

    pub medias_set :
        (value text : Text) (p : SdpPacket)
        → let m = (set_media inet_addr value (record new_media { is_auto = true })).1 in
          let told = record p { medias = p.medias ++ m ∷ [] } in
          let attributed = record p {
            medias = p.medias ++ (record m { attributes = m.attributes ++ text ∷ [] }) ∷ [];
          } in
          (set_field absent inet_addr true b'm' (some value) p ≡ some told)
          × (set_field absent inet_addr true b'a' (some text) told ≡ some attributed)
    unfolding set_field set_last_media add_media set_media_field index_of
    medias_set value text p =
        let begun : MediaDescription = record new_media { is_auto = true } in
        (
          rw (on_last-append _ p.medias begun) refl,
          rw (on_last-append _ p.medias (set_media inet_addr value begun).1) refl,
        )
