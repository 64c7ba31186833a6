-- ===== src/Sdp/Reader.antt =====
-- src/SDP.cpp: `SDPHandler::read`. The order of the fields is kept apart from what they set.
use viva_voce.Prelude.{
  ℕ, zero, suc, List, [], ◌∷◌, Bool, true, false, not, ◌&&◌, ◌||◌, Option, none, some, length, ◌==◌,
  if◌then◌else◌, ◌>>=◌, take,
}
use viva_voce.Prelude.Int.{ℤ, pos, negsuc, ltb_ℤ, ◌-ℤ◌}
use viva_voce.Text.{Text, codes, strtok}
use viva_voce.Sdp.{
  SdpPacket, MediaDescription, TimeDescription, new_media, new_time, add_media, add_time,
}
use viva_voce.Sdp.Fields.{set_media_field, set_session_field, set_time_field}

-- `SDPFields` and `SDPMediaFields`.
abbrev pub sdp_fields : Text
sdp_fields = codes "vosiuepcbtrzkamicbka"

abbrev pub media_fields : Text
media_fields = codes "micbka"

-- The first and the last place of a character in a text.
abbrev pub first_place : Text → ℕ → Option ℕ
first_place [] c = none
first_place (d ∷ s) c =
    let rest = first_place s c in
    if c == d then some 0 else elim rest [ none ↦ none | some n ↦ some (suc n) ]

abbrev pub last_place : Text → ℕ → Option ℕ
last_place [] c = none
last_place (d ∷ s) c =
    let rest = last_place s c in
    elim rest [ some n ↦ some (suc n) | none ↦ if c == d then some 0 else none ]

-- `oldIndex`, `prev`, `bReqdDone` and `bMediaStarted`.
pub record Order : Type 0 where
  pub old_index : ℤ
  pub prev : ℕ
  pub required_done : Bool
  pub media_started : Bool

abbrev pub start : Order
start = record { old_index = pos 0; prev = b'v'; required_done = false; media_started = false }

-- A key is refused with an error, or the next one follows it.
pub data Verdict : Type 0 where
  refused : ℤ → Verdict
  placed : Order → Verdict

-- The place that the next key is compared with, and what has been seen.
unfoldable pub follow : ℤ → ℕ → Order → Verdict
follow index ch o =
    let done = o.required_done || (not (ltb_ℤ index (pos 2)) && not (ltb_ℤ (pos 2) index)) in
    let media = o.media_started || ch == b'm' in
    if ch == b't'
    then placed
        (record { old_index = pos 10; prev = ch; required_done = done; media_started = media })
    else if ch == b'r'
    then (if o.prev == b't'
        then placed
            (record { old_index = pos 8; prev = ch; required_done = done; media_started = media })
        else refused (negsuc 5))
    else placed (record {
      old_index = if ch == b'a' then index -ℤ pos 1 else index;
      prev = ch;
      required_done = done;
      media_started = media;
    })

-- The checks of one key at its place, in the order of the code.
unfoldable pub check_at : ℤ → ℕ → Order → Verdict
unfolding follow
check_at index ch o =
    let next = follow index ch o in
    if o.media_started && ltb_ℤ index (pos 0)
    then refused (negsuc 1)
    else if o.media_started && ltb_ℤ index o.old_index && not (ch == b'm')
    then refused (negsuc 2)
    else if not o.media_started && (ltb_ℤ index (pos 0) || ltb_ℤ index o.old_index)
    then refused (negsuc 3)
    else if not o.required_done && ltb_ℤ (pos 2) index
    then refused (negsuc 4)
    else next

-- The last description of a list, which the reader's pointer points to, changed.
unfoldable pub on_last {ℓ} : {A : Type ℓ} → (A → Option A) → List A → Option (List A)
on_last f [] = none
on_last f (a ∷ []) = do b ← f a; some (b ∷ [])
on_last f (a ∷ b ∷ s) = do s1 ← on_last f (b ∷ s); some (a ∷ s1)

-- A field of the time description, or of the media description, that was begun last.
unfoldable pub set_last_time :
    (TimeDescription → Option (ℤ × TimeDescription)) → SdpPacket → Option SdpPacket
set_last_time field p = do
  times ← on_last (λ t. do r ← field t; some r.1) p.times
  some (record p { times = times })

unfoldable pub set_last_media :
    (MediaDescription → Option (ℤ × MediaDescription)) → SdpPacket → Option SdpPacket
set_last_media field p = do
  medias ← on_last (λ m. do r ← field m; some r.1) p.medias
  some (record p { medias = medias })

-- The result and the packet that is left; or the fuel was too little for the lines.
pub data Reading : Type 0 where
  finished : ℤ → SdpPacket → Reading
  looping : Reading

-- What the code calls `getNumTotalConnections() < 1`.
abbrev pub no_connection : ℤ
no_connection = negsuc 6

-- At the end of the lines, or at a line.
abbrev pub at_line : Option Text → SdpPacket → (Text → Option Reading) → Option Reading
at_line none p go = some (finished (if p.n_conn_info == 0 then no_connection else pos 0) p)
at_line (some text) p go = go text

-- The key of a line is one character long.
abbrev pub at_key : Option Text → SdpPacket → (ℕ → Option Reading) → Option Reading
at_key none p go = none
at_key (some []) p go = none
at_key (some (ch ∷ [])) p go = go ch
at_key (some (ch ∷ c ∷ cs)) p go = some (finished (negsuc 0) (record p { input = none }))

-- After the checks of a key: the field is set, and the reader goes on.
abbrev pub after_key :
    Verdict
    → SdpPacket
    → (Order → Option SdpPacket)
    → (Order → SdpPacket → Option Reading)
    → Option Reading
after_key (refused code) p field go = some (finished code (record p { input = none }))
after_key (placed o) p field go = field o >>= go o

-- The difference of a null pointer and a text, which `indexOf` gives for a character that the text
-- lacks.
module _ (absent : Text → ℤ) where
  abbrev index_or_absent : Text → Option ℕ → ℤ
  index_or_absent s none = absent s
  index_or_absent s (some n) = pos n

  unfoldable pub index_of : Text → ℕ → ℤ
  index_of s c = index_or_absent s (first_place s c)

  unfoldable pub last_index_of : Text → ℕ → ℤ
  last_index_of s c = index_or_absent s (last_place s c)

  -- The place of a key, or the error that its order is.
  unfoldable pub find_index : Order → ℕ → ℤ
  find_index o ch = if o.media_started then last_index_of sdp_fields ch else index_of sdp_fields ch

  unfoldable pub check_key : Order → ℕ → Verdict
  unfolding check_at
  check_key o ch = check_at (find_index o ch) ch o

  -- What a field sets in the packet once its key is in order; `media` tells whether a media
  -- description has been begun, this field included.
  unfoldable pub set_field : (Text → ℕ) → Bool → ℕ → Option Text → SdpPacket → Option SdpPacket
  set_field inet_addr media ch value p =
      if ch == b't' || ch == b'r'
      then set_last_time (set_time_field ch value)
          (if ch == b't' then add_time (record new_time { is_auto = true }) p else p)
      else if media && not (ltb_ℤ (index_of media_fields ch) (pos 0))
      then set_last_media (set_media_field inet_addr ch value)
          (if ch == b'm' then add_media (record new_media { is_auto = true }) p else p)
      else (do r ← set_session_field inet_addr ch value p; some r.1)

  -- The loop: the lines that are left, the order and the packet so far.
  unfoldable pub read_lines : (Text → ℕ) → ℕ → Text → Order → SdpPacket → Option Reading
  unfolding strtok check_key set_field
  read_lines inet_addr zero rest o p = some looping
  read_lines inet_addr (suc fuel) rest o p =
      let line = strtok (codes "\r\n") rest in
      at_line line.0 p (λ text.
        let key = strtok (codes "=") text in
        let value = strtok (codes "=") key.1 in
        at_key key.0 p (λ ch.
          after_key (check_key o ch) p (λ o1. set_field inet_addr o1.media_started ch value.0 p)
            (λ o1 p1. read_lines inet_addr fuel line.1 o1 p1)))

  -- `SDPHandler::read` of a text.
  unfoldable pub read : (Text → ℕ) → Text → ℕ → SdpPacket → Option Reading
  unfolding read_lines
  read inet_addr bytes len p =
      let copied = take len bytes in
      read_lines inet_addr (suc (length copied)) copied start (record p { input = some copied })
