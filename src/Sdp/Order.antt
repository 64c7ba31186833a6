-- ===== src/Sdp/Order.antt =====
-- src/SDP.cpp: the order of the fields in `SDPHandler::read`, against a description of it by the last
-- field alone.
use viva_voce.Prelude.{
  ℕ, ◌≡◌, refl, ◌∙◌, ap, sym, List, [], ◌∷◌, Bool, true, false, not, ◌&&◌, ◌||◌, Bool-cases, inl,
  inr, Option, none, some, ◌==◌, if◌then◌else◌, ◌>>=◌, arith,
}
use viva_voce.Prelude.Int.{ℤ, pos, negsuc, ltb_ℤ, ◌-ℤ◌}
use viva_voce.Text.{Text}
use viva_voce.Sdp.Reader.{
  Order, Verdict, refused, placed, start, sdp_fields, index_of, last_index_of, check_at, check_key,
  find_index, follow,
}

-- What the description remembers: the last field, and whether the name has been seen and a media
-- description begun.
pub record Seen : Type 0 where
  pub last : ℕ
  pub named : Bool
  pub in_media : Bool

abbrev pub seen_of : Order → Seen
seen_of o = record { last = o.prev; named = o.required_done; in_media = o.media_started }

-- The least place that the field after one can have, by the place of that one.
abbrev pub least_after : ℤ → ℕ → ℤ
least_after i ch =
    if ch == b't'
    then pos 10
    else if ch == b'r'
    then pos 8
    else if ch == b'a'
    then i -ℤ pos 1
    else i

-- Whether a field is at a place that is in order, if it has to reach the least one.
abbrev pub in_order : ℤ → ℤ → Seen → ℕ → Bool
in_order i least s ch =
    not (ltb_ℤ i (pos 0))
    && (not (ltb_ℤ i least) || (s.in_media && ch == b'm'))
    && (s.named || not (ltb_ℤ (pos 2) i))

abbrev pub may_come_at : ℤ → ℤ → Seen → ℕ → Bool
may_come_at i least s ch = in_order i least s ch && (not (ch == b'r') || s.last == b't')

abbrev pub seen_at : ℤ → Seen → ℕ → Seen
seen_at i s ch = record {
  last = ch;
  named = s.named || (not (ltb_ℤ i (pos 2)) && not (ltb_ℤ (pos 2) i));
  in_media = s.in_media || ch == b'm';
}

abbrev pub accepted : Verdict → Option Order
accepted (refused code) = none
accepted (placed o) = some o

-- The reader's verdict at a place is the description's.
abbrev Agrees : ℤ → Order → ℕ → Option Order → Type 0
Agrees i o ch none = may_come_at i o.old_index (seen_of o) ch ≡ false
Agrees i o ch (some o1) =
    (may_come_at i o.old_index (seen_of o) ch ≡ true)
    × (seen_of o1 ≡ seen_at i (seen_of o) ch)
    × (o1.old_index ≡ least_after i ch)

-- The end of the checks, where the place is in order.
abbrev Follows : ℤ → Order → ℕ → Option Order → Type 0
Follows i o ch none = not (ch == b'r') || o.prev == b't' ≡ false
Follows i o ch (some o1) =
    (not (ch == b'r') || o.prev == b't' ≡ true)
    × (seen_of o1 ≡ seen_at i (seen_of o) ch)
    × (o1.old_index ≡ least_after i ch)

follow-Follows : (i : ℤ) (o : Order) (ch : ℕ) → Follows i o ch (accepted (follow i ch o))
unfolding follow
follow-Follows i o ch = elim (Bool-cases (ch == b't')) [
  | inl e ↦ rw e (ground arith, refl, rw e refl)
  | inr e ↦ elim (Bool-cases (ch == b'r')) [
    | inl r ↦ elim (Bool-cases (o.prev == b't')) [
      | inl t ↦ rw (e, r, t) (ground arith, refl, rw (e, r) refl)
      | inr t ↦ rw (e, r, t) (ground arith)
    ]
    | inr r ↦ rw (e, r) (ground arith, refl, rw (e, r) refl)
  ]
]

-- The chain of checks, of Booleans.
chain-accepted :
    (m n b k d t : Bool) (v : Verdict)
    → accepted (
        if m && n
        then refused (negsuc 1)
        else if m && b && not k
        then refused (negsuc 2)
        else if not m && (n || b)
        then refused (negsuc 3)
        else if not d && t
        then refused (negsuc 4)
        else v)
      ≡ (if not n && (not b || (m && k)) && (d || not t) then accepted v else none)
chain-accepted m n b k d t v = ground arith

guarded :
    (i : ℤ) (o : Order) (ch : ℕ) (b : Bool) (out : Option Order)
    → in_order i o.old_index (seen_of o) ch ≡ b
    → Follows i o ch out
    → Agrees i o ch (if b then out else none)
guarded i o ch true none e f = rw (e, f) refl
guarded i o ch true (some o1) e f = (rw (e, f.0) refl, f.1, f.2)
guarded i o ch false out e f = rw e refl

check_at-Agrees : (i : ℤ) (o : Order) (ch : ℕ) → Agrees i o ch (accepted (check_at i ch o))
unfolding check_at
check_at-Agrees i o ch =
    rw
      (chain-accepted o.media_started (ltb_ℤ i (pos 0)) (ltb_ℤ i o.old_index) (ch == b'm')
        o.required_done (ltb_ℤ (pos 2) i) (follow i ch o))
      (guarded i o ch _ _ refl (follow-Follows i o ch))

abbrev pub seen_result : Option Order → Option Seen
seen_result none = none
seen_result (some o) = some (seen_of o)

eq_of : {a b : ℕ} → a == b ≡ true → a ≡ b
eq_of {a = a} {b = b} h = ground arith

module _ (absent : Text → ℤ) where
  -- The place of a field: in the session part the first one, in the media part the last one.
  pub place : Bool → ℕ → ℤ
  place true ch = last_index_of absent sdp_fields ch
  place false ch = index_of absent sdp_fields ch

  -- The least place of the next field, by the last field alone.
  abbrev pub least : Seen → ℤ
  least s = least_after (place s.in_media s.last) s.last

  -- The fields one after another: as they are described, and as the reader takes them.
  pub described : Seen → List ℕ → Option Seen
  described s [] = some s
  described s (ch ∷ keys) =
      let rest = described (seen_at (place s.in_media ch) s ch) keys in
      if may_come_at (place s.in_media ch) (least s) s ch then rest else none

  pub take_keys : Order → List ℕ → Option Order
  take_keys o [] = some o
  take_keys o (ch ∷ keys) = accepted (check_key absent o ch) >>= λ o1. take_keys o1 keys

  m_place : last_index_of absent sdp_fields b'm' ≡ index_of absent sdp_fields b'm'
  unfolding last_index_of index_of
  m_place = refl

  place-media : (media : Bool) (ch : ℕ) → place (media || ch == b'm') ch ≡ place media ch
  unfolding place
  place-media true ch = refl
  place-media false ch = elim (Bool-cases (ch == b'm')) [
    | inl e ↦ rw (eq_of e) m_place
    | inr e ↦ rw e refl
  ]

  if-place :
      (media : Bool) (ch : ℕ)
      → (if media then last_index_of absent sdp_fields ch else index_of absent sdp_fields ch)
        ≡ place media ch
  unfolding place
  if-place true ch = refl
  if-place false ch = refl

  Inv : Order → Type 0
  Inv o = o.old_index ≡ least (seen_of o)

  Inv-seen_at :
      (o1 : Order) (s : Seen) (ch : ℕ)
      → seen_of o1 ≡ seen_at (place s.in_media ch) s ch
      → o1.old_index ≡ least_after (place s.in_media ch) ch
      → Inv o1
  unfolding Inv
  Inv-seen_at o1 s ch e f =
      f ∙ sym (ap (λ i. least_after i ch) (place-media s.in_media ch)) ∙ sym (ap least e)

  step-described :
      (o : Order) (ch : ℕ) (keys : List ℕ) (out : Option Order)
      → Inv o
      → Agrees (place o.media_started ch) o ch out
      → ((o1 : Order) → Inv o1 → seen_result (take_keys o1 keys) ≡ described (seen_of o1) keys)
      → seen_result (out >>= λ o1. take_keys o1 keys) ≡ described (seen_of o) (ch ∷ keys)
  unfolding described Inv
  step-described o ch keys none v a k =
      let refused_ : may_come_at (place o.media_started ch) (least (seen_of o)) (seen_of o) ch
          ≡ false =
        ap (λ l. may_come_at (place o.media_started ch) l (seen_of o) ch) (sym v) ∙ a in
      rw refused_ refl
  step-described o ch keys (some o1) v a k =
      let taken : may_come_at (place o.media_started ch) (least (seen_of o)) (seen_of o) ch ≡ true =
        ap (λ l. may_come_at (place o.media_started ch) l (seen_of o) ch) (sym v) ∙ a.0 in
      rw taken (k o1 (Inv-seen_at o1 (seen_of o) ch a.1 a.2) ∙ ap (λ s. described s keys) a.1)

  keys-described :
      (keys : List ℕ) (o : Order)
      → Inv o
      → seen_result (take_keys o keys) ≡ described (seen_of o) keys
  unfolding take_keys check_key find_index described
  keys-described [] o v = refl
  keys-described (ch ∷ keys) o v = rw (if-place o.media_started ch) (
      step-described o ch keys (accepted (check_at (place o.media_started ch) ch o)) v
        (check_at-Agrees (place o.media_started ch) o ch) (keys-described keys))

  -- From the start, `SDPHandler::read` takes the same sequences of fields in order as a
  -- description that remembers only the last field, whether the name has been seen, and whether a
  -- media description has begun (`may_come_at`), and the two agree on these at the end: the index
  -- that the reader keeps is a function of them. It holds whatever place `indexOf` gives to a
  -- character that is no field.
  pub take_keys-described :
      (keys : List ℕ) → seen_result (take_keys start keys) ≡ described (seen_of start) keys
  unfolding Inv place index_of
  take_keys-described keys = keys-described keys start refl
