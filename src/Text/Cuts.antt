-- ===== src/Text/Cuts.antt =====
-- What `strtok_r` does with a text that is built from words: a word holds none of the delimiters.
use viva_voce.Prelude.{
  ℕ, ◌≡◌, refl, [], ◌∷◌, ◌++◌, Bool, true, false, not, ◌&&◌, none, some, ◌≤◌, ◌<◌, length, arith,
}
use mathlib.Core.List.{append-nil}
use viva_voce.Text.{Text, codes, has_prefix, member, skip, cut, first_token, strtok}

-- None of a text's bytes is one of the delimiters.
abbrev pub free : Text → Text → Bool
free ds [] = true
free ds (c ∷ s) = not (member c ds) && free ds s

-- A token: a text that is not empty and holds no delimiter.
abbrev pub is_word : Text → Text → Bool
is_word ds [] = false
is_word ds (c ∷ s) = free ds (c ∷ s)

abbrev pub within : Text → Text → Bool
within [] es = true
within (d ∷ ds) es = member d es && within ds es

member-within :
    (c : ℕ) (ds es : Text) → within ds es ≡ true → member c es ≡ false → member c ds ≡ false
member-within c [] es w h = refl
member-within c (d ∷ ds) es w h = let rest = member-within c ds es in grind arith

pub free-within : (ds es s : Text) → within ds es ≡ true → free es s ≡ true → free ds s ≡ true
free-within ds es [] w h = refl
free-within ds es (c ∷ s) w h =
    let rest = free-within ds es s w in let one = member-within c ds es w in ground arith

pub free_append : (ds a b : Text) → free ds (a ++ b) ≡ (free ds a && free ds b)
free_append ds [] b = refl
free_append ds (c ∷ a) b = let rest = free_append ds a b in ground arith

pub cut-nil : (ds : Text) → cut ds [] ≡ ([], [])
unfolding cut
cut-nil ds = refl

pub strtok-nil : (ds : Text) → strtok ds [] ≡ (none, [])
unfolding strtok skip
strtok-nil ds = refl

pub cut-append :
    (ds a s : Text) → free ds a ≡ true → cut ds (a ++ s) ≡ (a ++ (cut ds s).0, (cut ds s).1)
unfolding cut
cut-append ds [] s h = refl
cut-append ds (c ∷ a) s h = let rest = cut-append ds a s in ground arith

pub cut-all : (ds a : Text) → free ds a ≡ true → cut ds a ≡ (a, [])
unfolding cut
cut-all ds [] h = refl
cut-all ds (c ∷ a) h = let rest = cut-all ds a in ground arith

pub strtok-append :
    (ds a s : Text)
    → is_word ds a ≡ true
    → strtok ds (a ++ s) ≡ (some (a ++ (cut ds s).0), (cut ds s).1)
unfolding strtok cut skip first_token
strtok-append ds [] s h = ground arith
strtok-append ds (c ∷ a) s h = let rest = cut-append ds a s in ground arith

pub strtok-all : (ds a : Text) → is_word ds a ≡ true → strtok ds a ≡ (some a, [])
unfolding strtok cut skip first_token
strtok-all ds [] h = ground arith
strtok-all ds (c ∷ a) h = let rest = cut-all ds a in ground arith

-- The bytes that the texts of a packet keep clear of.
abbrev pub specials : Text
specials = codes "\r\n :;<>=@/"

-- A text that stands in a packet as one token.
abbrev pub IsPlain : Text → Type 0
IsPlain w = is_word specials w ≡ true

pub word-free : (ds w : Text) → is_word ds w ≡ true → free ds w ≡ true
word-free ds [] h = refl
word-free ds (c ∷ w) h = h

module _ (ds w : Text) (w_in : within ds specials ≡ true) (plain : IsPlain w) where
  pub plain-free : free ds w ≡ true
  plain-free = free-within ds specials w w_in (word-free specials w plain)

  plain-word : is_word ds w ≡ true
  plain-word =
      elim w as (λ v. is_word specials v ≡ true → free ds v ≡ true → is_word ds v ≡ true) [
        | [] ↦ λ h k. h
        | c ∷ v ↦ λ h k. k
      ]
        plain plain-free

  pub cut-plain : (s : Text) → cut ds (w ++ s) ≡ (w ++ (cut ds s).0, (cut ds s).1)
  cut-plain s = cut-append ds w s plain-free

  pub cut-plain_all : cut ds w ≡ (w, [])
  cut-plain_all = cut-all ds w plain-free

  pub strtok-plain : (s : Text) → strtok ds (w ++ s) ≡ (some (w ++ (cut ds s).0), (cut ds s).1)
  strtok-plain s = strtok-append ds w s plain-word

  pub strtok-plain_all : strtok ds w ≡ (some w, [])
  strtok-plain_all = strtok-all ds w plain-word

module _ (ds : Text) (c : ℕ) (s : Text) where
  pub cut-here : member c ds ≡ true → cut ds (c ∷ s) ≡ ([], s)
  unfolding cut
  cut-here h = ground arith

  pub cut-on : member c ds ≡ false → cut ds (c ∷ s) ≡ (c ∷ (cut ds s).0, (cut ds s).1)
  unfolding cut
  cut-on h = ground arith

  pub strtok-skip : member c ds ≡ true → strtok ds (c ∷ s) ≡ strtok ds s
  unfolding strtok skip
  strtok-skip h = ground arith

  pub strtok-start :
      member c ds ≡ false → strtok ds (c ∷ s) ≡ (some (c ∷ (cut ds s).0), (cut ds s).1)
  unfolding strtok skip cut first_token
  strtok-start h = ground arith

-- A text of concrete bytes and plain words, cut into its tokens.
pub ruleset tokens = (
  cut-here, cut-on, cut-plain, cut-plain_all, strtok-plain_all, strtok-skip, strtok-start,
  strtok-plain, strtok-nil, cut-nil, append-nil,
)

pub lacks_prefix :
    (c : ℕ) (w : Text) → member c specials ≡ true → IsPlain w → has_prefix (c ∷ []) w ≡ false
lacks_prefix c [] m h = refl
lacks_prefix c (x ∷ w) m h = grind arith

-- What the rest is after a token is shorter than the text.
skip-length : (ds s : Text) → length (skip ds s) ≤ length s
unfolding skip
skip-length ds [] = omega arith
skip-length ds (c ∷ s) = let rest = skip-length ds s in ground arith

cut-length : (ds s : Text) → length (cut ds s).1 ≤ length s
unfolding cut
cut-length ds [] = omega arith
cut-length ds (c ∷ s) = let rest = cut-length ds s in ground arith

first_token-length :
    (ds s t : Text) → (first_token ds s).0 ≡ some t → length (first_token ds s).1 < length s
unfolding first_token cut
first_token-length ds [] t h = ground arith
first_token-length ds (c ∷ s) t h = let rest = cut-length ds s in ground arith

pub strtok-length : (ds s t : Text) → (strtok ds s).0 ≡ some t → length (strtok ds s).1 < length s
unfolding strtok
strtok-length ds s t h = omega (arith, first_token-length ds (skip ds s) t h, skip-length ds s)
