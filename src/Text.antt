-- ===== src/Text.antt =====
-- What the code uses of the C library's strings: `strtok_r`, `strcmp`, `strncmp`,
-- `strcasecmp`, `strncasecmp`, as their documentation has them. A text is the list of its bytes, without the final zero.
pub mod Decimal
pub mod Cuts
use Prim.Native.Char.{code}
use Prim.Native.String.{String}
use viva_voce.Prelude.{
  ℕ, zero, suc, length, ◌+◌, ◌-◌, ◌*◌, List, [], ◌∷◌, ◌++◌, Bool, true, false, ◌&&◌, Option, none,
  some, leb, ◌==◌, if◌then◌else◌, map, ◌||◌,
}

abbrev pub Text : Type 0
Text = List ℕ

abbrev pub codes : String → Text
codes String.[] = []
codes (String.◌∷◌ c s) = code c ∷ codes s

-- What `sprintf` prints: the pieces of its format and its arguments' texts, in their order.
abbrev pub printed : List Text → Text
printed [] = []
printed (t ∷ ts) = t ++ printed ts

-- `strcmp(a, b) == 0`.
abbrev pub text_eq : Text → Text → Bool
text_eq [] [] = true
text_eq [] (b ∷ bs) = false
text_eq (a ∷ as') [] = false
text_eq (a ∷ as') (b ∷ bs) = a == b && text_eq as' bs

abbrev pub to_lower : ℕ → ℕ
to_lower c = if leb b'A' c && leb c b'Z' then c + 32 else c

-- `strncasecmp(a, b, strlen(a)) == 0`.
unfoldable pub starts_with : Text → Text → Bool
starts_with [] b = true
starts_with (x ∷ a) [] = false
starts_with (x ∷ a) (y ∷ b) = to_lower x == to_lower y && starts_with a b

-- `strcasecmp(a, b) == 0`.
abbrev pub same_word : Text → Text → Bool
same_word a b = text_eq (map to_lower a) (map to_lower b)

-- `strncmp(a, b, strlen(a)) == 0`.
abbrev pub has_prefix : Text → Text → Bool
has_prefix [] b = true
has_prefix (x ∷ a) [] = false
has_prefix (x ∷ a) (y ∷ b) = x == y && has_prefix a b

abbrev pub member : ℕ → Text → Bool
member c [] = false
member c (d ∷ ds) = c == d || member c ds

-- `strtok_r` of a text with a set of delimiters: the token, if one is left, and what follows it.
unfoldable pub skip : Text → Text → Text
skip ds [] = []
skip ds (c ∷ s) = let rest = skip ds s in if member c ds then rest else c ∷ s

unfoldable pub cut : Text → Text → Text × Text
cut ds [] = ([], [])
cut ds (c ∷ s) = let (token, rest) = cut ds s in if member c ds then ([], s) else (c ∷ token, rest)

unfoldable pub first_token : Text → Text → Option Text × Text
unfolding cut
first_token ds [] = (none, [])
first_token ds (c ∷ r) = let (token, rest) = cut ds (c ∷ r) in (some token, rest)

unfoldable pub strtok : Text → Text → Option Text × Text
unfolding skip first_token
strtok ds s = first_token ds (skip ds s)

-- What stands at a text once `strtok_r` has put its zero there.
unfoldable pub terminated : Text → Text → Text
unfolding cut
terminated ds [] = []
terminated ds (c ∷ s) =
    let rest = terminated ds s in if member c ds then c ∷ rest else (cut ds (c ∷ s)).0

-- `strtok_r` on pointers: without a text it goes on where the saved pointer is, and it is a fault
-- if that one is null too. The token and the saved pointer that it leaves.
unfoldable pub strtok_r : Text → Option Text → Option Text → Option (Option Text × Option Text)
unfolding strtok
strtok_r ds (some s) saved = let r = strtok ds s in some (r.0, some r.1)
strtok_r ds none (some s) = let r = strtok ds s in some (r.0, some r.1)
strtok_r ds none none = none

-- The tokens that a loop of `strtok_r` over a text finds; its length is fuel enough.
tokens_from : ℕ → Text → Text → List Text
unfolding strtok
tokens_from zero ds s = []
tokens_from (suc fuel) ds s =
    let r = strtok ds s in
    let rest = tokens_from fuel ds r.1 in elim r.0 [ none ↦ [] | some t ↦ t ∷ rest ]

unfoldable pub all_tokens : Text → Text → List Text
unfolding tokens_from
all_tokens ds s = tokens_from (suc (length s)) ds s
