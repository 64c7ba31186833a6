-- ===== src/Console/Dispatch.antt =====
-- src/VivaVoce.cpp: which command a text is, and what is read as one.
use viva_voce.Prelude.{
  ℕ, zero, suc, ◌≤◌, ◌<◌, ◌≡◌, refl, ap, Bool, true, false, ◌||◌, ◌&&◌, ◌==◌, [], ◌∷◌, ◌++◌, some,
  if◌then◌else◌, arith, length, ◌∙◌,
}
use viva_voce.Text.{Text, codes, has_prefix}
use viva_voce.Text.Cuts.{free}
use viva_voce.Console.{
  Command, inviting, accept, reject, bye, diag, verbose, who, test_audio, mute, sine, quit,
  unrecognized, blank, is_command, command_of, get_line, without_last, read_command,
}

-- The commands by their first letters, of which no two are alike.
abbrev pub by_letter : Text → Command
by_letter [] = blank
by_letter (c ∷ s) =
    if c == b'i'
    then inviting
    else if c == b'a'
    then accept
    else if c == b'r'
    then reject
    else if c == b'b'
    then bye
    else if c == b'd'
    then diag
    else if c == b'v'
    then verbose
    else if c == b'w'
    then who
    else if c == b't'
    then test_audio
    else if c == b'm'
    then mute
    else if c == b's'
    then sine
    else if c == b'x' || c == b'q'
    then quit
    else if c == b'e'
    then (if has_prefix (codes "xit") s then quit else unrecognized)
    else unrecognized

eq_comm : (a b : ℕ) → (a == b) ≡ (b == a)
eq_comm a b = ground arith

and_true : (a : Bool) → (a && true) ≡ a
and_true true = refl
and_true false = refl

absorb : (a b : Bool) → ((a && true) || (a && b)) ≡ a
absorb true b = refl
absorb false b = refl

-- The word adds nothing to its first letter.
is_command_lem : (l : ℕ) (word s : Text) (c : ℕ) → is_command (l ∷ []) (l ∷ word) (c ∷ s) ≡ (c == l)
unfolding is_command
is_command_lem l word s c = absorb (l == c) (has_prefix word s) ∙ eq_comm l c

has_letter : (l c : ℕ) (s : Text) → has_prefix (l ∷ []) (c ∷ s) ≡ (c == l)
has_letter l c s = and_true (l == c) ∙ eq_comm l c

-- The last tests, by what they find.
last_tests_lem :
    (x q e d f : Bool)
    → (if ((x && true) || (q && true)) || ((q && d) || (e && f)) then quit else unrecognized)
      ≡ (if x || q then quit else if e then (if f then quit else unrecognized) else unrecognized)
last_tests_lem true q e d f = refl
last_tests_lem false true e d f = refl
last_tests_lem false false true d true = refl
last_tests_lem false false true d false = refl
last_tests_lem false false false d f = refl

not_empty : (n : ℕ) → (suc n == 0) ≡ false
not_empty n = ground arith

-- The chain of tests finds the command that the first letter stands for, and nothing else of the
-- text counts, except that a text that begins with `e` ends the program if it begins with `exit`
-- and is unrecognized otherwise.
pub command_of-by_letter : (cmd : Text) → command_of cmd ≡ by_letter cmd
unfolding command_of is_command
command_of-by_letter [] = refl
command_of-by_letter (c ∷ s) =
    rw
      (
        is_command_lem b'i' (codes "nvite") s c,
        is_command_lem b'a' (codes "ccept") s c,
        is_command_lem b'r' (codes "eject") s c,
        is_command_lem b'b' (codes "ye") s c,
        is_command_lem b'd' (codes "iag") s c,
        is_command_lem b'v' (codes "erbose") s c,
        has_letter b'w' c s,
        is_command_lem b't' (codes "estau") s c,
        is_command_lem b'm' (codes "ute") s c,
        is_command_lem b's' (codes "ine") s c,
        not_empty (length s),
        eq_comm b'x' c,
        eq_comm b'q' c,
        eq_comm b'e' c,
        last_tests_lem (c == b'x') (c == b'q') (c == b'e') (has_prefix (codes "uit") s)
            (has_prefix (codes "xit") s),
      )
      refl

get_line-line :
    (line rest : Text) (n : ℕ)
    → free (codes "\n") line ≡ true
    → length line < n
    → get_line n (line ++ b'\n' ∷ rest) ≡ (line ++ b'\n' ∷ [], rest)
unfolding get_line
get_line-line [] rest zero h k = absurd (omega arith)
get_line-line [] rest (suc n) h k = refl
get_line-line (c ∷ line) rest zero h k = absurd (omega arith)
get_line-line (c ∷ line) rest (suc n) h k =
    let later = get_line-line line rest n (ground (arith, h)) (omega arith) in ground (arith, later)

without_last-append : (s : Text) (c : ℕ) → without_last (s ++ c ∷ []) ≡ s
without_last-append [] c = refl
without_last-append (d ∷ []) c = refl
without_last-append (d ∷ e ∷ s) c = ap (λ (l : Text). d ∷ l) (without_last-append (e ∷ s) c)

-- A line of at most 98 bytes is read as it is, and the input goes on behind it.
pub read_command-line :
    (held line rest : Text)
    → free (codes "\n") line ≡ true
    → length line ≤ 98
    → read_command held (line ++ b'\n' ∷ rest) ≡ some (line, rest)
unfolding read_command
read_command-line held [] rest h k = rw (get_line-line [] rest 99 h (omega arith)) refl
read_command-line held (c ∷ line) rest h k =
    rw (get_line-line (c ∷ line) rest 99 h (omega arith), without_last-append (c ∷ line) b'\n') refl
