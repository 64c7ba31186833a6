-- ===== src/Sdp/Totality.antt =====
-- src/SDP.cpp: the loop of `SDPHandler::read` ends, and what it asks of a packet that it accepts.
use viva_voce.Prelude.{
  ℕ, zero, suc, ◌<◌, ◌≡◌, ◌≢◌, refl, [], ◌∷◌, Bool, true, false, Bool-cases, ◌&&◌, ◌||◌, not, inl,
  inr, Option, none, some, length, take, if◌then◌else◌, ◌==◌, ◌>>=◌, arith,
}
use viva_voce.Prelude.Int.{ℤ, pos, negsuc, ltb_ℤ}
use viva_voce.Text.{Text, codes, strtok}
use viva_voce.Text.Cuts.{strtok-length}
use viva_voce.Sdp.{SdpPacket}
use viva_voce.Sdp.Reader.{
  Order, Verdict, refused, placed, Reading, finished, looping, start, at_line, at_key, after_key,
  follow, check_at, check_key, find_index, set_field, read_lines, read,
}

-- The loop has come to an end, and with the result 0 it has found a connection.
abbrev pub Ended : Option Reading → Type 0
Ended none = Unit
Ended (some looping) = ⊥
Ended (some (finished (negsuc n) p)) = Unit
Ended (some (finished (pos n) p)) = (n ≡ 0) × (p.n_conn_info ≢ 0)

at_line-Ended :
    (line : Option Text) (p : SdpPacket) (go : Text → Option Reading)
    → ((text : Text) → line ≡ some text → Ended (go text))
    → Ended (at_line line p go)
at_line-Ended none p go h = elim (Bool-cases (p.n_conn_info == 0)) [
  | inl e ↦ rw e tt
  | inr e ↦ rw e (refl, λ z. ground arith)
]
at_line-Ended (some text) p go h = h text refl

at_key-Ended :
    (key : Option Text) (p : SdpPacket) (go : ℕ → Option Reading)
    → ((ch : ℕ) → Ended (go ch))
    → Ended (at_key key p go)
at_key-Ended none p go h = tt
at_key-Ended (some []) p go h = tt
at_key-Ended (some (ch ∷ [])) p go h = h ch
at_key-Ended (some (ch ∷ c ∷ cs)) p go h = tt

-- A refusal is a negative result.
abbrev Refuses : Verdict → Type 0
Refuses (refused (pos n)) = ⊥
Refuses _ = Unit

then-Ended :
    (o : Option SdpPacket) (go : SdpPacket → Option Reading)
    → ((p : SdpPacket) → Ended (go p))
    → Ended (o >>= go)
then-Ended none go h = tt
then-Ended (some p) go h = h p

after_key-Ended :
    (v : Verdict) (p : SdpPacket) (field : Order → Option SdpPacket)
    (go : Order → SdpPacket → Option Reading)
    → Refuses v
    → ((o : Order) (p1 : SdpPacket) → Ended (go o p1))
    → Ended (after_key v p field go)
after_key-Ended (refused (pos n)) p field go r h = absurd r
after_key-Ended (refused (negsuc n)) p field go r h = tt
after_key-Ended (placed o) p field go r h = then-Ended (field o) (go o) (h o)

chain-Refuses :
    (a b c d : Bool) (v : Verdict)
    → Refuses v
    → Refuses (
        if a
        then refused (negsuc 1)
        else if b
        then refused (negsuc 2)
        else if c
        then refused (negsuc 3)
        else if d
        then refused (negsuc 4)
        else v)
chain-Refuses true b c d v h = tt
chain-Refuses false true c d v h = tt
chain-Refuses false false true d v h = tt
chain-Refuses false false false true v h = tt
chain-Refuses false false false false v h = h

choice-Refuses :
    (t r p : Bool) (o o1 o2 : Order)
    → Refuses (
        if t
        then placed o
        else if r
        then (if p then placed o1 else refused (negsuc 5))
        else placed o2)
choice-Refuses true r p o o1 o2 = tt
choice-Refuses false true true o o1 o2 = tt
choice-Refuses false true false o o1 o2 = tt
choice-Refuses false false p o o1 o2 = tt

follow-Refuses : (i : ℤ) (ch : ℕ) (o : Order) → Refuses (follow i ch o)
unfolding follow
follow-Refuses i ch o = choice-Refuses (ch == b't') (ch == b'r') (o.prev == b't') _ _ _

check_at-Refuses : (i : ℤ) (ch : ℕ) (o : Order) → Refuses (check_at i ch o)
unfolding check_at
check_at-Refuses i ch o =
    chain-Refuses (o.media_started && ltb_ℤ i (pos 0))
      (o.media_started && ltb_ℤ i o.old_index && not (ch == b'm'))
      (not o.media_started && (ltb_ℤ i (pos 0) || ltb_ℤ i o.old_index))
      (not o.required_done && ltb_ℤ (pos 2) i) (follow i ch o) (follow-Refuses i ch o)

module _ (absent : Text → ℤ) (inet_addr : Text → ℕ) where
  read_lines-Ended :
      (fuel : ℕ) (rest : Text) (o : Order) (p : SdpPacket)
      → length rest < fuel
      → Ended (read_lines absent inet_addr fuel rest o p)
  unfolding read_lines check_key
  read_lines-Ended zero rest o p h = absurd (omega arith)
  read_lines-Ended (suc fuel) rest o p h =
      at_line-Ended (strtok (codes "\r\n") rest).0 p _ (λ text e.
        at_key-Ended (strtok (codes "=") text).0 p _ (λ ch.
          after_key-Ended _ p
            (λ o1.
              set_field absent inet_addr o1.media_started ch
                (strtok (codes "=") (strtok (codes "=") text).1).0 p)
            _ (check_at-Refuses (find_index absent o ch) ch o)
            (λ o1 p1.
              read_lines-Ended fuel (strtok (codes "\r\n") rest).1 o1 p1
                (omega (arith, strtok-length (codes "\r\n") rest text e)))))

  -- `SDPHandler::read` of any text into any packet comes to an end or a fault within its fuel, its
  -- result is 0 or less, and with the result 0 the packet counts a connection.
  pub read-Ended :
      (bytes : Text) (len : ℕ) (p : SdpPacket) → Ended (read absent inet_addr bytes len p)
  unfolding read
  read-Ended bytes len p =
      read_lines-Ended (suc (length (take len bytes))) (take len bytes) start _ (omega arith)
