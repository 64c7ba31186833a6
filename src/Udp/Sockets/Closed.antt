-- ===== src/Udp/Sockets/Closed.antt =====
-- src/UdpRW.cpp: `closeTransport` after `initTransport`, whatever the calls of the library return.
use viva_voce.Prelude.{
  ℕ, ◌≡◌, refl, ◌∙◌, Bool, Bool-cases, inl, inr, false, not, ◌&&◌, ◌||◌, ◌⊎◌, List, [], ◌∷◌,
  if◌then◌else◌, arith,
}
use viva_voce.Prelude.Int.{ℤ, pos, negsuc, ltb_ℤ, ◌+ℤ◌}
use viva_voce.Common.{Ports}
use viva_voce.Udp.Sockets.{
  Call, socket_call, bind_call, close_call, System, Sockets, no_sockets, next_result, ask,
  minus_one, nonzero, open_at, init_sip_over_udp, init_rtp_over_udp, init_transport, close_socket,
  close_transport,
}

-- A descriptor in front of a list, unless it stands for none.
abbrev and_one : ℤ → List ℤ → List ℤ
and_one fd s = if nonzero fd && not (minus_one fd) then fd ∷ s else s

-- The descriptors that were given out, and those that were closed.
abbrev pub opened : List (Call × ℤ) → List ℤ
opened [] = []
opened ((socket_call, fd) ∷ s) = and_one fd (opened s)
opened ((bind_call fd port, r) ∷ s) = opened s
opened ((close_call fd, r) ∷ s) = opened s

abbrev pub closed : List (Call × ℤ) → List ℤ
closed [] = []
closed ((socket_call, fd) ∷ s) = closed s
closed ((bind_call fd port, r) ∷ s) = closed s
closed ((close_call fd, r) ∷ s) = and_one fd (closed s)

next_result_calls :
    (c : Call) (results : List ℤ) (made : List (Call × ℤ))
    → let r = next_result c results made in r.1.calls ≡ (c, r.0) ∷ made
next_result_calls c [] made = refl
next_result_calls c (r ∷ rs) made = refl

ask-calls : (c : Call) (s : System) → (ask c s).1.calls ≡ (c, (ask c s).0) ∷ s.calls
unfolding ask
ask-calls c s = next_result_calls c s.results s.calls

-- What one socket adds to the two lists, when it is opened and when it is closed.
open_at-calls :
    (port : ℕ) (s : System)
    → let (fd, (r, s1)) = open_at port s in
      (opened s1.calls ≡ and_one fd (opened s.calls)) × (closed s1.calls ≡ closed s.calls)
unfolding open_at
open_at-calls port s =
    let fd = (ask socket_call s).0 in
    let s1 = (ask socket_call s).1 in
    let one = ask-calls socket_call s in
    let two = ask-calls (bind_call fd port) s1 in
    elim (Bool-cases (minus_one fd)) [
      | inl e ↦ rw (e, one) (rw e refl, refl)
      | inr e ↦ elim (Bool-cases (ltb_ℤ (ask (bind_call fd port) s1).0 (pos 0))) [
        | inl f ↦ rw (e, f, two, one) (rw e refl, refl)
        | inr f ↦ rw (e, f, two, one) (rw e refl, refl)
      ]
    ]

close_socket-calls :
    (fd : ℤ) (r : ℤ) (s : System)
    → let s1 = (close_socket fd (r, s)).1 in
      (opened s1.calls ≡ opened s.calls) × (closed s1.calls ≡ and_one fd (closed s.calls))
unfolding close_socket
close_socket-calls fd r s = elim (Bool-cases (nonzero fd)) [
  | inl e ↦ rw (e, ask-calls (close_call fd) s) (refl, rw e refl)
  | inr e ↦ rw e (refl, refl)
]

-- The sockets of a system, closed.
close_transport-calls :
    (k : Sockets) (s : System)
    → let s1 = (close_transport k s).1 in
      (opened s1.calls ≡ opened s.calls)
      × (closed s1.calls
          ≡ and_one k.rtcp_socket (and_one k.rtp_socket (and_one k.sip_socket (closed s.calls))))
unfolding close_transport
close_transport-calls k s =
    let a = close_socket k.sip_socket (pos 0, s) in
    let b = close_socket k.rtp_socket a in
    let one = close_socket-calls k.sip_socket (pos 0) s in
    let two = close_socket-calls k.rtp_socket a.0 a.1 in
    let three = close_socket-calls k.rtcp_socket b.0 b.1 in
    (three.0 ∙ two.0 ∙ one.0, rw (three.1, two.1, one.1) refl)

init_transport-calls :
    (p : Ports) (s : System)
    → let (r, k, s1) = init_transport p no_sockets s in
      (opened s1.calls
        ≡ and_one k.rtcp_socket (and_one k.rtp_socket (and_one k.sip_socket (opened s.calls))))
      × (closed s1.calls ≡ closed s.calls)
unfolding init_transport init_sip_over_udp init_rtp_over_udp
init_transport-calls p s =
    let a = open_at p.sip_port s in
    let b = open_at p.rtp_port a.1.1 in
    let c = open_at p.rtcp_port b.1.1 in
    let one = open_at-calls p.sip_port s in
    let two = open_at-calls p.rtp_port a.1.1 in
    let three = open_at-calls p.rtcp_port b.1.1 in
    elim (Bool-cases (ltb_ℤ b.1.0 (pos 0))) [
      | inl e ↦ rw e (two.0 ∙ rw one.0 refl, two.1 ∙ one.1)
      | inr e ↦ rw e (three.0 ∙ rw (two.0, one.0) refl, three.1 ∙ two.1 ∙ one.1)
    ]

-- Whether one of the calls failed.
abbrev pub failed : List (Call × ℤ) → Bool
failed [] = false
failed ((socket_call, fd) ∷ s) = minus_one fd || failed s
failed ((bind_call fd port, r) ∷ s) = ltb_ℤ r (pos 0) || failed s
failed ((close_call fd, r) ∷ s) = failed s

abbrev IsResult : ℤ → Type 0
IsResult r = (r ≡ pos 0) ⊎ (r ≡ negsuc 0)

sum-negative :
    (r r' : ℤ)
    → IsResult r
    → IsResult r'
    → ltb_ℤ (r +ℤ r') (pos 0) ≡ (ltb_ℤ r' (pos 0) || ltb_ℤ r (pos 0))
unfolding ◌+ℤ◌
sum-negative r r' (inl a) (inl b) = rw (a, b) refl
sum-negative r r' (inl a) (inr b) = rw (a, b) refl
sum-negative r r' (inr a) (inl b) = rw (a, b) refl
sum-negative r r' (inr a) (inr b) = rw (a, b) refl

open_at-failed :
    (port : ℕ) (s : System)
    → let (fd, (r, s1)) = open_at port s in
      IsResult r × (failed s1.calls ≡ (ltb_ℤ r (pos 0) || failed s.calls))
unfolding open_at
open_at-failed port s =
    let fd = (ask socket_call s).0 in
    let s1 = (ask socket_call s).1 in
    let one = ask-calls socket_call s in
    let two = ask-calls (bind_call fd port) s1 in
    elim (Bool-cases (minus_one fd)) [
      | inl e ↦ rw (e, one) (inr refl, rw e refl)
      | inr e ↦ elim (Bool-cases (ltb_ℤ (ask (bind_call fd port) s1).0 (pos 0))) [
        | inl f ↦ rw (e, f, two, one) (inr refl, rw f refl)
        | inr f ↦ rw (e, f, two, one) (inl refl, rw (f, e) refl)
      ]
    ]

init_rtp_over_udp-failed :
    (p : Ports) (k : Sockets) (s : System)
    → let (r, k1, s1) = init_rtp_over_udp p k s in
      IsResult r × (failed s1.calls ≡ (ltb_ℤ r (pos 0) || failed s.calls))
unfolding init_rtp_over_udp
init_rtp_over_udp-failed p k s =
    let b = open_at p.rtp_port s in
    let two = open_at-failed p.rtp_port s in
    let three = open_at-failed p.rtcp_port b.1.1 in
    elim (Bool-cases (ltb_ℤ b.1.0 (pos 0))) [
      | inl e ↦ rw e (inr refl, two.1 ∙ rw e refl)
      | inr e ↦ rw e (three.0, three.1 ∙ rw (two.1, e) refl)
    ]

-- Whatever the calls of the socket library return, the result of `initTransport`, on the sockets
-- as the constructor of `Common` leaves them, is below 0 exactly if one of the calls it made
-- failed, and `closeTransport` after it, whether it failed or not, closes the descriptors that
-- were given out, each once and in the order they came, but for a descriptor 0.
pub close_transport-init_transport :
    (p : Ports) (results : List ℤ)
    → let (r, k, s) = init_transport p no_sockets (record { results = results; calls = [] }) in
      let calls = (close_transport k s).1.calls in
      (ltb_ℤ r (pos 0) ≡ failed s.calls) × (closed calls ≡ opened calls)
unfolding init_transport init_sip_over_udp
close_transport-init_transport p results =
    let start : System = record { results = results; calls = [] } in
    let i = init_transport p no_sockets start in
    let made = init_transport-calls p start in
    let ended = close_transport-calls i.1 i.2 in
    let first = open_at p.sip_port start in
    let sip = open_at-failed p.sip_port start in
    let rtp = init_rtp_over_udp-failed p (record no_sockets { sip_socket = first.0 }) first.1.1 in
    (
      sum-negative _ _ sip.0 rtp.0 ∙ rw (rtp.1, sip.1) (ground arith),
      rw (ended.0, ended.1, made.0, made.1) refl,
    )
