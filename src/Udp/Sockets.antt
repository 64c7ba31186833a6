-- ===== src/Udp/Sockets.antt =====
-- src/UdpRW.cpp: `initTransport` and `closeTransport`. What the calls of the socket library return is
-- a list; a call beyond it fails.
pub mod Closed
use viva_voce.Prelude.{ℕ, Bool, true, false, not, List, [], ◌∷◌, if◌then◌else◌, ◌==◌}
use viva_voce.Prelude.Int.{ℤ, pos, negsuc, ltb_ℤ, ◌+ℤ◌}
use viva_voce.Common.{Ports}

-- The calls: a new socket, an address for one, its end.
pub data Call : Type 0 where
  socket_call : Call
  bind_call : ℤ → ℕ → Call
  close_call : ℤ → Call

-- The results to come, and the calls that were made with theirs, the last one first.
pub record System : Type 0 where
  pub results : List ℤ
  pub calls : List (Call × ℤ)

-- `sipSocket`, `rtpSocket` and `rtcpSocket`.
pub record Sockets : Type 0 where
  pub sip_socket : ℤ
  pub rtp_socket : ℤ
  pub rtcp_socket : ℤ

-- What the constructor of `Common` sets.
abbrev pub no_sockets : Sockets
no_sockets = record { sip_socket = pos 0; rtp_socket = pos 0; rtcp_socket = pos 0 }

abbrev next_result : Call → List ℤ → List (Call × ℤ) → ℤ × System
next_result c [] made = (negsuc 0, record { results = []; calls = (c, negsuc 0) ∷ made })
next_result c (r ∷ rs) made = (r, record { results = rs; calls = (c, r) ∷ made })

unfoldable pub ask : Call → System → ℤ × System
ask c s = next_result c s.results s.calls

abbrev pub minus_one : ℤ → Bool
minus_one (pos n) = false
minus_one (negsuc n) = n == 0

abbrev pub nonzero : ℤ → Bool
nonzero (pos n) = not (n == 0)
nonzero (negsuc n) = true

-- A socket at a port: its descriptor, and 0, or -1 if one of the two calls fails.
unfoldable pub open_at : ℕ → System → ℤ × (ℤ × System)
open_at port s =
    let (fd, s1) = ask socket_call s in
    let (r, s2) = ask (bind_call fd port) s1 in
    (
      fd,
      if minus_one fd
          then (negsuc 0, s1)
          else if ltb_ℤ r (pos 0)
          then (negsuc 0, s2)
          else (pos 0, s2),
    )

unfoldable pub init_sip_over_udp : Ports → Sockets → System → ℤ × Sockets × System
init_sip_over_udp p k s =
    let (fd, (r, s1)) = open_at p.sip_port s in (r, record k { sip_socket = fd }, s1)

unfoldable pub init_rtp_over_udp : Ports → Sockets → System → ℤ × Sockets × System
init_rtp_over_udp p k s =
    let (fd, (r, s1)) = open_at p.rtp_port s in
    let (fd', (r', s2)) = open_at p.rtcp_port s1 in
    let k1 = record k { rtp_socket = fd } in
    if ltb_ℤ r (pos 0) then (negsuc 0, k1, s1) else (r', record k1 { rtcp_socket = fd' }, s2)

-- The host's name, which `initTransport` sets before, is in `Common`.
unfoldable pub init_transport : Ports → Sockets → System → ℤ × Sockets × System
init_transport p k s =
    let (r, k1, s1) = init_sip_over_udp p k s in
    let (r', k2, s2) = init_rtp_over_udp p k1 s1 in (r +ℤ r', k2, s2)

-- `ret += close(...)`, of a socket that is not 0.
unfoldable pub close_socket : ℤ → ℤ × System → ℤ × System
close_socket fd (ret, s) =
    let (r, s1) = ask (close_call fd) s in if nonzero fd then (ret +ℤ r, s1) else (ret, s)

unfoldable pub close_transport : Sockets → System → ℤ × System
close_transport k s =
    close_socket k.rtcp_socket (close_socket k.rtp_socket (close_socket k.sip_socket (pos 0, s)))
