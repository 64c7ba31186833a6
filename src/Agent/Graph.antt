-- ===== src/Agent/Graph.antt =====
-- src/UserAgent.cpp: which state can follow which.
use viva_voce.Prelude.{
  ℕ, ◌≡◌, refl, ap, [], ◌∷◌, ◌∙◌, Bool, true, false, Option, none, some, if◌then◌else◌, ◌>>=◌,
  arith,
}
use viva_voce.Pool.{Memo}
use viva_voce.Sip.{reset}
use viva_voce.Agent.{
  Agent, State, disconnected, sent_inv, rcvd_inv, sent_bye, accepted, rejected, in_call, Action,
  unset, nothing, disconn, conn, inv_ack, incoming, ringing, send_ring, bye,
}
use viva_voce.Agent.Environment.{Environment}
use viva_voce.Agent.Send.{
  transmit, send_invite, send_bye, send_ok, send_ack, send_decline, send_busy, send_ringing,
}
use viva_voce.Agent.Receive.{
  release, cleanup, free_host, same_call, accept_media, accept_sdp, check_via, check_content,
  check_packet, ring, on_disconnected, take_invite, take_ok, connect, on_response, on_sent_inv,
  on_sent_bye, on_accepted, on_rejected, on_in_call, on_packet, check_source,
}
use viva_voce.Agent.Run.{
  alloc, set_wait, repeat_bye, give_up, stop_ringing, repeat_ring, default_step, do_default_action,
  invite, on_invite, on_bye, on_accept, on_reject, on_received, on_memo, round,
}
use viva_voce.Agent.Invariant.{Inv}
use viva_voce.Agent.Environment.{Sdp, malformed, described}
use viva_voce.Text.{Text}

-- The changes of state that one round can make.
abbrev pub may_follow : State → State → Bool
may_follow disconnected disconnected = true
may_follow disconnected sent_inv = true
may_follow disconnected rcvd_inv = true
may_follow sent_inv sent_inv = true
may_follow sent_inv in_call = true
may_follow sent_inv disconnected = true
may_follow rcvd_inv rcvd_inv = true
may_follow rcvd_inv accepted = true
may_follow rcvd_inv rejected = true
may_follow rcvd_inv disconnected = true
may_follow accepted accepted = true
may_follow accepted rcvd_inv = true
may_follow accepted in_call = true
may_follow accepted disconnected = true
may_follow rejected rejected = true
may_follow rejected disconnected = true
may_follow in_call in_call = true
may_follow in_call sent_bye = true
may_follow in_call disconnected = true
may_follow sent_bye sent_bye = true
may_follow sent_bye disconnected = true
may_follow s t = false

module _ {R : Type 0} where
  abbrev pub Moves : State → Option (Agent R) → Type 0
  Moves s none = Unit
  Moves s (some b) = may_follow s b.control.state ≡ true

module _ {R : Type 0} (env : Environment R) where
  repeat_bye-Moves :
      (a : Agent R)
      → a.control.default_action ≡ bye
      → Inv a
      → Moves a.control.state (some (repeat_bye env a))
  unfolding repeat_bye send_bye alloc transmit
  repeat_bye-Moves a e v = ground arith

  repeat_ring-Moves :
      (a : Agent R)
      → a.control.default_action ≡ send_ring
      → Inv a
      → Moves a.control.state (repeat_ring env a)
  unfolding repeat_ring send_ringing alloc transmit
  repeat_ring-Moves a e v = ground arith

  default_step-Moves :
      (act : Action) (a : Agent R)
      → a.control.default_action ≡ act
      → Inv a
      → Moves a.control.state (default_step env act a)
  unfolding default_step give_up stop_ringing cleanup free_host set_wait
  default_step-Moves bye a e v = repeat_bye-Moves a e v
  default_step-Moves send_ring a e v = repeat_ring-Moves a e v
  default_step-Moves disconn a e v = ground arith
  default_step-Moves conn a e v = ground arith
  default_step-Moves incoming a e v = ground arith
  default_step-Moves inv_ack a e v = ground arith
  default_step-Moves ringing a e v = ground arith
  default_step-Moves unset a e v = ground arith
  default_step-Moves nothing a e v = ground arith

  on_bye-Moves :
      (memo : Memo) (a : Agent R) → Inv a → Moves a.control.state (some (on_bye env memo a))
  unfolding on_bye send_bye transmit release
  on_bye-Moves memo a v = ground arith

  on_accept-Moves :
      (memo : Memo) (a : Agent R) → Moves a.control.state (some (on_accept env memo a))
  unfolding on_accept send_ok transmit release
  on_accept-Moves memo a = ground arith

  on_reject-Moves :
      (memo : Memo) (a : Agent R) → Moves a.control.state (some (on_reject env memo a))
  unfolding on_reject send_decline transmit release
  on_reject-Moves memo a = ground arith

  on_invite-Moves :
      (draw : ℕ) (memo : Memo) (a : Agent R) → Moves a.control.state (on_invite env draw memo a)
  unfolding on_invite invite send_invite transmit release
  on_invite-Moves draw memo a = ground arith

  -- A check leaves the state alone, and what follows it moves on from there.
  abbrev Leaves : Agent R → Option (Agent R) → Type 0
  Leaves a none = Unit
  Leaves a (some b) = b.control ≡ a.control

  accept_sdp-Leaves : (sdp : Sdp) (a : Agent R) → Leaves a (accept_sdp sdp a)
  unfolding accept_sdp accept_media
  accept_sdp-Leaves malformed a = refl
  accept_sdp-Leaves (described []) a = refl
  accept_sdp-Leaves (described (m ∷ rest)) a = ground arith

  check_content-Leaves : (t : Option Text) (a : Agent R) → Leaves a (check_content env t a)
  unfolding check_content
  check_content-Leaves t a = grind (arith, accept_sdp-Leaves)

  check_packet-Leaves : (a : Agent R) → Leaves a (check_packet env a)
  unfolding check_packet check_via
  check_packet-Leaves a = grind (arith, check_content-Leaves)

  after_check-Moves :
      (s : State) (a : Agent R) (o : Option (Agent R)) (f : Agent R → Option (Agent R))
      → Leaves a o
      → a.control.state ≡ s
      → ((b : Agent R) → b.control.state ≡ s → Moves s (f b))
      → Moves s (o >>= f)
  after_check-Moves s a none f h e k = tt
  after_check-Moves s a (some b) f h e k = k b (ap (λ c. c.state) h ∙ e)

  take_invite-Moves :
      (memo : Memo) (b : Agent R)
      → b.control.state ≡ disconnected
      → Moves disconnected (take_invite env memo b)
  unfolding take_invite release ring send_ringing transmit
  take_invite-Moves memo b e = ground arith

  take_ok-Moves :
      (memo : Memo) (b : Agent R) → b.control.state ≡ sent_inv → Moves sent_inv (take_ok env memo b)
  unfolding take_ok release send_ack transmit
  take_ok-Moves memo b e = ground arith

  on_disconnected-Moves :
      (memo : Memo) (a : Agent R)
      → a.control.state ≡ disconnected
      → Moves disconnected (on_disconnected env memo a)
  unfolding on_disconnected release
  on_disconnected-Moves memo a e = ground (
    arith,
    after_check-Moves disconnected a (check_packet env a) (take_invite env memo)
        (check_packet-Leaves a) e (take_invite-Moves memo),
  )

  connect-Moves :
      (memo : Memo) (a : Agent R) → a.control.state ≡ sent_inv → Moves sent_inv (connect env memo a)
  unfolding connect
  connect-Moves memo a e =
      after_check-Moves sent_inv a (check_packet env a) (take_ok env memo) (check_packet-Leaves a) e
        (take_ok-Moves memo)

  on_response-Moves :
      (memo : Memo) (a : Agent R)
      → a.control.state ≡ sent_inv
      → Moves sent_inv (on_response env memo a)
  unfolding on_response release
  on_response-Moves memo a e = ground (arith, connect-Moves memo a e)

  on_packet-Moves :
      (s : State) (memo : Memo) (a : Agent R)
      → a.control.state ≡ s
      → Moves s (on_packet env s memo a)
  unfolding on_packet on_sent_inv on_sent_bye on_accepted on_rejected on_in_call same_call cleanup
      free_host release send_ok transmit
  on_packet-Moves disconnected memo a e = on_disconnected-Moves memo a e
  on_packet-Moves sent_inv memo a e = ground (arith, on_response-Moves memo a e)
  on_packet-Moves rcvd_inv memo a e = ground arith
  on_packet-Moves sent_bye memo a e = ground arith
  on_packet-Moves accepted memo a e = ground arith
  on_packet-Moves rejected memo a e = ground arith
  on_packet-Moves in_call memo a e = ground arith

  check_source-state :
      (memo : Memo) (s : State) (a : Agent R)
      → may_follow s a.control.state ≡ true
      → Moves s (check_source env memo a)
  unfolding check_source send_busy transmit release
  check_source-state memo s a h = ground arith

  then_check :
      (memo : Memo) (s : State) (o : Option (Agent R))
      → Moves s o
      → Moves s (o >>= check_source env memo)
  then_check memo s none h = h
  then_check memo s (some b) h = check_source-state memo s b h

  stays : (s : State) → may_follow s s ≡ true
  stays s = ground arith

  read_or_not :
      (memo : Memo) (fine : Bool) (a : Agent R)
      → Moves a.control.state (
          if fine then (on_packet env a.control.state memo a >>= check_source env memo) else some a)
  read_or_not memo false a = stays a.control.state
  read_or_not memo true a =
      then_check memo a.control.state (on_packet env a.control.state memo a)
        (on_packet-Moves a.control.state memo a refl)

  on_received-Moves : (memo : Memo) (a : Agent R) → Moves a.control.state (on_received env memo a)
  unfolding on_received
  on_received-Moves memo a =
      let r = env.sip_read memo (reset a.sip_recv) in
      read_or_not memo r.0 (record a { sip_recv = r.1 })

  release-Moves : (memo : Memo) (a : Agent R) → Moves a.control.state (some (release memo a))
  unfolding release
  release-Moves memo a = stays a.control.state

  on_memo-Moves :
      (draw : ℕ) (memo : Memo) (a : Agent R)
      → Inv a
      → Moves a.control.state (on_memo env draw memo a)
  unfolding on_memo
  on_memo-Moves draw memo a v = ground (
    arith,
    on_invite-Moves draw memo a,
    on_bye-Moves memo a v,
    on_accept-Moves memo a,
    on_reject-Moves memo a,
    on_received-Moves memo a,
    release-Moves memo a,
  )

  -- From a state with the invariant, whatever comes, a round that ends without a fault changes the
  -- state of the call only along the graph `may_follow`.
  pub round-Moves :
      (e : ℕ × Option Memo) (a : Agent R) → Inv a → Moves a.control.state (round env e a)
  unfolding round do_default_action
  round-Moves (draw, none) a v = default_step-Moves a.control.default_action a refl v
  round-Moves (draw, some memo) a v = on_memo-Moves draw memo a v
