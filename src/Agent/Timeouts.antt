-- ===== src/Agent/Timeouts.antt =====
-- src/UserAgent.cpp: what becomes of a call when nothing comes any more.
use viva_voce.Prelude.{
  ℕ, zero, suc, ◌-◌, ◌≤◌, ◌≡◌, refl, ◌∙◌, Bool, true, false, Option, none, some, ◌>>=◌, replicate,
  arith,
}
use viva_voce.Pool.{Memo}
use viva_voce.Agent.{
  Agent, rcvd_inv, accepted, Action, unset, nothing, disconn, conn, inv_ack, incoming, ringing,
  send_ring, bye,
}
use viva_voce.Agent.Environment.{Environment}
use viva_voce.Agent.Send.{transmit, send_bye, send_ok, send_ringing}
use viva_voce.Agent.Receive.{cleanup, free_host}
use viva_voce.Agent.Run.{
  alloc, set_wait, repeat_bye, give_up, stop_ringing, repeat_ring, default_step, do_default_action,
  on_accept, round, run,
}
use viva_voce.Agent.Invariant.{Inv, Keeps}
use viva_voce.Agent.Invariant.Steps.{do_default_action-Keeps, on_accept-Inv}

-- How many time-outs there are at most until nothing is pending.
abbrev pub time_left : Action → ℕ → ℕ
time_left disconn n = 1
time_left conn n = 1
time_left incoming n = 1
time_left send_ring n = 7 - n
time_left bye n = 7 - n
time_left a n = 0

module _ {R : Type 0} where
  abbrev left : Agent R → ℕ
  left a = time_left a.control.default_action a.control.rpt_count

  abbrev Nearer : Agent R → Option (Agent R) → Type 0
  Nearer a none = Unit
  Nearer a (some b) = left b ≤ left a - 1

  -- Nothing is pending: the agent is disconnected or in a call.
  abbrev pub is_idle : Agent R → Bool
  is_idle a = elim a.control.default_action [ nothing ↦ true | unset ↦ true | _ ↦ false ]

  abbrev pub Settles : Option (Agent R) → Type 0
  Settles none = ⊥
  Settles (some b) = Inv b × (is_idle b ≡ true)

  -- The call rings: it is a call that came in and was not taken.
  abbrev pub RingsAgain : Option (Agent R) → Type 0
  RingsAgain none = ⊥
  RingsAgain (some b) = (b.control.state ≡ rcvd_inv) × (b.control.is_ringing ≡ true)

  left_none : (a : Agent R) → Inv a → left a ≤ 0 → is_idle a ≡ true
  left_none a v h = ground arith

module _ {R : Type 0} (env : Environment R) where
  repeat_bye-left :
      (a : Agent R) → a.control.default_action ≡ bye → Inv a → left (repeat_bye env a) ≤ left a - 1
  unfolding repeat_bye send_bye alloc transmit
  repeat_bye-left a e v = ground arith

  repeat_ring-Nearer :
      (a : Agent R) → a.control.default_action ≡ send_ring → Inv a → Nearer a (repeat_ring env a)
  unfolding repeat_ring send_ringing alloc transmit
  repeat_ring-Nearer a e v = ground arith

  default_step-Nearer :
      (act : Action) (a : Agent R)
      → a.control.default_action ≡ act
      → Inv a
      → Nearer a (default_step env act a)
  unfolding default_step give_up stop_ringing cleanup free_host set_wait
  default_step-Nearer bye a e v = repeat_bye-left a e v
  default_step-Nearer send_ring a e v = repeat_ring-Nearer a e v
  default_step-Nearer disconn a e v = ground arith
  default_step-Nearer conn a e v = ground arith
  default_step-Nearer incoming a e v = ground arith
  default_step-Nearer inv_ack a e v = ground arith
  default_step-Nearer ringing a e v = ground arith
  default_step-Nearer unset a e v = ground arith
  default_step-Nearer nothing a e v = ground arith

  after_timeout :
      (a : Agent R) (o : Option (Agent R)) (f : Agent R → Option (Agent R))
      → Keeps o
      → Nearer a o
      → ((b : Agent R) → Inv b → left b ≤ left a - 1 → Settles (f b))
      → Settles (o >>= f)
  after_timeout a none f h k g = h
  after_timeout a (some b) f h k g = g b h k

  timeouts-Settles :
      (n : ℕ) (a : Agent R) → left a ≤ n → Inv a → Settles (run env (replicate n (0, none)) a)
  unfolding run round do_default_action
  timeouts-Settles zero a h v = (v, left_none a v h)
  timeouts-Settles (suc n) a h v =
      after_timeout a (do_default_action env a) (run env (replicate n (0, none)))
        (do_default_action-Keeps env a v) (default_step-Nearer a.control.default_action a refl v)
        (λ b w k. timeouts-Settles n b (omega (arith, h, k)) w)

  -- From a state with the invariant, seven or more time-outs in a row are run without a fault and
  -- end in a state with the invariant in which nothing is pending: no action is left for the next
  -- time-out.
  pub run-timeouts :
      (n : ℕ) (a : Agent R) → 7 ≤ n → Inv a → Settles (run env (replicate n (0, none)) a)
  run-timeouts n a h v = timeouts-Settles n a (ground arith) v

  ring_again :
      (act : Action) (a : Agent R)
      → act ≡ send_ring
      → a.control.default_action ≡ act
      → Inv a
      → a.control.rpt_count ≤ 4
      → RingsAgain (default_step env act a)
  unfolding default_step repeat_ring send_ringing alloc transmit
  ring_again send_ring a t e v h = ground arith
  ring_again unset a t e v h = ground arith
  ring_again nothing a t e v h = ground arith
  ring_again disconn a t e v h = ground arith
  ring_again conn a t e v h = ground arith
  ring_again inv_ack a t e v h = ground arith
  ring_again incoming a t e v h = ground arith
  ring_again ringing a t e v h = ground arith
  ring_again bye a t e v h = ground arith

  on_accept_lem :
      (memo : Memo) (a : Agent R)
      → a.control.state ≡ rcvd_inv
      → let b = on_accept env memo a in
        (b.control.state ≡ accepted)
        × (b.control.default_action ≡ a.control.default_action)
        × (b.control.rpt_count ≡ a.control.rpt_count)
  unfolding on_accept send_ok transmit
  on_accept_lem memo a s = ground arith

  -- If a ringing call, with the invariant and at most four repetitions of RINGING so far, is
  -- accepted, the agent is in SIP_UA_ACCEPTED, and a time-out before the ACK takes it back to
  -- SIP_UA_RCVD_INV with the ringing flag set.
  pub accept-timeout :
      (memo : Memo) (a : Agent R)
      → Inv a
      → a.control.state ≡ rcvd_inv
      → a.control.default_action ≡ send_ring
      → a.control.rpt_count ≤ 4
      → ((on_accept env memo a).control.state ≡ accepted)
        × RingsAgain (do_default_action env (on_accept env memo a))
  unfolding do_default_action
  accept-timeout memo a v s e h =
      let b = on_accept env memo a in
      let k = on_accept_lem memo a s in
      (
        k.0,
        ring_again b.control.default_action b (k.1 ∙ e) refl (on_accept-Inv env memo a v)
            (omega (arith, k.2)),
      )
