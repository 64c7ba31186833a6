-- ===== src/Agent/Invariant/Steps.antt =====
-- src/UserAgent.cpp: the parts of a round keep the invariant.
use viva_voce.Prelude.{ℕ, ◌≡◌, ◌≢◌, refl, true, arith}
use viva_voce.Text.{codes, strtok}
use viva_voce.Pool.{Memo}
use viva_voce.Agent.{
  Agent, Action, unset, nothing, disconn, conn, inv_ack, incoming, ringing, send_ring, bye,
}
use viva_voce.Agent.Environment.{Environment}
use viva_voce.Agent.Send.{transmit, send_invite, send_bye, send_ok, send_decline, send_ringing}
use viva_voce.Agent.Receive.{release, cleanup, free_host}
use viva_voce.Agent.Run.{
  alloc, set_wait, repeat_bye, give_up, stop_ringing, repeat_ring, default_step, do_default_action,
  invite, on_invite, on_bye, on_accept, on_reject,
}
use viva_voce.Agent.Invariant.{is_some, Inv, Keeps}

-- The command names somebody: there is a byte other than '@' in it.
abbrev pub Named : Memo → Type 0
Named memo = is_some (strtok (codes "@") memo.bytes).0 ≡ true

module _ {R : Type 0} (env : Environment R) where
  pub release-Inv : (memo : Memo) (a : Agent R) → Inv a → Inv (release memo a)
  unfolding release
  release-Inv memo a v = record {
    pending = v.pending;
    connected = v.connected;
    pointer = v.pointer;
    few = v.few;
    host = v.host;
    contact = v.contact;
  }

  repeat_bye-Inv : (a : Agent R) → a.control.default_action ≡ bye → Inv a → Inv (repeat_bye env a)
  unfolding repeat_bye send_bye alloc transmit
  repeat_bye-Inv a e v = ground arith

  repeat_ring-Keeps :
      (a : Agent R) → a.control.default_action ≡ send_ring → Inv a → Keeps (repeat_ring env a)
  unfolding repeat_ring send_ringing alloc transmit
  repeat_ring-Keeps a e v = ground arith

  cleanup-Keeps : (a : Agent R) → Inv a → a.control.default_action ≢ nothing → Keeps (cleanup env a)
  unfolding cleanup free_host
  cleanup-Keeps a v n = ground arith

  default_step-Keeps :
      (act : Action) (a : Agent R)
      → a.control.default_action ≡ act
      → Inv a
      → Keeps (default_step env act a)
  unfolding default_step give_up stop_ringing cleanup free_host set_wait
  default_step-Keeps disconn a e v = cleanup-Keeps a v (λ f. cc)
  default_step-Keeps bye a e v = repeat_bye-Inv a e v
  default_step-Keeps send_ring a e v = repeat_ring-Keeps a e v
  default_step-Keeps conn a e v = ground arith
  default_step-Keeps incoming a e v = ground arith
  default_step-Keeps inv_ack a e v = ground arith
  default_step-Keeps ringing a e v = ground arith
  default_step-Keeps unset a e v = v
  default_step-Keeps nothing a e v = v

  -- A time-out.
  pub do_default_action-Keeps : (a : Agent R) → Inv a → Keeps (do_default_action env a)
  unfolding do_default_action
  do_default_action-Keeps a v = default_step-Keeps a.control.default_action a refl v

  -- The commands.
  pub on_bye-Inv : (memo : Memo) (a : Agent R) → Inv a → Inv (on_bye env memo a)
  unfolding on_bye send_bye transmit release
  on_bye-Inv memo a v = ground arith

  pub on_accept-Inv : (memo : Memo) (a : Agent R) → Inv a → Inv (on_accept env memo a)
  unfolding on_accept send_ok transmit release
  on_accept-Inv memo a v = ground arith

  pub on_reject-Inv : (memo : Memo) (a : Agent R) → Inv a → Inv (on_reject env memo a)
  unfolding on_reject send_decline transmit release
  on_reject-Inv memo a v = ground arith

  pub on_invite-Keeps :
      (draw : ℕ) (memo : Memo) (a : Agent R)
      → Named memo
      → Inv a
      → Keeps (on_invite env draw memo a)
  unfolding on_invite invite send_invite transmit release
  on_invite-Keeps draw memo a n v = ground arith
