-- ===== src/Agent/Invariant/Rounds.antt =====
-- src/UserAgent.cpp: no round of `run` is a fault, and each keeps the invariant.
use viva_voce.Prelude.{
  ℕ, ◌≡◌, ◌≢◌, ◌⊎◌, inl, inr, Bool, true, Option, none, some, List, [], ◌∷◌, ◌==◌, ◌||◌, ◌&&◌, not,
  ◌>>=◌, arith,
}
use viva_voce.Text.{codes, Text, strtok}
use viva_voce.Pool.{Memo}
use viva_voce.Udp.{Remotes}
use viva_voce.Agent.{Agent, Stores}
use viva_voce.Agent.Environment.{Environment}
use viva_voce.Agent.Run.{Draws, init, vivoce_sip_invite, vivoce_sip_rcvd, on_memo, round, run}
use viva_voce.Agent.Invariant.{Inv, Keeps, ReadsComplete, is_some}
use viva_voce.Agent.Invariant.Steps.{
  release-Inv, do_default_action-Keeps, on_bye-Inv, on_accept-Inv, on_reject-Inv, on_invite-Keeps,
}
use viva_voce.Agent.Invariant.Packets.{on_received-Keeps}

-- The INVITE commands among the events name somebody.
abbrev pub well_named : ℕ × Option Memo → Bool
well_named (draw, none) = true
well_named (draw, some memo) =
    not (memo.code == vivoce_sip_invite) || is_some (strtok (codes "@") memo.bytes).0

abbrev pub all_named : List (ℕ × Option Memo) → Bool
all_named [] = true
all_named (e ∷ es) = well_named e && all_named es

-- A packet that comes in has what the agent relies on.
abbrev pub Fed : {R : Type 0} → Environment R → ℕ × Option Memo → Type 0
Fed env (draw, none) = Unit
Fed env (draw, some memo) = (memo.code ≢ vivoce_sip_rcvd) ⊎ ReadsComplete env memo

abbrev pub AllFed : {R : Type 0} → Environment R → List (ℕ × Option Memo) → Type 0
AllFed env [] = Unit
AllFed env (e ∷ es) = Fed env e × AllFed env es

module _ {R : Type 0} (env : Environment R) where
  on_memo-Keeps :
      (draw : ℕ) (memo : Memo) (a : Agent R)
      → Fed env (draw, some memo)
      → well_named (draw, some memo) ≡ true
      → Inv a
      → Keeps (on_memo env draw memo a)
  unfolding on_memo
  on_memo-Keeps draw memo a (inl other) n v = ground (
    arith,
    on_invite-Keeps env draw memo a,
    on_bye-Inv env memo a v,
    on_accept-Inv env memo a v,
    on_reject-Inv env memo a v,
    release-Inv env memo a v,
  )
  on_memo-Keeps draw memo a (inr c) n v = ground (
    arith,
    on_invite-Keeps env draw memo a,
    on_bye-Inv env memo a v,
    on_accept-Inv env memo a v,
    on_reject-Inv env memo a v,
    on_received-Keeps env memo a c v,
    release-Inv env memo a v,
  )

  pub round-Keeps :
      (e : ℕ × Option Memo) (a : Agent R)
      → Fed env e
      → well_named e ≡ true
      → Inv a
      → Keeps (round env e a)
  unfolding round
  round-Keeps (draw, none) a f n v = do_default_action-Keeps env a v
  round-Keeps (draw, some memo) a f n v = on_memo-Keeps draw memo a f n v

  carry :
      (o : Option (Agent R)) (f : Agent R → Option (Agent R))
      → Keeps o
      → ((b : Agent R) → Inv b → Keeps (f b))
      → Keeps (o >>= f)
  carry none f h k = h
  carry (some b) f h k = k b h

  pub run-Keeps :
      (es : List (ℕ × Option Memo)) (a : Agent R)
      → AllFed env es
      → all_named es ≡ true
      → Inv a
      → Keeps (run env es a)
  unfolding run
  run-Keeps [] a f n v = v
  run-Keeps (e ∷ es) a f n v =
      carry (round env e a) (run env es) (round-Keeps e a f.0 (ground arith) v)
        (λ b w. run-Keeps es b f.1 (ground arith) w)

  init-Inv :
      (username hostname : Text) (port : ℕ) (d : Draws) (s : Stores) (m : Remotes) (r : R)
      → Inv (init username hostname port d s m r)
  unfolding init
  init-Inv username hostname port d s m r = ground arith

  -- From the state that `init` leaves, any sequence of time-outs and memos is run without a fault
  -- (the agent looks at no null text, and neither looks at nor frees `callIdHost` once it is
  -- freed) and ends in a state with the invariant `Inv`, if every INVITE command names somebody
  -- and each packet that comes in, also one that cannot be parsed, leaves what the agent relies on
  -- (`AllFed`): a host of its call number and a contact, and, only in an INVITE or an OK response,
  -- a content type, with a transport and a media word in the first media description, if the
  -- content is read and one is found.
  pub run-init :
      (username hostname : Text) (port : ℕ) (d : Draws) (s : Stores) (m : Remotes) (r : R)
      (es : List (ℕ × Option Memo))
      → AllFed env es
      → all_named es ≡ true
      → Keeps (run env es (init username hostname port d s m r))
  run-init username hostname port d s m r es f n =
      run-Keeps es (init username hostname port d s m r) f n
        (init-Inv username hostname port d s m r)
