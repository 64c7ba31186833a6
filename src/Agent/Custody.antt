-- ===== src/Agent/Custody.antt =====
-- src/UserAgent.cpp: a memo with a packet is given on once, or lost if the packet cannot be read.
use mathlib.Core.Path.{subst}
use viva_voce.Prelude.{
  ℕ, suc, ◌+◌, ◌≡◌, ◌≢◌, refl, ap, ◌∙◌, Bool, true, false, Option, none, some, [], ◌∷◌, length,
  ◌>>=◌, if◌then◌else◌, arith,
}
use viva_voce.Text.{Text}
use viva_voce.Pool.{Memo}
use viva_voce.Sip.{reset}
use viva_voce.Agent.{
  Agent, Stores, State, disconnected, sent_inv, rcvd_inv, sent_bye, accepted, rejected, in_call,
}
use viva_voce.Agent.Environment.{Environment, Sdp, malformed, described}
use viva_voce.Agent.Send.{transmit, send_ok, send_ack, send_busy, send_ringing}
use viva_voce.Agent.Receive.{
  release, same_call, check_content, accept_media, accept_sdp, check_via, check_packet, ring,
  on_disconnected, take_invite, take_ok, connect, on_response, on_sent_inv, on_accepted,
  on_rejected, on_in_call, on_packet, check_source,
}
use viva_voce.Agent.Run.{on_received}
use viva_voce.Agent.Invariant.{Inv, Keeps, ReadsComplete}
use viva_voce.Agent.Invariant.Packets.{on_received-Keeps}
use viva_voce.Agent.Messages.{memos, transmit-memos, release-memos}

-- The memos in the queue for sending and in the reserve of the SIP pool.
abbrev kept : Stores → ℕ
kept s = length s.send_q.data_q + length s.sip_rmg.memo_q.data_q

module _ {R : Type 0} where
  -- The memos given on, with the one in hand that a packet of another call leaves to be answered.
  abbrev handled : Agent R → ℕ
  handled a = if a.check_src then suc (memos a) else memos a

  -- The memo in hand is given on, or left to be answered.
  abbrev Handles : ℕ → Option (Agent R) → Type 0
  Handles n none = Unit
  Handles n (some b) = handled b ≡ suc n

  abbrev Given : ℕ → Option (Agent R) → Type 0
  Given n none = Unit
  Given n (some b) = (memos b ≡ n) × (b.check_src ≡ false)

  -- There is no fault, the memos number so many, and no answer is left to be given.
  abbrev pub Holds : ℕ → Option (Agent R) → Type 0
  Holds n none = ⊥
  Holds n (some b) = (memos b ≡ n) × (b.check_src ≡ false)

  -- What a check leaves alone.
  abbrev Same : Agent R → Option (Agent R) → Type 0
  Same a none = Unit
  Same a (some b) = (b.stores ≡ a.stores) × (b.check_src ≡ a.check_src)

  accept_sdp-Same : (sdp : Sdp) (a : Agent R) → Same a (accept_sdp sdp a)
  unfolding accept_sdp accept_media
  accept_sdp-Same malformed a = (refl, refl)
  accept_sdp-Same (described []) a = (refl, refl)
  accept_sdp-Same (described (m ∷ rest)) a = ground arith

module _ {R : Type 0} (env : Environment R) where
  check_content-Same : (t : Option Text) (a : Agent R) → Same a (check_content env t a)
  unfolding check_content
  check_content-Same t a = grind (arith, accept_sdp-Same)

  check_packet-Same : (a : Agent R) → Same a (check_packet env a)
  unfolding check_packet check_via
  check_packet-Same a = grind (arith, check_content-Same)

  transmit-check :
      (d : ℕ) (memo : Memo) (a : Agent R) → (transmit env d memo a).check_src ≡ a.check_src
  unfolding transmit
  transmit-check d memo a = refl

  release-check : (memo : Memo) (a : Agent R) → (release memo a).check_src ≡ a.check_src
  unfolding release
  release-check memo a = refl

  ruleset custody = (arith, transmit-memos, transmit-check, release-memos, release-check)

  ring-Handles :
      (memo : Memo) (b : Agent R) → b.check_src ≡ false → Handles (memos b) (ring env memo b)
  unfolding ring send_ringing
  ring-Handles memo b e = grind custody

  take_invite-Handles :
      (memo : Memo) (b : Agent R) → b.check_src ≡ false → Handles (memos b) (take_invite env memo b)
  unfolding take_invite
  take_invite-Handles memo b e = grind (custody, ring-Handles)

  take_ok-Handles :
      (memo : Memo) (b : Agent R) → b.check_src ≡ false → Handles (memos b) (take_ok env memo b)
  unfolding take_ok send_ack
  take_ok-Handles memo b e = grind custody

  -- A check keeps the memos and the flag.
  after_check-Handles :
      (a : Agent R) (o : Option (Agent R)) (f : Agent R → Option (Agent R))
      → Same a o
      → a.check_src ≡ false
      → ((b : Agent R) → b.check_src ≡ false → Handles (memos b) (f b))
      → Handles (memos a) (o >>= f)
  after_check-Handles a none f h e k = tt
  after_check-Handles a (some b) f (s, c) e k =
      subst (λ m. Handles m (f b)) (ap kept s) (k b (c ∙ e))

  on_packet-Handles :
      (s : State) (memo : Memo) (a : Agent R)
      → s ≢ sent_bye
      → a.check_src ≡ false
      → Handles (memos a) (on_packet env s memo a)
  unfolding on_packet on_disconnected on_sent_inv on_response connect on_accepted on_rejected
      on_in_call same_call send_ok
  on_packet-Handles disconnected memo a n e = grind (
    custody,
    after_check-Handles a (check_packet env a) (take_invite env memo) (check_packet-Same a) e
        (take_invite-Handles memo),
  )
  on_packet-Handles sent_inv memo a n e = grind (
    custody,
    after_check-Handles a (check_packet env a) (take_ok env memo) (check_packet-Same a) e
        (take_ok-Handles memo),
  )
  on_packet-Handles rcvd_inv memo a n e = grind custody
  on_packet-Handles sent_bye memo a n e = absurd (n refl)
  on_packet-Handles accepted memo a n e = grind custody
  on_packet-Handles rejected memo a n e = grind custody
  on_packet-Handles in_call memo a n e = grind custody

  check_source-Given :
      (memo : Memo) (n : ℕ) (b : Agent R) → handled b ≡ n → Given n (check_source env memo b)
  unfolding check_source send_busy
  check_source-Given memo n b h = grind custody

  settled :
      (memo : Memo) (n : ℕ) (o : Option (Agent R))
      → Handles n o
      → Given (suc n) (o >>= check_source env memo)
  settled memo n none h = tt
  settled memo n (some b) h = check_source-Given memo (suc n) b h

  read_or_lost :
      (memo : Memo) (fine : Bool) (a : Agent R)
      → a.control.state ≢ sent_bye
      → a.check_src ≡ false
      → Given
          (if fine then suc (memos a) else memos a)
          (if fine then on_packet env a.control.state memo a >>= check_source env memo else some a)
  read_or_lost memo false a n e = (refl, e)
  read_or_lost memo true a n e =
      settled memo (memos a) (on_packet env a.control.state memo a)
        (on_packet-Handles a.control.state memo a n e)

  no_fault : (n : ℕ) (o : Option (Agent R)) → Keeps o → Given n o → Holds n o
  no_fault n none k g = k
  no_fault n (some b) k g = g

  -- From a state with the invariant other than SIP_UA_SENT_BYE, with no answer left to be given, a
  -- packet that can be read is handled without a fault and its memo goes either to the send queue
  -- or to the reserve of its pool, once, if the packet has what the agent relies on
  -- (`ReadsComplete`): a host of its call number and a contact, and, only in an INVITE or an OK
  -- response, a content type, with a transport and a media word in the first media description, if
  -- the content is read and one is found. The memo of one that cannot be read goes to neither. No
  -- answer is left to be given after it.
  pub on_received-Holds :
      (memo : Memo) (a : Agent R)
      → ReadsComplete env memo
      → Inv a
      → a.control.state ≢ sent_bye
      → a.check_src ≡ false
      → Holds
          (if (env.sip_read memo (reset a.sip_recv)).0 then suc (memos a) else memos a)
          (on_received env memo a)
  unfolding on_received
  on_received-Holds memo a complete v n e =
      let r = env.sip_read memo (reset a.sip_recv) in
      no_fault (if r.0 then suc (memos a) else memos a) (on_received env memo a)
        (on_received-Keeps env memo a complete v)
        (read_or_lost memo r.0 (record a { sip_recv = r.1 }) n e)
