-- ===== src/Agent/Messages.antt =====
-- src/UserAgent.cpp: where the memos go, and what a packet of another call does.
use viva_voce.Prelude.{
  ℕ, suc, ◌+◌, ◌≡◌, ◌≢◌, refl, ap, ◌∙◌, Bool, true, false, Option, none, some, [], ◌∷◌, ◌++◌,
  length, length-append, ◌>>=◌, if◌then◌else◌, arith,
}
use viva_voce.Queue.{en_q}
use viva_voce.Pool.{Memo, empty_queue, release_memo}
use viva_voce.Queue.Lengths.{length-signal_data}
use viva_voce.Pool.Loops.{reserve, empty_queue_lem}
use viva_voce.Sip.{SipPacket, reset}
use viva_voce.Agent.{Agent, State, in_call, dangling}
use viva_voce.Agent.Environment.{Environment}
use viva_voce.Agent.Send.{transmit, send_bye, send_ok, send_decline, send_busy}
use viva_voce.Agent.Receive.{
  empty_queues, cleanup, free_host, release, on_packet, on_in_call, check_source,
}
use viva_voce.Agent.Run.{on_bye, on_accept, on_reject, on_received}
use viva_voce.Agent.Invariant.{is_some}

module _ {R : Type 0} where
  -- The memos in the queue for sending and in the reserve of the pool.
  abbrev pub memos : Agent R → ℕ
  memos a = length a.stores.send_q.data_q + length a.stores.sip_rmg.memo_q.data_q

  abbrev pub Cleaned : Agent R → Option (Agent R) → Type 0
  Cleaned a none = a.control.call_id_host ≡ dangling
  Cleaned a (some b) =
      (b.stores.send_q.data_q ≡ [])
      × (b.stores.codec_q.data_q ≡ [])
      × (b.stores.play_q.data_q ≡ [])
      × (reserve b.stores.rmg
          ≡ ((reserve a.stores.rmg ++ a.stores.send_q.data_q) ++ a.stores.codec_q.data_q)
            ++ a.stores.play_q.data_q)
      × (b.stores.sip_rmg ≡ a.stores.sip_rmg)

module _ {R : Type 0} (env : Environment R) where
  pub transmit-memos :
      (d : ℕ) (memo : Memo) (a : Agent R) → memos (transmit env d memo a) ≡ suc (memos a)
  unfolding transmit
  transmit-memos d memo a =
      let w = env.sip_write a.sip_send memo.size in
      let message : Memo = record memo { code = 35; data1 = w.0; data2 = d; bytes = w.1 } in
      omega (arith, length-signal_data message a.stores.send_q)

  pub release-memos : (memo : Memo) (a : Agent R) → memos (release memo a) ≡ suc (memos a)
  unfolding release release_memo en_q
  release-memos memo a = omega (arith, length-append a.stores.sip_rmg.memo_q.data_q (memo ∷ []))

  -- The memo of a BYE, ACCEPT or REJECT command, in any state, goes either to the send queue or to
  -- the reserve of its pool, once: the two together hold one memo more.
  pub command-memos :
      (memo : Memo) (a : Agent R)
      → (memos (on_bye env memo a) ≡ suc (memos a))
        × (memos (on_accept env memo a) ≡ suc (memos a))
        × (memos (on_reject env memo a) ≡ suc (memos a))
  unfolding on_bye on_accept on_reject send_bye send_ok send_decline
  command-memos memo a = grind (arith, transmit-memos, release-memos)

  abbrev pub Undisturbed : SipPacket → Agent R → Option (Agent R) → Type 0
  Undisturbed p a none = ⊥
  Undisturbed p a (some b) =
      (b.control ≡ a.control)
      × (b.rtp ≡ a.rtp)
      × (b.sip_send.call_id ≡ p.call_id)
      × ((bye : Memo) → (on_bye env bye b).sip_send.call_id ≡ p.call_id)

  on_bye_call_id :
      (memo : Memo) (a : Agent R) → (on_bye env memo a).sip_send.call_id ≡ a.sip_send.call_id
  unfolding on_bye send_bye transmit release
  on_bye_call_id memo a = ground arith

  abbrev Still : SipPacket → Agent R → Option (Agent R) → Type 0
  Still p a none = ⊥
  Still p a (some b) = (b.control ≡ a.control) × (b.rtp ≡ a.rtp) × (b.sip_send.call_id ≡ p.call_id)

  then_bye : (p : SipPacket) (a : Agent R) (o : Option (Agent R)) → Still p a o → Undisturbed p a o
  then_bye p a none h = h
  then_bye p a (some b) (c, r, i) = (c, r, i, λ bye. on_bye_call_id bye b ∙ i)

  foreign :
      (memo : Memo) (s : State) (a : Agent R)
      → s ≡ in_call
      → is_some a.sip_recv.contact_uri.host ≡ true
      → a.sip_recv.call_id ≢ a.control.call_id
      → Still a.sip_recv a (on_packet env s memo a >>= check_source env memo)
  unfolding on_packet on_in_call check_source send_busy transmit
  foreign memo s a e h n = ground arith

  after_read :
      (memo : Memo) (fine : Bool) (p : SipPacket) (a : Agent R)
      → fine ≡ true
      → Still p a
          (on_packet env a.control.state memo (record a { sip_recv = p }) >>= check_source env memo)
      → Still p a (
          if fine
          then (on_packet env a.control.state memo (record a { sip_recv = p })
              >>= check_source env memo)
          else some (record a { sip_recv = p }))
  after_read memo true p a e h = h
  after_read memo false p a e h = ground arith

  -- In a call, a readable packet with another call number and with a host in its contact causes no
  -- fault and leaves the control fields of the agent and the RTP manager's state as they are. But
  -- `sipPackSend` has the other call's number then, and keeps it in the BYE that the next hang-up
  -- command sends.
  pub on_received-foreign :
      (memo : Memo) (a : Agent R)
      → a.control.state ≡ in_call
      → (env.sip_read memo (reset a.sip_recv)).0 ≡ true
      → let p = (env.sip_read memo (reset a.sip_recv)).1 in
        is_some p.contact_uri.host ≡ true
        → p.call_id ≢ a.control.call_id
        → Undisturbed p a (on_received env memo a)
  unfolding on_received
  on_received-foreign memo a s f h n =
      let r = env.sip_read memo (reset a.sip_recv) in
      then_bye r.1 a _ (
        after_read memo r.0 r.1 a f
          (foreign memo a.control.state (record a { sip_recv = r.1 }) s h n))

  moved : (a : Agent R) → Cleaned a (some (record a { stores = empty_queues a.stores }))
  unfolding empty_queues
  moved a =
      let s = a.stores in
      let e1 = empty_queue s.send_q s.rmg in
      let h1 = empty_queue_lem s.send_q s.rmg in
      let e2 = empty_queue s.codec_q e1.2 in
      let h2 = empty_queue_lem s.codec_q e1.2 in
      let h3 = empty_queue_lem s.play_q e2.2 in
      (
        h1.1,
        h2.1,
        h3.1,
        h3.2 ∙ ap (λ l. l ++ s.play_q.data_q) (h2.2 ∙ ap (λ l. l ++ s.codec_q.data_q) h1.2),
        refl,
      )

  -- `cleanup` fails only if `callIdHost` is dangling. Otherwise it empties the three queues into
  -- the pool of the audio memos, those of the send queue first, and leaves the pool of the SIP
  -- memos as it is.
  pub cleanup-Cleaned : (a : Agent R) → Cleaned a (cleanup env a)
  unfolding cleanup free_host
  cleanup-Cleaned a = ground (arith, moved a)
