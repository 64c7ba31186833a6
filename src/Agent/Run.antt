-- ===== src/Agent/Run.antt =====
-- src/UserAgent.cpp: `init`, `doDefaultAction`, and one round of the loop of `run`.
use viva_voce.Prelude.{
  ℕ, suc, Bool, true, false, Option, none, some, List, [], ◌∷◌, ltb, ◌==◌, ◌>>=◌, if◌then◌else◌,
}
use viva_voce.Text.{Text, codes, strtok}
use viva_voce.Text.Decimal.{atoi}
use viva_voce.Pool.{Memo, alloc_memo}
use viva_voce.Sip.{Via, reset, new_packet, add_via_field}
use viva_voce.Udp.{Remotes}
use viva_voce.Agent.{
  Agent, Stores, State, disconnected, rcvd_inv, accepted, Action, unset, nothing, disconn, conn,
  inv_ack, incoming, ringing, send_ring, bye, null,
}
use viva_voce.Agent.Environment.{Environment}
use viva_voce.Agent.Send.{send_invite, send_bye, send_ok, send_decline, send_ringing}
use viva_voce.Agent.Receive.{release, cleanup, on_packet, check_source}

-- `VIVOCE_SIP_…` of src/Common.h.
abbrev pub vivoce_sip_invite : ℕ
vivoce_sip_invite = 31

abbrev pub vivoce_sip_accept : ℕ
vivoce_sip_accept = 32

abbrev pub vivoce_sip_reject : ℕ
vivoce_sip_reject = 33

abbrev pub vivoce_sip_bye : ℕ
vivoce_sip_bye = 34

abbrev pub vivoce_sip_rcvd : ℕ
vivoce_sip_rcvd = 36

abbrev pub vivoce_sip_port : ℕ
vivoce_sip_port = 5060

-- What `init` draws and formats: the SDP text, the tag and the branch.
pub record Draws : Type 0 where
  pub sdp_text : Text
  pub tag : Text
  pub branch : Text

-- `init`, on the queues, addresses and ports that `Common` has then.
unfoldable pub init : {R : Type 0} → Text → Text → ℕ → Draws → Stores → Remotes → R → Agent R
init username hostname sip_port d stores remotes rtp =
    let via : Via = record {
      is_auto = true;
      transport = some (codes "UDP");
      host = some hostname;
      port = sip_port;
      branch = some d.branch;
    } in
    let p = add_via_field via new_packet in
    record {
      control = record {
        state = disconnected;
        default_action = unset;
        wait_msec = 100;
        rpt_count = 0;
        call_id = 0;
        call_id_host = null;
        is_connected = false;
        is_ringing = false;
      };
      stores = stores;
      check_src = false;
      discard = false;
      remote_rtp_port = 0;
      remote_rtcp_port = 0;
      remote_sip_port = 0;
      remote_id = none;
      remote_host = none;
      local_id = username;
      local_host = hostname;
      cseq_code = 0;
      cseq_method = none;
      sdp_buffer = d.sdp_text;
      sip_send = record p {
        from_tag = some d.tag;
        contact_uri = record { id = some username; host = some hostname };
        contact_transport = some (codes "UDP");
      };
      sip_recv = new_packet;
      remotes = remotes;
      rtp = rtp;
      reader_signals = 0;
    }

module _ {R : Type 0} (env : Environment R) where
  -- `common->sipRmg->allocMemo()`.
  unfoldable pub alloc : Agent R → Memo × Agent R
  alloc a =
      let s = a.stores in
      let (memo, pool) = alloc_memo env.malloc s.sip_rmg in
      (memo, record a { stores = record s { sip_rmg = pool } })

  unfoldable pub set_wait : ℕ → Agent R → Agent R
  set_wait msec a = let c = a.control in record a { control = record c { wait_msec = msec } }

  -- SIP_BYE: at most five more BYE messages.
  unfoldable pub repeat_bye : Agent R → Agent R
  repeat_bye a =
      let c = a.control in
      if ltb c.rpt_count 5
      then (let (memo, a1) =
            alloc (record a { control = record c { rpt_count = suc c.rpt_count } }) in
          let a2 = send_bye env memo a1 in
          let c2 = a2.control in
          record a2 { control = record c2 { default_action = bye; wait_msec = 500 } })
      else record a {
        control = record c {
          rpt_count = 0;
          state = disconnected;
          default_action = disconn;
          wait_msec = 500;
        };
      }

  -- SIP_CONN.
  unfoldable pub give_up : Agent R → Option (Agent R)
  give_up a = do
    let c = a.control
    a1 ← cleanup env (record a { control = record c { state = disconnected } })
    let c1 = a1.control
    some (record a1 { control = record c1 { default_action = nothing } })

  -- SIP_INCOMING.
  unfoldable pub stop_ringing : Agent R → Option (Agent R)
  stop_ringing a =
      let c = a.control in
      cleanup env (record a { control = record c { is_ringing = false; default_action = nothing } })

  -- SIP_SEND_RING: at most five more RINGING responses.
  unfoldable pub repeat_ring : Agent R → Option (Agent R)
  repeat_ring a =
      let c = a.control in
      if ltb c.rpt_count 5
      then (let (memo, a1) =
            alloc (record a { control = record c { rpt_count = suc c.rpt_count } }) in
          do
            a2 ← send_ringing env memo a1
            let c2 = a2.control
            some (record a2 {
              control = record c2 { default_action = send_ring; wait_msec = 3000 };
            }))
      else some (record a {
        control = record c { rpt_count = 0; default_action = incoming; wait_msec = 3000 };
      })

  unfoldable pub default_step : Action → Agent R → Option (Agent R)
  default_step disconn a = cleanup env a
  default_step bye a = some (repeat_bye a)
  default_step conn a = give_up a
  default_step inv_ack a =
      let c = a.control in some (record a { control = record c { default_action = nothing } })
  default_step incoming a = stop_ringing a
  default_step ringing a = some (set_wait 3000 a)
  default_step send_ring a = repeat_ring a
  default_step _ a = some a

  unfoldable pub do_default_action : Agent R → Option (Agent R)
  do_default_action a = default_step a.control.default_action a

  -- `common->reset()`: of what the agent sees, the connection and the state of the RTP manager.
  abbrev pub reset_common : Agent R → Agent R
  reset_common a =
      let c = a.control in
      record a { control = record c { is_connected = false }; rtp = env.rtp_reset a.rtp }

  -- VIVOCE_SIP_INVITE in SIP_UA_DISCONNECTED: the memo holds `id@host` or `id@host:port`.
  unfoldable pub invite : ℕ → Memo → Agent R → Option (Agent R)
  invite draw memo a = do
    let first = strtok (codes "@") memo.bytes
    id ← first.0
    let a1 = record a { remote_id = some id }
    let second = strtok (codes ":") first.1
    let third = strtok (codes ":") second.1
    elim second.0 [
      | none ↦ some (release memo a1)
      | some host ↦ do
        a2 ← send_invite env draw memo (record a1 {
          remote_host = some host;
          remote_sip_port = elim third.0 [ none ↦ vivoce_sip_port | some port ↦ atoi port ];
        })
        some (reset_common a2)
    ]

  abbrev pub is_state : State → State → Bool
  is_state disconnected disconnected = true
  is_state rcvd_inv rcvd_inv = true
  is_state s t = false

  unfoldable pub on_invite : ℕ → Memo → Agent R → Option (Agent R)
  on_invite draw memo a =
      if is_state disconnected a.control.state then invite draw memo a else some (release memo a)

  unfoldable pub on_bye : Memo → Agent R → Agent R
  on_bye memo a =
      let c = a.control in
      if c.is_connected
      then send_bye env memo
          (record a { control = record c { is_connected = false; rpt_count = 0 } })
      else release memo a

  unfoldable pub on_accept : Memo → Agent R → Agent R
  on_accept memo a =
      if is_state rcvd_inv a.control.state
      then (let a1 = send_ok env memo a in
          let c = a1.control in
          record a1 { control = record c { state = accepted; is_ringing = false } })
      else release memo a

  unfoldable pub on_reject : Memo → Agent R → Agent R
  on_reject memo a =
      if is_state rcvd_inv a.control.state
      then (let a1 = send_decline env memo a in
          let c = a1.control in record a1 { control = record c { is_ringing = false } })
      else release memo a

  -- VIVOCE_SIP_RCVD. A packet that cannot be read is dropped with its memo.
  unfoldable pub on_received : Memo → Agent R → Option (Agent R)
  on_received memo a =
      let (fine, packet) = env.sip_read memo (reset a.sip_recv) in
      let a1 = record a { sip_recv = packet } in
      if fine
      then (do a2 ← on_packet env a1.control.state memo a1; check_source env memo a2)
      else some a1

  unfoldable pub on_memo : ℕ → Memo → Agent R → Option (Agent R)
  on_memo draw memo a =
      if memo.code == vivoce_sip_invite
      then on_invite draw memo a
      else if memo.code == vivoce_sip_bye
      then some (on_bye memo a)
      else if memo.code == vivoce_sip_accept
      then some (on_accept memo a)
      else if memo.code == vivoce_sip_reject
      then some (on_reject memo a)
      else if memo.code == vivoce_sip_rcvd
      then on_received memo a
      else some (release memo a)

  -- One round: what `signalQ->waitForData` returned, with the random draw for a new call.
  unfoldable pub round : ℕ × Option Memo → Agent R → Option (Agent R)
  round (draw, some memo) a = on_memo draw memo a
  round (draw, none) a = do_default_action a

  unfoldable pub run : List (ℕ × Option Memo) → Agent R → Option (Agent R)
  run [] a = some a
  run (e ∷ es) a = do a1 ← round e a; run es a1
