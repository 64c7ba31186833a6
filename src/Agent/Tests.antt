-- ===== src/Agent/Tests.antt =====
-- src/UserAgent.cpp: an agent in a small environment, and the theorems at it.
use viva_voce.Prelude.{
  ℕ, suc, inr, ◌≡◌, refl, Bool, true, false, ◌==◌, if◌then◌else◌, Option, none, some, List, [], ◌∷◌,
  replicate, arith,
}
use viva_voce.Text.{codes, strtok, starts_with}
use viva_voce.Queue.{new_queue}
use viva_voce.Pool.{Memo, resource_manager}
use viva_voce.Sip.{SipPacket, Via, new_packet, new_via, method_inv, method_ack, method_bye}
use viva_voce.Udp.{Address, Remotes}
use viva_voce.Agent.{Agent, Stores, State, in_call, rcvd_inv, Action, nothing, send_ring, owned}
use viva_voce.Agent.Environment.{Environment, Media, described}
use viva_voce.Agent.Receive.{cleanup}
use viva_voce.Agent.Run.{
  round, Draws, init, run, do_default_action, on_bye, on_accept, on_reject, on_received,
  vivoce_sip_invite, vivoce_sip_rcvd, vivoce_sip_accept, vivoce_sip_bye,
}
use viva_voce.Agent.Invariant.{Inv, Keeps, ReadsComplete}
use viva_voce.Agent.Invariant.Rounds.{AllFed, run-init}
use viva_voce.Agent.Custody.{Holds, on_received-Holds}
use viva_voce.Agent.Graph.{Moves, round-Moves}
use viva_voce.Agent.Timeouts.{Settles, RingsAgain, run-timeouts, accept-timeout}
use viva_voce.Agent.Messages.{
  memos, command-memos, Undisturbed, on_received-foreign, Cleaned, cleanup-Cleaned,
}

abbrev via : Via
via = record new_via { host = some (codes "peer.org"); port = 5060 }

-- The packet that a memo stands for: `data1` is its request, and `data2` is its call. Only an INVITE
-- has content.
abbrev packet : Memo → SipPacket
packet memo = record new_packet {
  is_request = true;
  request_code = memo.data1;
  call_id = memo.data2;
  call_id_host = some (codes "peer.org");
  contact_uri = record { id = some (codes "bob"); host = some (codes "peer.org") };
  content_type = if memo.data1 == method_inv then some (codes "application/sdp") else none;
  content_length = if memo.data1 == method_inv then 1 else 0;
  via_list = via ∷ [];
}

abbrev media : Media
media = record { media = codes "audio 4000"; transport = codes "RTP/AVP 5"; port = 4000 }

abbrev pub env : Environment ℕ
env = record {
  malloc = λ n. replicate n 0;
  resolve = λ host. some 127;
  sip_read = λ memo p. (true, packet memo);
  sip_write = λ p size. (4, 1 ∷ 2 ∷ 3 ∷ 4 ∷ []);
  sdp_read = λ p. described (media ∷ []);
  rtp_init = λ file r. 1;
  rtp_close = λ r. 0;
  rtp_reset = λ r. r;
}

abbrev pub stores : Stores
stores = record {
  send_q = new_queue;
  codec_q = new_queue;
  play_q = new_queue;
  rmg = resource_manager 4 16;
  sip_rmg = resource_manager 4 16;
}

abbrev nowhere : Address
nowhere = record { ip = 0; port = 0 }

abbrev pub remotes : Remotes
remotes = record { name = none; rtp = nowhere; rtcp = nowhere; sip = nowhere; temp = nowhere }

abbrev pub draws : Draws
draws = record { sdp_text = codes "v=0"; tag = codes "t"; branch = codes "z" }

abbrev pub memo_of : ℕ → ℕ → ℕ → Memo
memo_of code data1 data2 = record {
  id = 0;
  code = code;
  data1 = data1;
  data2 = data2;
  bytes = codes "bob@peer.org";
  size = 16;
}

-- A call is made and times out; one comes in, is taken and acknowledged, and the peer ends it.
abbrev events : List (ℕ × Option Memo)
events =
    (7, some (memo_of vivoce_sip_invite 0 0))
    ∷ (0, none)
    ∷ (0, some (memo_of vivoce_sip_rcvd method_inv 9))
    ∷ (0, some (memo_of vivoce_sip_accept 0 0))
    ∷ (0, some (memo_of vivoce_sip_rcvd method_ack 9))
    ∷ (0, some (memo_of vivoce_sip_rcvd method_bye 9))
    ∷ (0, none)
    ∷ []

packet-ReadsComplete : (memo : Memo) → ReadsComplete env memo
unfolding strtok starts_with
packet-ReadsComplete memo p = record {
  call_host = refl;
  contact_id = refl;
  contact_host = refl;
  content = λ h. rw h refl;
}

events-AllFed : AllFed env events
events-AllFed = (
  inr (packet-ReadsComplete (memo_of vivoce_sip_invite 0 0)),
  (
    tt,
    (
      inr (packet-ReadsComplete (memo_of vivoce_sip_rcvd method_inv 9)),
      (
        inr (packet-ReadsComplete (memo_of vivoce_sip_accept 0 0)),
        (
          inr (packet-ReadsComplete (memo_of vivoce_sip_rcvd method_ack 9)),
          (inr (packet-ReadsComplete (memo_of vivoce_sip_rcvd method_bye 9)), (tt, tt)),
        ),
      ),
    ),
  ),
)

abbrev pub start : Agent ℕ
start = init (codes "alice") (codes "here.org") 5060 draws stores remotes 0

run-init_example : Keeps (run env events start)
unfolding strtok
run-init_example =
    run-init env (codes "alice") (codes "here.org") 5060 draws stores remotes 0 events events-AllFed
      refl

-- An agent with a call of number 9 in some state.
abbrev agent_in : State → Action → Bool → Agent ℕ
agent_in s act b =
    let c = start.control in
    record start {
      control = record c {
        state = s;
        default_action = act;
        is_connected = b;
        call_id = 9;
        call_id_host = owned (codes "peer.org");
      };
      remote_host = some (codes "peer.org");
      sip_recv = packet (memo_of vivoce_sip_rcvd method_inv 9);
    }

abbrev ringing_agent : Agent ℕ
ringing_agent = agent_in rcvd_inv send_ring false

abbrev talking_agent : Agent ℕ
talking_agent = agent_in in_call nothing true

ringing-Inv : Inv ringing_agent
unfolding init
ringing-Inv = record {
  pending = refl;
  connected = refl;
  pointer = refl;
  few = omega arith;
  host = refl;
  contact = refl;
}

run-timeouts_example : Settles (run env (replicate 8 (0, none)) ringing_agent)
run-timeouts_example = run-timeouts env 8 ringing_agent (omega arith) ringing-Inv

accept-timeout_example :
    let memo = memo_of vivoce_sip_accept 0 0 in
    ((on_accept env memo ringing_agent).control.state ≡ State.accepted)
    × RingsAgain (do_default_action env (on_accept env memo ringing_agent))
unfolding init
accept-timeout_example =
    accept-timeout env (memo_of vivoce_sip_accept 0 0) ringing_agent ringing-Inv refl refl
      (omega arith)

on_received-foreign_example :
    Undisturbed env
      (packet (memo_of vivoce_sip_rcvd method_bye 10))
      talking_agent
      (on_received env (memo_of vivoce_sip_rcvd method_bye 10) talking_agent)
unfolding init
on_received-foreign_example =
    on_received-foreign env (memo_of vivoce_sip_rcvd method_bye 10) talking_agent refl refl refl
      (λ e. ground arith)

command-memos_example :
    let memo = memo_of vivoce_sip_bye 0 0 in
    (memos (on_bye env memo talking_agent) ≡ suc (memos talking_agent))
    × (memos (on_accept env memo talking_agent) ≡ suc (memos talking_agent))
    × (memos (on_reject env memo talking_agent) ≡ suc (memos talking_agent))
command-memos_example = command-memos env (memo_of vivoce_sip_bye 0 0) talking_agent

cleanup-Cleaned_example : Cleaned talking_agent (cleanup env talking_agent)
cleanup-Cleaned_example = cleanup-Cleaned env talking_agent

round-Moves_example :
    Moves ringing_agent.control.state
      (round env (0, some (memo_of vivoce_sip_rcvd method_inv 9)) ringing_agent)
round-Moves_example =
    round-Moves env (0, some (memo_of vivoce_sip_rcvd method_inv 9)) ringing_agent ringing-Inv

on_received-Holds_example :
    Holds
      (suc (memos ringing_agent))
      (on_received env (memo_of vivoce_sip_rcvd method_inv 10) ringing_agent)
unfolding init
on_received-Holds_example =
    on_received-Holds env (memo_of vivoce_sip_rcvd method_inv 10) ringing_agent
      (packet-ReadsComplete (memo_of vivoce_sip_rcvd method_inv 10)) ringing-Inv (λ e. ground arith)
      refl
