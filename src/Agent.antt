-- ===== src/Agent.antt =====
-- src/UserAgent.h and src/UserAgent.cpp: the call state machine. This file has the state; the
-- children have the messages that it sends, the packets that it receives, and the loop `run`.
pub mod Environment
pub mod Send
pub mod Receive
pub mod Run
pub mod Invariant
pub mod Graph
pub mod Timeouts
pub mod Messages
pub mod Custody
pub mod Peers
pub mod Tests
use viva_voce.Prelude.{ℕ, Bool, Option}
use viva_voce.Text.{Text}
use viva_voce.Queue.{SyncQueue}
use viva_voce.Pool.{Memo, ResourceManager}
use viva_voce.Sip.{SipPacket}
use viva_voce.Udp.{Remotes}

-- `SIP_UA_…`.
pub data State : Type 0 where
  disconnected sent_inv rcvd_inv sent_bye accepted rejected in_call : State

-- `SIP_NONE` to `SIP_BYE`, the action on a time-out; `unset` is the 0 of the constructor.
pub data Action : Type 0 where
  unset nothing disconn conn inv_ack incoming ringing send_ring bye : Action

-- `callIdHost` is null, or points to `localHost`, or to a block of its own, which `cleanup` frees
-- without clearing the pointer.
pub data HostPointer : Type 0 where
  null : HostPointer
  local : HostPointer
  owned : Text → HostPointer
  dangling : HostPointer

-- The fields that steer the calls, those of `Common` among them.
pub record Control : Type 0 where
  pub state : State
  pub default_action : Action
  pub wait_msec : ℕ
  pub rpt_count : ℕ
  pub call_id : ℕ
  pub call_id_host : HostPointer
  pub is_connected : Bool
  pub is_ringing : Bool

-- The queues and pools of `Common`.
pub record Stores : Type 0 where
  pub send_q : SyncQueue Memo
  pub codec_q : SyncQueue Memo
  pub play_q : SyncQueue Memo
  pub rmg : ResourceManager
  pub sip_rmg : ResourceManager

-- The agent, with its part of `Common`. `R` is the state of the RTP manager.
pub record Agent (R : Type 0) : Type 0 where
  pub control : Control
  pub stores : Stores
  pub check_src : Bool
  pub discard : Bool
  pub remote_rtp_port : ℕ
  pub remote_rtcp_port : ℕ
  pub remote_sip_port : ℕ
  pub remote_id : Option Text
  pub remote_host : Option Text
  pub local_id : Text
  pub local_host : Text
  pub cseq_code : ℕ
  pub cseq_method : Option Text
  pub sdp_buffer : Text
  pub sip_send : SipPacket
  pub sip_recv : SipPacket
  pub remotes : Remotes
  pub rtp : R
  pub reader_signals : ℕ
