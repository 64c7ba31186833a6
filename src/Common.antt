-- ===== src/Common.antt =====
-- src/Common.h and src/Common.cpp: the object that the threads share: its constructor, `reset`, and
-- the queues that the destructor empties. The counters, `double`s that count up from 0, are numbers.
-- The sockets, the device and the addresses are left out. The RTP manager is a parameter.
pub mod Closing
use viva_voce.Prelude.{ℕ, ◌+◌, ◌-◌, ◌*◌, ◌/◌, Bool, true, false, Option, none, some, List}
use viva_voce.Prelude.Int.{ℤ, pos}
use viva_voce.Text.{Text, codes}
use viva_voce.Queue.{SyncQueue, new_queue}
use viva_voce.Pool.{Memo, ResourceManager, resource_manager, empty_queue}

-- The audio settings and the sizes that follow from them.
pub record Settings : Type 0 where
  pub precision : ℕ
  pub n_channels : ℕ
  pub n_coding : Text
  pub sample_rate : ℕ
  pub gain : ℕ
  pub samples_per_capture : ℕ
  pub sample_byte_size : ℕ
  pub bytes_per_capture : ℕ
  pub memo_size : ℕ
  pub bytes_per_fragment : ℕ
  pub msec_per_capture : ℕ
  pub msec_last_burst : ℕ

pub record Counters : Type 0 where
  pub bytes_rec : ℕ
  pub bytes_pld : ℕ
  pub bytes_enc : ℕ
  pub bytes_dec : ℕ
  pub bytes_rcv : ℕ
  pub bytes_snt : ℕ
  pub units_rec : ℕ
  pub units_pld : ℕ
  pub units_enc : ℕ
  pub units_dec : ℕ
  pub units_rcv : ℕ
  pub units_snt : ℕ
  pub sim_lost : ℕ
  pub pack_loss_prob : ℕ

-- The `int`s that are only ever 0 or 1 are Booleans.
pub record Flags : Type 0 where
  pub is_connected : Bool
  pub is_ringing : Bool
  pub go : Bool
  pub send_rr : Bool
  pub send_sr : Bool
  pub verbose : Bool
  pub audr_sig : Bool
  pub udpr_sig : Bool
  pub audio_go : Bool
  pub audio_mute : ℤ
  pub audio_gen_tone : ℤ
  pub codec_stop : Bool

pub record Ports : Type 0 where
  pub sip_port : ℕ
  pub rtp_port : ℕ
  pub rtcp_port : ℕ

pub record Common (R : Type 0) : Type 0 where
  pub username : Option Text
  pub hostname : Option Text
  pub settings : Settings
  pub counters : Counters
  pub flags : Flags
  pub ports : Ports
  pub send_q : SyncQueue Memo
  pub codec_q : SyncQueue Memo
  pub play_q : SyncQueue Memo
  pub signal_q : SyncQueue Memo
  pub rmg : ResourceManager
  pub sip_rmg : ResourceManager
  pub rtp_mgr : R

unfoldable pub first_settings : Settings
first_settings =
    let precision : ℕ = 8 in
    let gain : ℕ = 1 in
    let samples : ℕ = 161 in
    let sample_byte_size : ℕ = precision / 8 in
    record {
      precision = precision;
      n_channels = 1;
      n_coding = codes "ulaw";
      sample_rate = 8000;
      gain = gain;
      samples_per_capture = samples;
      sample_byte_size = sample_byte_size;
      bytes_per_capture = samples * sample_byte_size;
      memo_size = samples * 2 + 10;
      bytes_per_fragment = (samples - 1) / 2 + 2;
      msec_per_capture = samples * 1000 / gain;
      msec_last_burst = 0;
    }

unfoldable pub first_counters : Counters
first_counters = record {
  bytes_rec = 0;
  bytes_pld = 0;
  bytes_enc = 0;
  bytes_dec = 0;
  bytes_rcv = 0;
  bytes_snt = 0;
  units_rec = 0;
  units_pld = 0;
  units_enc = 0;
  units_dec = 0;
  units_rcv = 0;
  units_snt = 0;
  sim_lost = 0;
  pack_loss_prob = 5;
}

abbrev pub sip_memo_size : ℕ
sip_memo_size = 1024

module _ {R : Type 0} (new_manager : R) where
  unfoldable pub new_common : Common R
  unfolding first_settings first_counters
  new_common = record {
    username = none;
    hostname = none;
    settings = first_settings;
    counters = first_counters;
    flags = record {
      is_connected = false;
      is_ringing = false;
      go = true;
      send_rr = false;
      send_sr = false;
      verbose = false;
      audr_sig = false;
      udpr_sig = false;
      audio_go = false;
      audio_mute = pos 0;
      audio_gen_tone = pos 0;
      codec_stop = false;
    };
    ports = record { sip_port = 5060; rtp_port = 5004; rtcp_port = 5005 };
    send_q = new_queue;
    codec_q = new_queue;
    play_q = new_queue;
    signal_q = new_queue;
    rmg = resource_manager 20 (first_settings).memo_size;
    sip_rmg = resource_manager 20 sip_memo_size;
    rtp_mgr = new_manager;
  }

module _ {R : Type 0} where
  -- `free` of the old name, and a copy of the new one.
  unfoldable pub set_user_name : Text → Common R → Common R
  set_user_name name c = record c { username = some name }

  unfoldable pub set_host_name : Text → Common R → Common R
  set_host_name name c = record c { hostname = some name }

  unfoldable pub reset : (R → R) → Common R → Common R
  unfolding first_settings first_counters
  reset reset_manager c =
      let f = c.flags in
      record c {
        settings = first_settings;
        counters = first_counters;
        flags = record f {
          is_connected = false;
          go = true;
          send_rr = false;
          send_sr = false;
          audio_go = false;
          codec_stop = false;
        };
        rtp_mgr = reset_manager c.rtp_mgr;
      }

  -- `~Common` empties the queues into the pools, and frees both then.
  unfoldable pub empty_stores : Common R → Common R
  empty_stores c =
      let (sent, send_q, rmg) = empty_queue c.send_q c.rmg in
      let (coded, codec_q, rmg1) = empty_queue c.codec_q rmg in
      let (played, play_q, rmg2) = empty_queue c.play_q rmg1 in
      let (signalled, signal_q, sip_rmg) = empty_queue c.signal_q c.sip_rmg in
      record c {
        send_q = send_q;
        codec_q = codec_q;
        play_q = play_q;
        signal_q = signal_q;
        rmg = rmg2;
        sip_rmg = sip_rmg;
      }
