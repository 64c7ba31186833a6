-- ===== src/Console.antt =====
-- src/VivaVoce.h and src/VivaVoce.cpp: the command line. `run` reads a command, tells which one it is
-- and acts on it, by memos for the other threads; after the last one it shuts the program down.
-- The test of the audio device (src/AudioTest.cpp) is a thread with a flag of its own.
pub mod Dispatch
pub mod Custody
pub mod Calls
mod Tests
use viva_voce.Prelude.{
  ℕ, zero, suc, ◌+◌, ◌-◌, ◌%◌, ◌^◌, Bool, true, false, not, ◌||◌, ◌&&◌, List, [], ◌∷◌, ◌++◌, Option,
  none, some, ◌==◌, if◌then◌else◌, length,
}
use viva_voce.Prelude.Int.{ℤ, pos, ◌-ℤ◌, ltb_ℤ}
use viva_voce.Text.{Text, codes, has_prefix, strtok}
use viva_voce.Text.Decimal.{atoi}
use viva_voce.Queue.{signal_data, signal}
use viva_voce.Pool.{Memo, ResourceManager, init, alloc_memo, clear}
use viva_voce.Agent.Run.{vivoce_sip_invite, vivoce_sip_accept, vivoce_sip_reject, vivoce_sip_bye}
use viva_voce.Adpcm.Worker.{respond}
use viva_voce.Common.{Common, Ports}

pub data Command : Type 0 where
  inviting accept reject bye diag verbose who test_audio mute sine quit unrecognized blank : Command

-- `strncmp(word, cmd, 1) == 0 || strncmp(word, cmd, strlen(word)) == 0` with the first letter and
-- the word.
pub is_command : Text → Text → Text → Bool
is_command letter word cmd = has_prefix letter cmd || has_prefix word cmd

-- The chain of tests, of which the last is `strlen(cmd)`.
pub command_of : Text → Command
command_of cmd =
    if is_command (codes "i") (codes "invite") cmd
    then inviting
    else if is_command (codes "a") (codes "accept") cmd
    then accept
    else if is_command (codes "r") (codes "reject") cmd
    then reject
    else if is_command (codes "b") (codes "bye") cmd
    then bye
    else if is_command (codes "d") (codes "diag") cmd
    then diag
    else if is_command (codes "v") (codes "verbose") cmd
    then verbose
    else if has_prefix (codes "w") cmd
    then who
    else if is_command (codes "t") (codes "testau") cmd
    then test_audio
    else if is_command (codes "m") (codes "mute") cmd
    then mute
    else if is_command (codes "s") (codes "sine") cmd
    then sine
    else if (has_prefix (codes "x") cmd || has_prefix (codes "q") cmd)
        || (has_prefix (codes "quit") cmd || has_prefix (codes "exit") cmd)
    then quit
    else if length cmd == 0
    then blank
    else unrecognized

-- `fgets(cmd, n + 1, stdin)`: at most `n` bytes, up to the end of the line; and the input left.
pub get_line : ℕ → Text → Text × Text
get_line zero input = ([], input)
get_line (suc n) [] = ([], [])
get_line (suc n) (c ∷ input) =
    let (line, rest) = get_line n input in if c == b'\n' then (c ∷ [], input) else (c ∷ line, rest)

abbrev pub without_last : Text → Text
without_last [] = []
without_last (c ∷ []) = []
without_last (c ∷ d ∷ s) = c ∷ without_last (d ∷ s)

-- `fgets` and the cut of the last byte. At the end of the input the buffer keeps what it held, and
-- an empty one is written to before its start, a fault.
pub read_command : Text → Text → Option (Text × Text)
read_command held [] = elim held [ [] ↦ none | c ∷ s ↦ some (without_last (c ∷ s), []) ]
read_command held (c ∷ input) =
    let (line, rest) = get_line 99 (c ∷ input) in some (without_last line, rest)

-- `AudioIOTest`, as far as the command line sees it, with the calls of `start`.
pub record Tester : Type 0 where
  pub test_codec : Bool
  pub flags : ℕ
  pub running : Bool
  pub starts : ℕ

-- The command line: `common`, and `audioTest`, which may be null.
pub record Console (R : Type 0) : Type 0 where
  pub common : Common R
  pub audio_test : Option Tester

-- What a command leads to: the next round of the loop, or the end of the loop.
pub data Next (A : Type 0) : Type 0 where
  again : A → Next A
  stop : A → Next A

-- The third word of the command is the flags, if there is one.
pub new_tester : Text → Tester
new_tester cmd =
    let first = strtok (codes " ") cmd in
    let second = strtok (codes " ") first.1 in
    let third = strtok (codes " ") second.1 in
    record {
      test_codec = elim second.0 [ none ↦ false | some line ↦ has_prefix (codes "c") line ];
      flags = elim third.0 [ none ↦ 0 | some flag ↦ atoi flag ];
      running = false;
      starts = 0;
    }

-- A test that runs is stopped and deleted, another is started.
pub toggle_test : Tester → Option Tester
toggle_test t = if t.running then none else some (record t { starts = suc t.starts })

pub test_command : {R : Type 0} → Text → Console R → Console R
test_command cmd s =
    let tester : Tester = elim s.audio_test [ none ↦ new_tester cmd | some t ↦ t ] in
    if s.common.flags.is_connected then s else record s { audio_test = toggle_test tester }

-- A status memo of the audio pool: the pool, and the memo.
pub status_memo : (ℕ → List ℕ) → ResourceManager → Memo × ResourceManager
status_memo malloc rmg =
    let (memo, rest) = alloc_memo malloc rmg in (record memo { code = respond }, rest)

module _ {R : Type 0} (malloc : ℕ → List ℕ) where
  -- A memo of the SIP pool for the agent, with its code and its text.
  pub tell_agent : ℕ → Option Text → Common R → Common R
  tell_agent code text c =
      let (memo, sip_rmg) = alloc_memo malloc c.sip_rmg in
      let bytes : List ℕ = elim text [ none ↦ memo.bytes | some line ↦ line ] in
      record c {
        sip_rmg = sip_rmg;
        signal_q = signal_data (record memo { code = code; bytes = bytes }) c.signal_q;
      }

  -- The second word of the command is the address.
  pub invite_command : Text → Common R → Common R
  invite_command cmd c =
      let first = strtok (codes " ") cmd in
      if c.flags.is_ringing || c.flags.is_connected
      then c
      else elim (strtok (codes " ") first.1).0 [
        | none ↦ c
        | some line ↦ tell_agent vivoce_sip_invite (some line) c
      ]

  -- The `w` command: a memo for each thread with a queue, and a flag for each of the others.
  pub ask_all : Common R → Common R
  ask_all c =
      let c1 = tell_agent respond none c in
      let (sent, rmg1) = status_memo malloc c1.rmg in
      let (coded, rmg2) = status_memo malloc rmg1 in
      let (played, rmg3) = status_memo malloc rmg2 in
      let f = c1.flags in
      record c1 {
        rmg = rmg3;
        send_q = signal_data sent c1.send_q;
        codec_q = signal_data coded c1.codec_q;
        play_q = signal_data played c1.play_q;
        flags = record f { audr_sig = true; udpr_sig = true };
      }

  -- A command that tells the agent something, if its condition holds.
  abbrev pub tell_if : Bool → ℕ → Common R → Common R
  tell_if allowed code c = if allowed then tell_agent code none c else c

  -- `run` up to its loop: the pools, the ports that the arguments name, and what `initTransport` and
  -- `initAudio` return, below 0 on an error.
  pub set_up : Option Ports → ℤ → ℤ → Common R → Option (Common R)
  set_up own_ports transport audio c =
      let f = c.flags in
      let ports : Ports = elim own_ports [ none ↦ c.ports | some p ↦ p ] in
      if ltb_ℤ transport (pos 0) || ltb_ℤ audio (pos 0)
      then none
      else some (record c {
        rmg = init malloc c.rmg;
        sip_rmg = init malloc c.sip_rmg;
        ports = ports;
        flags = record f { go = true; is_connected = false };
      })

  -- What a command does; `diag` only prints.
  pub execute : Command → Text → Console R → Next (Console R)
  execute command cmd s =
      let c = s.common in
      let f = c.flags in
      let go_on : Common R → Next (Console R) = λ c1. again (record s { common = c1 }) in
      elim command [
        | inviting ↦ go_on (invite_command cmd c)
        | accept ↦ go_on (tell_if f.is_ringing vivoce_sip_accept c)
        | reject ↦ go_on (tell_if f.is_ringing vivoce_sip_reject c)
        | bye ↦ go_on (tell_if f.is_connected vivoce_sip_bye c)
        | diag ↦ again s
        | verbose ↦ go_on (record c { flags = record f { verbose = not f.verbose } })
        | who ↦ go_on (ask_all c)
        | test_audio ↦ again (test_command cmd s)
        | mute ↦ go_on (record c { flags = record f { audio_mute = pos 1 -ℤ f.audio_mute } })
        | sine ↦
            go_on (record c { flags = record f { audio_gen_tone = pos 1 -ℤ f.audio_gen_tone } })
        | quit ↦ stop (record s {
          audio_test = elim s.audio_test [
            | none ↦ none
            | some t ↦ if t.running then none else some t
          ];
        })
        | unrecognized ↦ again s
        | blank ↦ again s
      ]

  -- A round of the loop: the command is found in the text.
  pub obey : Text → Console R → Next (Console R)
  obey cmd s = execute (command_of cmd) cmd s

  -- After the loop, up to `waitForThreadsToDie`: the last BYE, the flags, and a signal on each queue.
  pub shut_down : (R → R) → Common R → Common R
  shut_down close c =
      let c1 = tell_if c.flags.is_connected vivoce_sip_bye c in
      let f = c1.flags in
      record c1 {
        flags = record f { go = false; is_connected = false };
        signal_q = signal c1.signal_q;
        send_q = signal c1.send_q;
        codec_q = signal c1.codec_q;
        play_q = signal c1.play_q;
        rtp_mgr = close c1.rtp_mgr;
      }

-- Once the threads are dead, the pools are cleared.
pub clear_pools : {R : Type 0} → Common R → Common R
clear_pools c = record c { rmg = (clear c.rmg).1; sip_rmg = (clear c.sip_rmg).1 }

-- `main`: the ports of `common`, for the arguments after the program's name: none are changed if
-- there is the user's name alone, and the program ends with -1 unless there are one or three.
pub ports_of : List Text → Ports → Option Ports
ports_of (name ∷ []) standard = some standard
ports_of (name ∷ sip ∷ rtp ∷ []) standard =
    some (record { sip_port = atoi sip; rtp_port = atoi rtp; rtcp_port = atoi rtp + 1 })
ports_of _ standard = none
