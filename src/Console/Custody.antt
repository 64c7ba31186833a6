-- ===== src/Console/Custody.antt =====
-- src/VivaVoce.cpp: the memos that the commands make, and when they make them.
use viva_voce.Prelude.{
  ℕ, ◌+◌, ◌≡◌, refl, Bool, true, false, not, ◌||◌, ◌&&◌, List, Option, none, some, arith, length,
  if◌then◌else◌, Bool-cases, inl, inr,
}
use viva_voce.Agent.Run.{vivoce_sip_invite, vivoce_sip_accept, vivoce_sip_reject, vivoce_sip_bye}
use viva_voce.Adpcm.Worker.{respond}
use viva_voce.Text.{Text, codes, strtok}
use viva_voce.Queue.{SyncQueue}
use viva_voce.Queue.Lengths.{length-signal_data}
use viva_voce.Pool.{Memo, alloc_memo}
use viva_voce.Pool.Loops.{reserve, alloc_memo_lem}
use viva_voce.Common.{Common, Flags}
use viva_voce.Console.{
  Command, inviting, accept, reject, bye, diag, verbose, who, test_audio, mute, sine, quit,
  unrecognized, blank, Console, Next, again, stop, status_memo, tell_agent, invite_command, ask_all,
  tell_if, test_command, execute,
}

abbrev pub queued : SyncQueue Memo → ℕ
queued q = length q.data_q

-- No memo is lost, and none is in two places: the memos of a kind that are queued or in reserve
-- grow by as many as are made.
pub record Accounted {R : Type 0} (c c' : Common R) : Type 0 where
  pub sip_memos :
      queued c'.signal_q + length (reserve c'.sip_rmg) + c.sip_rmg.total
      ≡ queued c.signal_q + length (reserve c.sip_rmg) + c'.sip_rmg.total
  pub audio_memos :
      queued c'.send_q
        + queued c'.codec_q
        + queued c'.play_q
        + length (reserve c'.rmg)
        + c.rmg.total
      ≡ queued c.send_q + queued c.codec_q + queued c.play_q + length (reserve c.rmg) + c'.rmg.total

-- The state after a command.
abbrev pub after : {R : Type 0} → Next (Console R) → Common R
after (again s) = s.common
after (stop s) = s.common

abbrev has_word : Option Text → Bool
has_word none = false
has_word (some w) = true

-- The second word of a command is there.
abbrev pub has_address : Text → Bool
has_address cmd = has_word (strtok (codes " ") (strtok (codes " ") cmd).1).0

-- Whether a command tells the agent something.
abbrev pub tells : Command → Text → Flags → Bool
tells inviting cmd f = not (f.is_ringing || f.is_connected) && has_address cmd
tells accept cmd f = f.is_ringing
tells reject cmd f = f.is_ringing
tells bye cmd f = f.is_connected
tells who cmd f = true
tells _ cmd f = false

abbrev pub told : Bool → ℕ
told b = if b then 1 else 0

-- What each command keeps true: the memos are accounted for, and the agent is told as often as `n` says.
record Kept {R : Type 0} (n : ℕ) (c c' : Common R) : Type 0 where
  pub accounted : Accounted c c'
  pub signalled : queued c'.signal_q ≡ queued c.signal_q + n

unchanged : {R : Type 0} (c : Common R) → Kept 0 c c
unchanged c = record {
  accounted = record { sip_memos = refl; audio_memos = refl };
  signalled = omega arith;
}

unchanged_flags : {R : Type 0} (f : Flags) (c : Common R) → Kept 0 c (record c { flags = f })
unchanged_flags f c = record {
  accounted = record { sip_memos = refl; audio_memos = refl };
  signalled = omega arith;
}

module _ {R : Type 0} (malloc : ℕ → List ℕ) where
  tell_agent-Kept :
      (code : ℕ) (text : Option Text) (c : Common R) → Kept 1 c (tell_agent malloc code text c)
  unfolding tell_agent
  tell_agent-Kept code text c = record {
    accounted = record {
      sip_memos = omega (arith, alloc_memo_lem malloc c.sip_rmg, length-signal_data {A = Memo});
      audio_memos = refl;
    };
    signalled = omega (arith, length-signal_data {A = Memo});
  }

  tell_if-Kept :
      (allowed : Bool) (code : ℕ) (c : Common R)
      → Kept (told allowed) c (tell_if malloc allowed code c)
  tell_if-Kept true code c = tell_agent-Kept code none c
  tell_if-Kept false code c = unchanged c

  invite_command-Kept :
      (cmd : Text) (c : Common R)
      → Kept (told (tells inviting cmd c.flags)) c (invite_command malloc cmd c)
  unfolding invite_command
  invite_command-Kept cmd c =
      chosen (c.flags.is_ringing || c.flags.is_connected)
        (strtok (codes " ") (strtok (codes " ") cmd).1).0
    where
      chosen :
          (busy : Bool) (word : Option Text)
          → Kept (told (not busy && has_word word)) c (
              if busy then c else elim word [
                | none ↦ c
                | some line ↦ tell_agent malloc vivoce_sip_invite (some line) c
              ])
      chosen true word = unchanged c
      chosen false none = unchanged c
      chosen false (some line) = tell_agent-Kept vivoce_sip_invite (some line) c

  ask_all-Kept : (c : Common R) → Kept 1 c (ask_all malloc c)
  unfolding ask_all status_memo
  ask_all-Kept c = record {
    accounted = record {
      sip_memos = first.accounted.sip_memos;
      audio_memos = omega (
        arith,
        first.accounted.audio_memos,
        alloc_memo_lem malloc (tell_agent malloc respond none c).rmg,
        alloc_memo_lem malloc (alloc_memo malloc (tell_agent malloc respond none c).rmg).1,
        alloc_memo_lem malloc
            (alloc_memo malloc (alloc_memo malloc (tell_agent malloc respond none c).rmg).1).1,
        length-signal_data {A = Memo},
      );
    };
    signalled = first.signalled;
  }
    where
      first : Kept 1 c (tell_agent malloc respond none c)
      first = tell_agent-Kept respond none c

  test_command-common : (cmd : Text) (s : Console R) → (test_command cmd s).common ≡ s.common
  unfolding test_command
  test_command-common cmd s = elim (Bool-cases s.common.flags.is_connected) [
    | inl h ↦ rw h refl
    | inr h ↦ rw h refl
  ]

  execute-Kept :
      (command : Command) (cmd : Text) (s : Console R)
      → Kept
          (told (tells command cmd s.common.flags))
          s.common
          (after (execute malloc command cmd s))
  unfolding execute
  execute-Kept inviting cmd s = invite_command-Kept cmd s.common
  execute-Kept accept cmd s = tell_if-Kept s.common.flags.is_ringing vivoce_sip_accept s.common
  execute-Kept reject cmd s = tell_if-Kept s.common.flags.is_ringing vivoce_sip_reject s.common
  execute-Kept bye cmd s = tell_if-Kept s.common.flags.is_connected vivoce_sip_bye s.common
  execute-Kept who cmd s = ask_all-Kept s.common
  execute-Kept test_audio cmd s = rw (test_command-common cmd s) (unchanged s.common)
  execute-Kept mute cmd s = unchanged_flags _ s.common
  execute-Kept sine cmd s = unchanged_flags _ s.common
  execute-Kept verbose cmd s = unchanged_flags _ s.common
  execute-Kept diag cmd s = unchanged s.common
  execute-Kept quit cmd s = unchanged s.common
  execute-Kept unrecognized cmd s = unchanged s.common
  execute-Kept blank cmd s = unchanged s.common

  -- Whatever command is given, the memos of each pool that are queued or in reserve, together,
  -- grow by as many as the pool's total does; and one memo more is in the agent's queue for an
  -- invite with an address while nothing rings and there is no call, for an accept or a reject
  -- while it rings, for a bye in a call and for the `w` command, and none for the others.
  pub execute-Accounted :
      (command : Command) (cmd : Text) (s : Console R)
      → let c' = after (execute malloc command cmd s) in
        Accounted s.common c'
        × (queued c'.signal_q
            ≡ queued s.common.signal_q + (if tells command cmd s.common.flags then 1 else 0))
  execute-Accounted command cmd s =
      ((execute-Kept command cmd s).accounted, (execute-Kept command cmd s).signalled)
