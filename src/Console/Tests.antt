-- ===== src/Console/Tests.antt =====
-- src/VivaVoce.cpp: commands that are typed.
use viva_voce.Prelude.{
  ℕ, ◌+◌, ◌≡◌, refl, false, List, [], ◌∷◌, ◌++◌, none, some, arith, replicate, if◌then◌else◌, ◌>>=◌,
  ◌||◌,
}
use viva_voce.Text.{codes}
use viva_voce.Text.Decimal.{decimal}
use viva_voce.Queue.{signal_data}
use viva_voce.Pool.{alloc_memo}
use viva_voce.Agent.{Agent, disconnected}
use viva_voce.Agent.Send.{send_invite}
use viva_voce.Agent.Run.{init, on_memo, reset_common}
use viva_voce.Agent.Tests.{env, stores, remotes, draws}
use viva_voce.Common.{new_common}
use viva_voce.Console.{
  quit, unrecognized, inviting, diag, Console, again, is_command, command_of, read_command, execute,
  obey, ports_of,
}
use viva_voce.Console.Dispatch.{by_letter, command_of-by_letter}
use viva_voce.Console.Custody.{Accounted, after, queued, tells, execute-Accounted}
use viva_voce.Console.Calls.{address, typed, request, typed_call}

abbrev zeros : ℕ → List ℕ
zeros n = replicate n 0

abbrev console : Console ℕ
console = record { common = new_common 0; audio_test = none }

abbrev agent : Agent ℕ
agent = init (codes "me") (codes "here.org") 5060 draws stores remotes 0

idle_lem : (console.common.flags.is_ringing || console.common.flags.is_connected) ≡ false
unfolding new_common
idle_lem = refl

off_lem : agent.control.state ≡ disconnected
unfolding init
off_lem = refl

command_of-by_letter_example : command_of (codes "exit") ≡ by_letter (codes "exit")
command_of-by_letter_example = command_of-by_letter (codes "exit")

words :
    (command_of (codes "e") ≡ unrecognized)
    × (command_of (codes "xyz") ≡ quit)
    × (command_of (codes "ignore") ≡ inviting)
    × (command_of (codes "delete") ≡ diag)
unfolding command_of is_command
words = (refl, refl, refl, refl)

execute-Accounted_example :
    let c' = after (execute zeros inviting (codes "i bob@peer.org") console) in
    Accounted console.common c'
    × (queued c'.signal_q
        ≡ queued console.common.signal_q
          + (if tells inviting (codes "i bob@peer.org") console.common.flags then 1 else 0))
execute-Accounted_example = execute-Accounted zeros inviting (codes "i bob@peer.org") console

typed_call_example :
    let c = console.common in
    let addr = address (codes "bob") (codes "peer.org") 5070 in
    let memo = request zeros c addr in
    (read_command [] (typed addr ++ b'\n' ∷ codes "q\n") ≡ some (typed addr, codes "q\n"))
    × (obey zeros (typed addr) console
        ≡ again (record console {
          common = record c {
            sip_rmg = (alloc_memo zeros c.sip_rmg).1;
            signal_q = signal_data memo c.signal_q;
          };
        }))
    × (on_memo env 7 memo agent ≡ (
        send_invite env 7 memo (record agent {
          remote_id = some (codes "bob");
          remote_host = some (codes "peer.org");
          remote_sip_port = 5070;
        })
        >>= (λ a2. some (reset_common env a2))))
unfolding decimal
typed_call_example =
    typed_call zeros env 7 console agent [] (codes "q\n") (codes "bob") (codes "peer.org") 5070 refl
      refl (omega arith) (omega arith) idle_lem off_lem

-- At the end of the input the last command is cut by a byte and obeyed again, until an empty buffer
-- is written to before its start.
no_more_input :
    (read_command (codes "diag") [] ≡ some (codes "dia", [])) × (read_command [] [] ≡ none)
unfolding read_command
no_more_input = (refl, refl)

ports_lem :
    ports_of
      (codes "me" ∷ codes "5070" ∷ [])
      (record { sip_port = 5060; rtp_port = 5004; rtcp_port = 5005 })
    ≡ none
unfolding ports_of
ports_lem = refl
