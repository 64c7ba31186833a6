-- ===== src/Console/Calls.antt =====
-- src/VivaVoce.cpp and src/UserAgent.cpp: a call that is typed reaches the agent as it was typed.
use viva_voce.Prelude.{
  ℕ, ◌≤◌, ◌<◌, ◌^◌, ◌≡◌, refl, ap, true, false, ◌||◌, List, [], ◌∷◌, ◌++◌, some, length, ◌>>=◌,
}
use viva_voce.Text.{Text, codes, printed}
use viva_voce.Text.Cuts.{free, free_append, plain-free, IsPlain, tokens}
use viva_voce.Text.Decimal.{decimal, decimal-IsPlain, atoi-decimal_all}
use viva_voce.Queue.{signal_data}
use viva_voce.Pool.{Memo, alloc_memo}
use viva_voce.Agent.{Agent, disconnected}
use viva_voce.Agent.Environment.{Environment}
use viva_voce.Agent.Send.{send_invite}
use viva_voce.Agent.Run.{vivoce_sip_invite, invite, on_invite, on_memo, reset_common, is_state}
use viva_voce.Common.{Common}
use viva_voce.Console.{
  Console, again, command_of, is_command, read_command, tell_agent, invite_command, execute, obey,
}
use viva_voce.Console.Dispatch.{read_command-line}

-- What is typed to call a party, and the line of the command.
abbrev pub address : Text → Text → ℕ → Text
address id host port = printed (id ∷ codes "@" ∷ host ∷ codes ":" ∷ decimal port ∷ [])

abbrev pub typed : Text → Text
typed addr = codes "i " ++ addr

invite_command_lem :
    {R : Type 0} (malloc : ℕ → List ℕ) (c : Common R) (id host : Text) (port : ℕ)
    → IsPlain id
    → IsPlain host
    → (c.flags.is_ringing || c.flags.is_connected) ≡ false
    → invite_command malloc (typed (address id host port)) c
      ≡ tell_agent malloc vivoce_sip_invite (some (address id host port)) c
unfolding invite_command
invite_command_lem malloc c id host port i h idle =
    rw idle (simp (tokens, decimal-IsPlain port) refl)

-- The memo that the command line makes.
abbrev pub request : (ℕ → List ℕ) → {R : Type 0} → Common R → Text → Memo
request malloc c addr = record (alloc_memo malloc c.sip_rmg).0 {
  code = vivoce_sip_invite;
  bytes = addr;
}

obey-typed :
    {R : Type 0} (malloc : ℕ → List ℕ) (s : Console R) (id host : Text) (port : ℕ)
    → IsPlain id
    → IsPlain host
    → (s.common.flags.is_ringing || s.common.flags.is_connected) ≡ false
    → let c = s.common in
      let addr = address id host port in
      obey malloc (typed addr) s
      ≡ again (record s {
        common = record c {
          sip_rmg = (alloc_memo malloc c.sip_rmg).1;
          signal_q = signal_data (request malloc c addr) c.signal_q;
        };
      })
unfolding obey execute command_of is_command tell_agent
obey-typed malloc s id host port i h idle =
    rw (invite_command_lem malloc s.common id host port i h idle) refl

on_memo-address :
    {R : Type 0} (env : Environment R) (draw : ℕ) (a : Agent R) (memo : Memo) (id host : Text)
    (port : ℕ)
    → IsPlain id
    → IsPlain host
    → port < 2 ^ 31
    → a.control.state ≡ disconnected
    → on_memo env draw (record memo { code = vivoce_sip_invite; bytes = address id host port }) a
      ≡ (send_invite env draw
            (record memo { code = vivoce_sip_invite; bytes = address id host port })
            (record a { remote_id = some id; remote_host = some host; remote_sip_port = port })
          >>= (λ a2. some (reset_common env a2)))
unfolding on_memo on_invite invite
on_memo-address env draw a memo id host port i h p idle =
    rw (ap (is_state env disconnected) idle)
      (simp (tokens, decimal-IsPlain port, atoi-decimal_all port p) refl)

free-address :
    (id host : Text) (port : ℕ)
    → IsPlain id
    → IsPlain host
    → free (codes "\n") (typed (address id host port)) ≡ true
free-address id host port i h = simp (free_append, plain-free, decimal-IsPlain port) refl

-- While there is no call, a typed line of at most 98 bytes `i id@host:port`, with a plain name and
-- host and a port below 2 ^ 31, is read as it is; it puts one memo into the agent's queue, from
-- the SIP pool, and changes nothing else; and an agent that is disconnected takes this memo for a
-- call to that name, host and port.
pub typed_call :
    {R S : Type 0} (malloc : ℕ → List ℕ) (env : Environment S) (draw : ℕ) (s : Console R)
    (a : Agent S) (held rest id host : Text) (port : ℕ)
    → IsPlain id
    → IsPlain host
    → port < 2 ^ 31
    → length (typed (address id host port)) ≤ 98
    → (s.common.flags.is_ringing || s.common.flags.is_connected) ≡ false
    → a.control.state ≡ disconnected
    → let c = s.common in
      let addr = address id host port in
      let memo = request malloc c addr in
      (read_command held (typed addr ++ b'\n' ∷ rest) ≡ some (typed addr, rest))
      × (obey malloc (typed addr) s
          ≡ again (record s {
            common = record c {
              sip_rmg = (alloc_memo malloc c.sip_rmg).1;
              signal_q = signal_data memo c.signal_q;
            };
          }))
      × (on_memo env draw memo a ≡ (
          send_invite env draw memo
            (record a { remote_id = some id; remote_host = some host; remote_sip_port = port })
          >>= (λ a2. some (reset_common env a2))))
typed_call malloc env draw s a held rest id host port i h p short idle off = (
  read_command-line held (typed (address id host port)) rest (free-address id host port i h) short,
  obey-typed malloc s id host port i h idle,
  on_memo-address env draw a (request malloc s.common (address id host port)) id host port i h p
      off,
)
