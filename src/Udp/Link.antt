-- ===== src/Udp/Link.antt =====
-- src/UdpRW.cpp: one round of `UdpReader::run` and of `UdpWriter::run`. The sockets are a list of
-- the datagrams handed to `sendto`, and what `recvfrom` returns is an argument.
pub mod Memos
use viva_voce.Prelude.{
  ℕ, suc, ◌-◌, ltb, ◌==◌, Bool, true, false, ◌||◌, ◌&&◌, not, Option, none, some, List, [], ◌∷◌,
  ◌++◌, ◌>>=◌, if◌then◌else◌, take, drop, length,
}
use viva_voce.Queue.{SyncQueue, signal_data, signal}
use viva_voce.Pool.{Memo, ResourceManager, alloc_memo, release_memo, downsize}
use viva_voce.Udp.{Address, Remotes}
use viva_voce.Rtp.Manager.{
  Floating, Timeval, Received, malformed, noted, answered, Manager, is_time_for_sr, handle_rtp_send,
  handle_rtp_recv,
}
use viva_voce.Rtp.Manager.Reports.{handle_rtcp_send_rr, handle_rtcp_send_sr, handle_rtcp_recv}

pub data Socket : Type 0 where
  sip rtp rtcp : Socket

pub record Datagram : Type 0 where
  pub socket : Socket
  pub to : Address
  pub bytes : List ℕ

-- What the two threads use of `Common`, and the datagrams sent, the latest first.
pub record Link (F : Type 0) : Type 0 where
  pub send_q : SyncQueue Memo
  pub signal_q : SyncQueue Memo
  pub codec_q : SyncQueue Memo
  pub rmg : ResourceManager
  pub sip_rmg : ResourceManager
  pub remotes : Remotes
  pub manager : Manager F
  pub is_connected : Bool
  pub send_sr : Bool
  pub send_rr : Bool
  pub go : Bool
  pub sent : List Datagram

-- Codes of memos, of src/Common.h.
abbrev pub vivoce_sip_send : ℕ
vivoce_sip_send = 35

abbrev pub vivoce_sip_rcvd : ℕ
vivoce_sip_rcvd = 36

abbrev pub vivoce_msg_dec : ℕ
vivoce_msg_dec = 21

abbrev pub vivoce_msg_send : ℕ
vivoce_msg_send = 24

abbrev pub vivoce_msg_report : ℕ
vivoce_msg_report = 25

abbrev pub vivoce_respond : ℕ
vivoce_respond = 99

module _ {F : Type 0} where
  unfoldable pub post : Socket → Address → List ℕ → Link F → Link F
  post socket to bytes l = record l {
    sent = record { socket = socket; to = to; bytes = bytes } ∷ l.sent;
  }

  unfoldable pub give_back : Memo → Link F → Link F
  give_back memo l = record l { rmg = release_memo (some memo) l.rmg }

  unfoldable pub give_back_sip : Memo → Link F → Link F
  give_back_sip memo l = record l { sip_rmg = release_memo (some memo) l.sip_rmg }

  -- The case VIVOCE_SIP_SEND of the writer. A length below 0, which is one of 2 ^ 31 or more here,
  -- sends nothing. With `verbose`, a temporary address that `gethostbyaddr` does not know leaves a
  -- null pointer that is looked at.
  unfoldable pub write_sip : Bool → (Address → Bool) → Memo → Link F → Option (Link F)
  write_sip verbose known memo l =
      let temp = not (memo.data2 == 0) in
      let to = if temp then l.remotes.temp else l.remotes.sip in
      if temp && verbose && not (known to)
      then none
      else some (
          give_back_sip (record memo { data2 = 0 })
            (if ltb memo.data1 2147483648 then post sip to (take memo.data1 memo.bytes) l else l))

  module _ (sendto : Datagram → Bool) (op_buf_size : ℕ) where
    -- The case VIVOCE_MSG_SEND: the payload is sent with its first two bytes swapped, in place.
    unfoldable pub write_audio : Memo → Link F → Option (Link F)
    write_audio memo l =
        if l.is_connected
        then (do
          (bytes, ret, manager) ← handle_rtp_send memo.bytes memo.data1 op_buf_size l.manager
          let l1 = post rtp l.remotes.rtp bytes (record l { manager = manager })
          let used = record memo { bytes = manager.send_pack.payload }
          some (
              if sendto (record { socket = rtp; to = l.remotes.rtp; bytes = bytes })
              then give_back used l1
              else give_back used (record l1 { go = false; is_connected = false })))
        else some (give_back memo l)

    -- A memo of another code is dropped.
    unfoldable pub write_memo : Bool → (Address → Bool) → Memo → Link F → Option (Link F)
    write_memo verbose known memo l =
        if memo.code == vivoce_sip_send
        then write_sip verbose known memo l
        else if memo.code == vivoce_msg_send
        then write_audio memo l
        else if memo.code == vivoce_msg_report
        then some (give_back memo l)
        else if memo.code == vivoce_respond
        then some (give_back memo l)
        else some l

  -- The sender report, after which both pools are trimmed.
  unfoldable pub write_sr : Timeval → Link F → Link F
  write_sr now l =
      let (bytes, manager) = handle_rtcp_send_sr now l.manager in
      let l1 = record l { send_sr = false; manager = manager } in
      elim bytes [
        | none ↦ l1
        | some b ↦
            let l2 = post rtcp l.remotes.rtcp b l1 in
            record l2 { rmg = (downsize l.rmg).1; sip_rmg = (downsize l.sip_rmg).1 }
      ]

  module _ (fl : Floating F) where
    unfoldable pub write_rr : Timeval → Link F → Link F
    write_rr now l =
        let (bytes, manager) = handle_rtcp_send_rr fl now l.manager in
        post rtcp l.remotes.rtcp bytes (record l { send_rr = false; manager = manager })

    -- What a connected writer does after the memo.
    unfoldable pub write_reports : Timeval → Link F → Link F
    write_reports now l =
        let sr = l.send_sr || is_time_for_sr now.sec l.manager in
        let l1 = record l { send_sr = sr } in
        let l2 = if sr then write_sr now l1 else l1 in if l2.send_rr then write_rr now l2 else l2

    -- A round of the writer, with what `waitForData` returned.
    unfoldable pub write_round :
        (Datagram → Bool)
        → ℕ
        → Bool
        → (Address → Bool)
        → Timeval
        → Option Memo
        → Link F
        → Option (Link F)
    write_round sendto op_buf_size verbose known now front l = do
      l1 ← elim front [
        | none ↦ some l
        | some memo ↦ write_memo sendto op_buf_size verbose known memo l
      ]
      some (if l1.is_connected then write_reports now l1 else l1)

    -- A packet on the RTP socket, of at least one byte. Without a call it is dropped.
    unfoldable pub read_rtp : (ℕ → List ℕ) → Timeval → List ℕ → Link F → Option (Link F)
    read_rtp malloc now packet l =
        if l.is_connected
        then (let (memo, pool) = alloc_memo malloc l.rmg in
            do
              (payload, manager) ←
                  handle_rtp_recv fl now packet (length packet) memo.bytes memo.size l.manager
              let full : Memo = record memo {
                code = vivoce_msg_dec;
                data1 = length packet - 12;
                bytes = payload;
              }
              some (record l {
                rmg = pool;
                manager = manager;
                codec_q = signal_data full l.codec_q;
              }))
        else some l

  -- What `recvfrom` wrote on the SIP socket; nothing if its result is not above 0. A longer packet
  -- than the memo is cut by `recvfrom`.
  unfoldable pub read_sip : (ℕ → List ℕ) → List ℕ → Link F → Link F
  read_sip malloc packet l =
      let (memo, pool) = alloc_memo malloc l.sip_rmg in
      let taken = record memo { code = vivoce_sip_rcvd } in
      elim packet [
        | [] ↦ give_back_sip taken (record l { sip_rmg = pool })
        | b ∷ bs ↦
            let read = take memo.size (b ∷ bs) in
            let full : Memo = record taken {
              data1 = length read;
              bytes = read ++ drop (length read) memo.bytes;
            } in
            record l { sip_rmg = pool; signal_q = signal_data full l.signal_q }
      ]

  -- A packet on the RTCP socket, of at least one byte: a sender report is answered.
  unfoldable pub read_rtcp : Timeval → List ℕ → Link F → Option (Link F)
  read_rtcp now packet l =
      if l.is_connected
      then (do
        (answer, manager) ← handle_rtcp_recv now packet l.manager
        let l1 = record l { manager = manager }
        some (elim answer [
          | answered ↦ record l1 { send_rr = true; send_q = signal l1.send_q }
          | noted ↦ l1
          | malformed ↦ l1
        ]))
      else some l
