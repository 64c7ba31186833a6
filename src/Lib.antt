-- ===== src/Lib.antt =====
-- The SIP phone Viva Voce: its queues and pools, its call state machine, its packets, its codec, its
-- audio threads and its command line.
--
-- The program runs one thread for each of the audio device (src/AudioRW.cpp), the codec
-- (src/AdpcmCodec.cpp), the sockets (src/UdpRW.cpp), the user agent (src/UserAgent.cpp) and the
-- command line (src/VivaVoce.cpp). They pass memos on by synchronised queues (src/SyncQueue.cpp),
-- take them from two pools (src/ResourceManager.cpp) and share the object of src/Common.cpp.
--
-- - Prelude: the shared names, lists and tests on native numbers, and the integers of the codec.
-- - Queue, of src/SyncQueue.cpp, the branch for POSIX threads: `en_q` is enQ, `de_q` deQ,
--   `signal_data` signalData. Each function is one critical section; waitForData is `wait_start`
--   and, if that blocks, `wake_timed` or `wake_forever`. Queue.Monitor has the interleavings of any
--   number of threads: a list of actions, each a critical section of some thread.
-- - Pool, of src/ResourceManager.cpp and emptyQueue of src/Common.cpp: `alloc_memo` is allocMemo,
--   `release_memo` releaseMemo, `downsize` and `clear` have those names. A memo has one owner at a
--   time, so it is a value. Pool.Market has the uses of a pool by its holders.
-- - Adpcm, of src/kodek.h and src/kodek.c: `quantize` has that name, `advance` is what adpcm_encode
--   and adpcm_decode do to `previous` and `index`; Adpcm.Codec has their loops, `encode` and
--   `decode`. The floats of the code are whole multiples of 0.25 below 2 ^ 18, so a number of
--   quarters stands for each. Adpcm.Worker, of src/AdpcmCodec.cpp: `encode_memo` is
--   AdpcmCodec::encode, `decode_memo` AdpcmCodec::decode, and `serve_memo` what run does with a memo.
-- - Text, the string functions of the C library that the code calls: `strtok_r` on pointers, and in
--   Text.Decimal `atoi`, `atol` and the numbers of `sprintf`. Text.Cuts says what `strtok_r` finds in
--   a text that is built from words.
-- - Sip, of src/SIP.h and src/SIP.cpp: the packet and its methods. Sip.Reader is SIPHandler::read:
--   Sip.Reader.Parties and Sip.Reader.Fields have its cases, one for each field, and
--   Sip.Reader.Lines its first line and its loop. Sip.Writer is SIPHandler::write; `message` is the
--   text that it prints. Sip.RoundTrip reads each line that is printed, then all of them.
-- - Sdp, of src/SDP.h and src/SDP.cpp: the packet with its connection, time and media descriptions.
--   Sdp.Fields is what a field's text sets, Sdp.Reader is SDPHandler::read, with the checks of the
--   order (`check_key`) apart from what the fields set (`set_field`), and Sdp.Writer is
--   SDPHandler::write. Sdp.Order describes the order by the last field alone. Sdp.Session is the
--   packet that UserAgent::init of src/UserAgent.cpp describes; its children follow the text of it
--   to the agent that reads it.
-- - Udp, the peer's addresses as initRemoteAddr and initTempRemoteAddr of
--   src/UdpRW.cpp keep them. Udp.Link has one round of UdpReader::run and of UdpWriter::run:
--   `read_sip`, `read_rtp` and `read_rtcp`, one for each socket, and `write_round`, with `write_memo`
--   for the memo and `write_reports` for the RTCP reports. The sockets are a list of datagrams.
--   Udp.Sockets is initTransport and closeTransport, with what the socket library returns as a list.
-- - Rtp, of src/RTP.h and src/RTP.cpp: `write_bytes` and `parse_bytes` are writeBytes and parseBytes
--   for RTP packets, and `write_rtcp` and `parse_rtcp` (Rtp.Rtcp) those for RTCP packets. The layout
--   is that of a 32-bit little-endian machine, which the comments of src/RTP.h describe.
--   Rtp.Manager, of src/RTPManager.cpp: `handle_rtp_send` is handleRTPSend and so on; `count_sent`
--   and `count_received` are its sequence numbers and counters, and Rtp.Manager.Reports has its RTCP
--   reports.
-- - Agent, of src/UserAgent.h and src/UserAgent.cpp: Agent.Send has sendInvite to sendRinging,
--   Agent.Receive has checkPacket, cleanup and the cases of `run` for a packet in each state,
--   Agent.Run has init, doDefaultAction, the commands, and `round`, one round of the loop: what
--   waitForData returned, a memo or nothing, is an argument. `Agent` holds the fields of UserAgent
--   and the part of Common that the agent uses. To follow a null or freed pointer is a fault, and the
--   functions that can do so return an option. Agent.Invariant states what holds between rounds,
--   Agent.Graph which state can follow which, and Agent.Timeouts, Agent.Messages and Agent.Custody
--   are about calls that nobody answers and about where the memos go.
-- - Common, of src/Common.h and src/Common.cpp: `new_common` is the constructor and `reset` reset;
--   `empty_stores` is what the destructor does to the queues.
-- - Audio, of src/AudioRW.cpp: `record_round` and `play_round` are one round of AudioReader::run and
--   of AudioWriter::run, with their loops `read_loop` and `write_loop`. Audio.Echo is the audio test of
--   src/AudioTest.cpp, and Audio.Path follows a capture from one device to the other.
-- - Console, of src/VivaVoce.cpp: `command_of` tells which command a text is, `execute` obeys it, and
--   `set_up` and `shut_down` are what VivaVoce::run does before and after its loop. Console.Calls
--   follows a typed call to the agent.
-- - Threads, of src/Thread.h and src/Thread.cpp: `signal_event` is MyEvent::Signal, `wait_ends` the end of
--   Wait with a time-out, and `wait_tests` the loop of Wait without; Threads.Events has the
--   interleavings of any number of threads.
--
-- The agent calls the parsers and writers of src/SIP.cpp and src/SDP.cpp and the methods init, close
-- and reset of the RTP manager as operations of an Environment, as it does malloc and the resolver;
-- what it relies on in a packet that comes in is a hypothesis about that packet, `Fed`. Agent.Peers puts
-- SIPHandler::read, SIPHandler::write and SDPHandler::read in: what they give of a peer's packet has
-- what the agent relies on.
--
-- Bounds: an index of the codec lies in 0 .. 88, and a prediction is a `short`. An `unsigned short`
-- of the RTP manager wraps at 2 ^ 16 and an `unsigned long` at 2 ^ 32. The loops of `clear` and
-- `emptyQueue` have the length of the queue plus one as fuel: each round but the last takes one
-- element. The loop of `quantize` has its seven rounds. The loops over the lines of a packet have the
-- length of the text that is left plus one, since a token takes at least one byte.
--
-- The loops of the audio threads go by the results of `read` and `write`, one for each round; with no
-- result left, the call is kept waiting by the device.
--
-- Not modelled: the branches for Windows, the keys and priorities of threads (src/Thread.cpp), signals,
-- the setting up of the audio devices (src/AudioRW.cpp, src/OSXCoreAudioIO.cpp),
-- `select`, the toString methods of src/SDP.cpp, the copied library src/ulaw.c, output to the terminal
-- and to files, memory that is never freed, and how long the texts in a packet live, which are values
-- here.
mod Prelude
pub mod Queue
pub mod Pool
pub mod Common
pub mod Adpcm
pub mod Text
pub mod Sip
pub mod Sdp
pub mod Udp
pub mod Rtp
pub mod Agent
pub mod Audio
pub mod Console
pub mod Threads
