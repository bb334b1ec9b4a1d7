-- ===== src/Lib.antt =====
-- ipsc2hbp joins a Motorola IPSC repeater network and a HomeBrew (HBP) DMR master: it speaks
-- IPSC on one side, as a master or as a peer, logs in to an HBP master on the other, and
-- translates the group voice calls of the two timeslots in both directions. This library models
-- the program's own logic, proves what makes it correct, and applies the theorems to concrete
-- packets (Tests.antt and the modules below it).
--
-- Parts, and the files that model them:
--
--   Base.antt: tests, lists, dictionaries. Dmr.antt: byte and bit strings, and the parameter
--     for dmr_utils3.
--   System.antt: ipsc2hbp.py, `main`: the state of all parts together. System/Wiring carries
--     out the calls that one part makes of another, System/Loop is what main and the event loop
--     call, and main up to the open endpoint.
--   Tools.antt: the decoders of wire logs, tools/decode_ipsc.py (DecodeIpsc) and
--     tools/decode_hbp.py (DecodeHbp), from the entries that their regular expression finds to
--     the lines that they print, as values.
--   Config.antt: the settings that config.py returns. Its loader `load`: texts (Text), what
--     tomllib gives and the lines of errors (Toml), the readers of one setting `get_str`,
--     `get_int`, `get_bool`, `first_str`, `first_int` (Check), the sections in the order of the
--     source (Settings), and the whole (Load). Ranges, Valid, Key and Fits prove what the parts
--     of it do.
--   Ipsc.antt: ipsc/const.py (Const) and ipsc/protocol.py: packets (Wire), authentication
--     (Auth), the master `IPSCProtocol` (Master), the peer `IPSCPeerProtocol` (PeerTable: the
--     list of peers; PeerState: its state and who sent a packet; Peer: its methods). Follow
--     holds the order of the calls that both make of the translator, and Link joins a master
--     and a peer.
--   Hbp.antt: hbp/const.py (Const) and hbp/protocol.py: `_HBPProtocol` (Protocol) and
--     `HBPClient` (Client).
--   Translate.antt: translate/translator.py, `CallTranslator`: its state (State), the
--     call-direction lock (Lock), DMR bursts (Frame), packets (Packet), reflected calls
--     (Reflect), the paced queue (Pacer), IPSC to HBP (Outbound), HBP to IPSC (Inbound), the
--     callbacks on the whole state (Callbacks), and the invariant of all of it (Valid).
--
-- The stacks call the translator (`peer_registered`, `peer_lost`, `ipsc_voice_received`,
-- `hbp_voice_received`, `hbp_disconnected`, `check_call_timeouts`), and it calls them
-- (`send_to_peer`, `send_dmrd`, `activate`, `deactivate`). Each side is modelled on its own,
-- and System joins them: a method takes the state and returns the new one with the list of what
-- it did, in order. A method of the source is the definition with its name, without a leading
-- underscore; where a long method is cut into its branches, the definitions stand in the order
-- of the code.
--
-- The dictionaries over the timeslots 1 and 2 are the fields of one record for each timeslot
-- (`Slot`), and a callback works on a `Line`: the slot, what the slots share, and the actions
-- so far. Texts such as addresses are their bytes. The loader collects its error lines beside
-- its values; integers of a file may be negative there (Base/Int), and are natural numbers in
-- the settings. The coming up of the HBP endpoint is one step, with its `connection_made` and
-- the assignment behind it. An address with a NUL character counts as one that does not parse.
-- What main and the event loop call is a sequence of events: the start of the HBP client, a
-- signal and what follows the loop in `finally` are events too, since the loop also handles
-- datagrams before that start and after the signal; the order of them is a condition of a
-- theorem. A signal is handled between two callbacks. An exception of `activate` ends the
-- handler that called it. Times are natural numbers of microseconds, and a callback runs at one
-- instant, given to it; only the drain of the paced queue has two, since the source reads the
-- clock again behind the send. Times do not go below 0, where subtraction stops. Ids and ports
-- are in the ranges that the configuration checks, so that writing them as four or two bytes
-- does not fail. Random numbers are drawn before the callback that uses them. Every loop is a
-- structural recursion, and none needs fuel: the entries of a peer list are counted by the
-- length of the payload.
--
-- Parameters are what is not in this repository or is not to be computed here: dmr_utils3 (the
-- record `Codec`, with its documented laws in `IsCodec`), HMAC-SHA1 and SHA-256, `inet_aton`,
-- what tomllib reads (`File`), and whether the IPSC socket could be bound. bitarray is modelled
-- by lists of bits.
--
-- Not modelled: logging and its setup, and the command line (ipsc2hbp.py); the text of the
-- error messages; lone surrogates in texts, which TOML does not have; `get_peer_list` of the
-- peer, which only reports; the event loop itself, of which the events name what it may call,
-- and its close; the layout of the decoders' output and their summaries; tests/.
pub mod Base
pub mod Dmr
pub mod Config
pub mod Ipsc
pub mod Hbp
pub mod Translate
pub mod System
pub mod Tools
pub mod Tests
