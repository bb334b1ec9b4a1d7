-- ===== src/Translate/State.antt =====
-- translate/translator.py: the state of `CallTranslator`. Its dictionaries over the timeslots 1 and
-- 2 are the fields of one record for each timeslot; what the timeslots share is `Shared`.
-- A time is in microseconds, so `hang_ms / 1000.0` seconds is `hang_ms * 1000`.
use ipsc2hbp.Base.{
  ℕ, Bool, true, false, Option, none, some, List, [], ◌∷◌, ◌++◌, Dict, ◌≡◌, refl, ap,
}
use ipsc2hbp.Dmr.{Bytes, Bits}
use ipsc2hbp.Dmr.Codec.{Codec}
use ipsc2hbp.Config.{Config, PacketFlow}

pub data Timeslot : Type 0 where
  ts1 ts2 : Timeslot

-- The owner of a call lock: 'IPSC' or 'HBP'.
pub data Direction : Type 0 where
  from_ipsc from_hbp : Direction

-- IPSC -> HBP (`_out_*`).
pub record OutCall : Type 0 where
  pub stream_id : Option Bytes
  pub frame_pos : ℕ
  pub lc : Option Bytes
  pub emb_lc : Option (Dict ℕ Bits)
  pub ipsc_stream_byte : Option ℕ
  pub last_pkt : ℕ

-- HBP -> IPSC (`_in_*`).
pub record InCall : Type 0 where
  pub lc : Option Bytes
  pub emb_lc : Option (Dict ℕ Bits)
  pub stream_id : ℕ
  pub hbp_stream : Option Bytes
  pub src_sub : Option Bytes
  pub dst_group : Option Bytes
  pub last_head : ℕ
  pub rtp_seq : ℕ
  pub rtp_ts : ℕ
  pub started : Bool
  pub last_pkt : ℕ

-- `_call_lock_*`
pub record CallLock : Type 0 where
  pub owner : Option Direction
  pub src : Option Bytes
  pub tg : Option Bytes
  pub until : ℕ
  pub blocked_ipsc : Dict ℕ ℕ
  pub blocked_hbp : Dict Bytes ℕ

-- An entry of `_ipsc_tx_queue`: packet, source, destination and burst type.
pub record Queued : Type 0 where
  pub packet : Bytes
  pub src_sub : Bytes
  pub dst_group : Bytes
  pub burst_type : ℕ

-- `_ipsc_tx_*`; a pending timer is held as the time at which it is due.
pub record Pacer : Type 0 where
  pub tx_queue : List Queued
  pub tx_handle : Option ℕ
  pub tx_next_at : ℕ

-- An entry of `_reflect_recent`.
pub record Seen : Type 0 where
  pub src : Bytes
  pub dst : Bytes
  pub expires : ℕ

-- `_reflect_*`
pub record Reflect : Type 0 where
  pub recent : List Seen
  pub ignore : Dict ℕ ℕ

pub record Slot : Type 0 where
  pub out : OutCall
  pub inc : InCall
  pub lock : CallLock
  pub pacer : Pacer
  pub reflect : Reflect
  pub busy_last : ℕ

pub record Shared : Type 0 where
  pub out_seq : ℕ
  pub in_stream_ctr : ℕ
  pub peer_call_type : Bytes
  pub peer_call_ctrl : Bytes

-- What the translator asks of the two protocol stacks.
pub data Action : Type 0 where
  send_dmrd : Bytes → Action
  send_to_peer : Bytes → Action
  activate : Action
  deactivate : Action

-- The requests among them that turn the HBP side on or off.
abbrev pub switches : List Action → List Action
switches [] = []
switches (send_dmrd b ∷ acts) = switches acts
switches (send_to_peer b ∷ acts) = switches acts
switches (activate ∷ acts) = activate ∷ switches acts
switches (deactivate ∷ acts) = deactivate ∷ switches acts

pub switches_peer :
    (acts : List Action) (b : Bytes) → switches (acts ++ send_to_peer b ∷ []) ≡ switches acts
switches_peer [] b = refl
switches_peer (send_dmrd c ∷ acts) b = switches_peer acts b
switches_peer (send_to_peer c ∷ acts) b = switches_peer acts b
switches_peer (activate ∷ acts) b = ap (◌∷◌ activate) (switches_peer acts b)
switches_peer (deactivate ∷ acts) b = ap (◌∷◌ deactivate) (switches_peer acts b)

pub switches_dmrd :
    (acts : List Action) (b : Bytes) → switches (acts ++ send_dmrd b ∷ []) ≡ switches acts
switches_dmrd [] b = refl
switches_dmrd (send_dmrd c ∷ acts) b = switches_dmrd acts b
switches_dmrd (send_to_peer c ∷ acts) b = switches_dmrd acts b
switches_dmrd (activate ∷ acts) b = ap (◌∷◌ activate) (switches_dmrd acts b)
switches_dmrd (deactivate ∷ acts) b = ap (◌∷◌ deactivate) (switches_dmrd acts b)

-- A callback at work on one timeslot: `sent` is what it has asked for so far.
pub record Line : Type 0 where
  pub shared : Shared
  pub slot : Slot
  pub sent : List Action

-- A callback runs at one instant `now`, and draws its random numbers beforehand:
-- `os.urandom(4)`, `randint(0, 0x7FFF)` and `randint(0, 0xFFFFFFFF)`.
pub record Env : Type 0 where
  pub codec : Codec
  pub cfg : Config
  pub now : ℕ
  pub urandom : Bytes
  pub rand_seq : ℕ
  pub rand_ts : ℕ

pub record Translator : Type 0 where
  pub shared : Shared
  pub slot1 : Slot
  pub slot2 : Slot

abbrev pub emit : Action → Line → Line
emit a l = record l { sent = l.sent ++ a ∷ [] }

abbrev pub set_slot : Slot → Line → Line
set_slot s l = record l { slot = s }

abbrev pub map_slot : (Slot → Slot) → Line → Line
map_slot f l = record l { slot = f l.slot }

-- `_legacy_flow`
abbrev pub legacy_flow : Config → Bool
legacy_flow cfg = elim cfg.compat_packet_flow [
  | PacketFlow.legacy_ambe ↦ true
  | PacketFlow.packet_translator ↦ false
]

-- `lc if lc else other`: neither `None` nor an empty string counts.
abbrev pub or_else : Option Bytes → Bytes → Bytes
or_else none d = d
or_else (some []) d = d
or_else (some (x ∷ xs)) d = x ∷ xs

abbrev pub default_call_type : Bytes
default_call_type = 0x02 ∷ []

abbrev pub default_call_ctrl : Bytes
default_call_ctrl = 0x00 ∷ 0x00 ∷ 0x43 ∷ 0xe2 ∷ []

abbrev pub idle_out : OutCall
idle_out = record {
  stream_id = none;
  frame_pos = 0;
  lc = none;
  emb_lc = none;
  ipsc_stream_byte = none;
  last_pkt = 0;
}

abbrev pub idle_in : InCall
idle_in = record {
  lc = none;
  emb_lc = none;
  stream_id = 0;
  hbp_stream = none;
  src_sub = none;
  dst_group = none;
  last_head = 0;
  rtp_seq = 0;
  rtp_ts = 0;
  started = false;
  last_pkt = 0;
}

abbrev pub idle_lock : CallLock
idle_lock = record {
  owner = none;
  src = none;
  tg = none;
  until = 0;
  blocked_ipsc = [];
  blocked_hbp = [];
}

abbrev pub idle_pacer : Pacer
idle_pacer = record { tx_queue = []; tx_handle = none; tx_next_at = 0 }

abbrev pub init_slot : Slot
init_slot = record {
  out = idle_out;
  inc = idle_in;
  lock = idle_lock;
  pacer = idle_pacer;
  reflect = record { recent = []; ignore = [] };
  busy_last = 0;
}

-- `__init__`
abbrev pub init : Translator
init = record {
  shared = record {
    out_seq = 0;
    in_stream_ctr = 0;
    peer_call_type = default_call_type;
    peer_call_ctrl = default_call_ctrl;
  };
  slot1 = init_slot;
  slot2 = init_slot;
}
