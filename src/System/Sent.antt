-- ===== src/System/Sent.antt =====
-- ipsc2hbp.py: the datagrams to either side among what leaves the process.
use ipsc2hbp.Base.{◌≡◌, refl, List, [], ◌∷◌, ◌++◌}
use ipsc2hbp.Dmr.{Bytes}
use ipsc2hbp.Ipsc.Auth
use ipsc2hbp.Hbp.Protocol
use ipsc2hbp.Hbp.Protocol.{Protocol}
use ipsc2hbp.System.{Output, to_ipsc, to_hbp, hbp_closed, ipsc_datagrams, hbp_datagrams}

-- The datagrams to the HBP master, and those to the IPSC side.
abbrev pub hbp_sent : List Output → List Bytes
hbp_sent [] = []
hbp_sent (to_ipsc b host port ∷ out) = hbp_sent out
hbp_sent (to_hbp b ∷ out) = b ∷ hbp_sent out
hbp_sent (hbp_closed ∷ out) = hbp_sent out

abbrev pub ipsc_sent : List Output → List Bytes
ipsc_sent [] = []
ipsc_sent (to_ipsc b host port ∷ out) = b ∷ ipsc_sent out
ipsc_sent (to_hbp b ∷ out) = ipsc_sent out
ipsc_sent (hbp_closed ∷ out) = ipsc_sent out

pub hbp_sent-append : (a b : List Output) → hbp_sent a ≡ [] → hbp_sent (a ++ b) ≡ hbp_sent b
hbp_sent-append [] b h = refl
hbp_sent-append (to_ipsc d host port ∷ a) b h = hbp_sent-append a b h
hbp_sent-append (to_hbp d ∷ a) b h = cc
hbp_sent-append (hbp_closed ∷ a) b h = hbp_sent-append a b h

pub ipsc_sent-append : (a b : List Output) → ipsc_sent a ≡ [] → ipsc_sent (a ++ b) ≡ ipsc_sent b
ipsc_sent-append [] b h = refl
ipsc_sent-append (to_ipsc d host port ∷ a) b h = cc
ipsc_sent-append (to_hbp d ∷ a) b h = ipsc_sent-append a b h
ipsc_sent-append (hbp_closed ∷ a) b h = ipsc_sent-append a b h

pub hbp_sent-ipsc_datagrams : (es : List Auth.Effect) → hbp_sent (ipsc_datagrams es) ≡ []
hbp_sent-ipsc_datagrams [] = refl
hbp_sent-ipsc_datagrams (Auth.sendto b host port ∷ es) = hbp_sent-ipsc_datagrams es
hbp_sent-ipsc_datagrams (Auth.peer_registered id host port ∷ es) = hbp_sent-ipsc_datagrams es
hbp_sent-ipsc_datagrams (Auth.peer_lost ∷ es) = hbp_sent-ipsc_datagrams es
hbp_sent-ipsc_datagrams (Auth.ipsc_voice_received d ∷ es) = hbp_sent-ipsc_datagrams es
hbp_sent-ipsc_datagrams (Auth.check_call_timeouts ∷ es) = hbp_sent-ipsc_datagrams es

pub ipsc_sent-hbp_datagrams : (es : List Protocol.Effect) → ipsc_sent (hbp_datagrams es) ≡ []
ipsc_sent-hbp_datagrams [] = refl
ipsc_sent-hbp_datagrams (Protocol.sendto b ∷ es) = ipsc_sent-hbp_datagrams es
ipsc_sent-hbp_datagrams (Protocol.close_transport ∷ es) = ipsc_sent-hbp_datagrams es
ipsc_sent-hbp_datagrams (Protocol.hbp_connected ∷ es) = ipsc_sent-hbp_datagrams es
ipsc_sent-hbp_datagrams (Protocol.hbp_disconnected ∷ es) = ipsc_sent-hbp_datagrams es
ipsc_sent-hbp_datagrams (Protocol.voice_received d ∷ es) = ipsc_sent-hbp_datagrams es
