-- ===== src/Ipsc/Follow.antt =====
-- ipsc/protocol.py: the calls that a stack makes of the translator, in their order.
use ipsc2hbp.Base.{◌≡◌, Bool, true, false, Option, none, some, List, [], ◌∷◌, ◌++◌, arith}
use ipsc2hbp.Ipsc.Auth.{
  Effect, sendto, peer_registered, peer_lost, ipsc_voice_received, check_call_timeouts,
}

-- The translator's view of the session: the calls `peer_registered` and `peer_lost` take turns.
unfoldable pub follow : Bool → List Effect → Option Bool
follow up [] = some up
follow up (sendto b host port ∷ es) = follow up es
follow true (peer_registered b host port ∷ es) = none
follow false (peer_registered b host port ∷ es) = follow true es
follow true (peer_lost ∷ es) = follow false es
follow false (peer_lost ∷ es) = none
follow true (ipsc_voice_received b ∷ es) = follow true es
follow false (ipsc_voice_received b ∷ es) = none
follow up (check_call_timeouts ∷ es) = follow up es

pub follow-append :
    (up up' : Bool) (xs ys : List Effect)
    → follow up xs ≡ some up'
    → follow up (xs ++ ys) ≡ follow up' ys
unfolding follow
follow-append up up' [] ys h = ground arith
follow-append up up' (sendto b host port ∷ es) ys h = follow-append up up' es ys h
follow-append true up' (peer_registered b host port ∷ es) ys h = cc
follow-append false up' (peer_registered b host port ∷ es) ys h = follow-append true up' es ys h
follow-append true up' (peer_lost ∷ es) ys h = follow-append false up' es ys h
follow-append false up' (peer_lost ∷ es) ys h = cc
follow-append true up' (ipsc_voice_received b ∷ es) ys h = follow-append true up' es ys h
follow-append false up' (ipsc_voice_received b ∷ es) ys h = cc
follow-append up up' (check_call_timeouts ∷ es) ys h = follow-append up up' es ys h
