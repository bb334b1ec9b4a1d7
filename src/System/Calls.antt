-- ===== src/System/Calls.antt =====
-- ipsc2hbp.py: what the calls between the parts do to the HBP client (`activate`, `deactivate`).
use ipsc2hbp.Base.{
  ℕ, ◌≡◌, refl, sym, ◌∙◌, Bool, true, false, not, ◌&&◌, ◌||◌, Option, none, some, List, [], ◌∷◌,
  arith, subst,
}
use ipsc2hbp.Dmr.{Bytes}
use ipsc2hbp.Config.{Config}
use ipsc2hbp.Ipsc.Wire.{parse_group_voice_meta}
use ipsc2hbp.Ipsc.Auth
use ipsc2hbp.Ipsc.Follow.{follow}
use ipsc2hbp.Hbp.Protocol
use ipsc2hbp.Hbp.Protocol.{Protocol}
use ipsc2hbp.Hbp.Client
use ipsc2hbp.Hbp.Client.{Client, LoopState, is_ended, init_client}
use ipsc2hbp.Translate.State.{
  Action, send_dmrd, send_to_peer, activate, deactivate, Timeslot, Translator, switches,
}
use ipsc2hbp.Translate.Callbacks
use ipsc2hbp.Translate.Callbacks.{is_tracking}
use ipsc2hbp.Translate.Valid.Switches.{ipsc_received-switches, hbp_voice_received-switches}
use ipsc2hbp.System.{World, Moment, env, System, is_registered}
use ipsc2hbp.System.Wiring.{
  act, perform, callback, ipsc_voice, effect_raises, from_stack, from_stack_all, from_connection,
  from_connection_all,
}

-- The client is active while a peer is registered, or always in persistent mode, and has its
-- connect loop then.
pub record Tracks (cfg : Config) (up : Bool) (c : Client) : Type 0 where
  pub follows : c.active ≡ (not (is_tracking cfg) || up)
  pub loops : (c.active && is_ended c.loop) ≡ false
  pub has_loop : c.has_loop ≡ true

-- What stays as it is when only the translator works.
pub record SameParts (s t : System) : Type 0 where
  pub stack : t.stack ≡ s.stack
  pub client : t.client ≡ s.client

module _ (w : World) where
  perform-SameParts :
      (acts : List Action) (s : System) → switches acts ≡ [] → SameParts s (perform w acts s).0
  unfolding perform act
  perform-SameParts [] s h = ground arith
  perform-SameParts (send_dmrd b ∷ acts) s h = perform-SameParts acts s h
  perform-SameParts (send_to_peer b ∷ acts) s h = perform-SameParts acts s h
  perform-SameParts (activate ∷ acts) s h = cc
  perform-SameParts (deactivate ∷ acts) s h = cc

  pub callback-SameParts :
      (r : Translator × List Action) (s : System)
      → switches r.1 ≡ []
      → SameParts s (callback w r s).0
  callback-SameParts r s h =
      let p = perform-SameParts r.1 (record s { translator = r.0 }) h in
      record { stack = p.stack; client = p.client }

  pub ipsc_voice-SameParts :
      (at : Moment) (d : Bytes) (m : Option (Timeslot × ℕ)) (s : System)
      → SameParts s (ipsc_voice w at d m s).0
  ipsc_voice-SameParts at d none s = ground arith
  ipsc_voice-SameParts at d (some (ts, b)) s =
      let r =
        Callbacks.ipsc_received (env w at) (Client.client_is_connected s.client) d ts b
          s.translator in
      callback-SameParts (r.0, r.1) s
        (ipsc_received-switches (env w at) (Client.client_is_connected s.client) d ts b
          s.translator)

  from_connection-SameParts :
      (at : Moment) (e : Protocol.Effect) (s : System) → SameParts s (from_connection w at e s).0
  unfolding from_connection
  from_connection-SameParts at (Protocol.sendto b) s = ground arith
  from_connection-SameParts at Protocol.close_transport s = ground arith
  from_connection-SameParts at Protocol.hbp_connected s = ground arith
  from_connection-SameParts at Protocol.hbp_disconnected s =
      callback-SameParts (Callbacks.hbp_disconnected s.translator, []) s refl
  from_connection-SameParts at (Protocol.voice_received d) s =
      callback-SameParts
        (Callbacks.hbp_voice_received (env w at) (is_registered s.stack) d s.translator) s
        (hbp_voice_received-switches (env w at) (is_registered s.stack) d s.translator)

  pub from_connection_all-SameParts :
      (at : Moment) (es : List Protocol.Effect) (s : System)
      → SameParts s (from_connection_all w at es s).0
  unfolding from_connection_all
  from_connection_all-SameParts at [] s = ground arith
  from_connection_all-SameParts at (e ∷ es) s =
      let one = from_connection-SameParts at e s in
      let rest = from_connection_all-SameParts at es (from_connection w at e s).0 in
      record { stack = rest.stack ∙ one.stack; client = rest.client ∙ one.client }

  -- The calls of the translator, in turn, switch the client.
  pub record Switched (up : Bool) (s t : System) : Type 0 where
    pub stack : t.stack ≡ s.stack
    pub tracks : Tracks w.cfg up t.client

  same-Switched :
      (up : Bool) (s t : System) → SameParts s t → Tracks w.cfg up s.client → Switched up s t
  same-Switched up s t p h = record {
    stack = p.stack;
    tracks = subst (Tracks w.cfg up) (sym p.client) h;
  }

  registered-Switched :
      (s : System)
      → Tracks w.cfg false s.client
      → Switched true s (callback w (Callbacks.peer_registered w.cfg s.translator) s).0
  unfolding Callbacks.peer_registered perform act Client.activate
  registered-Switched s h = ground arith

  lost-Switched :
      (s : System)
      → Tracks w.cfg true s.client
      → Switched false s (callback w (Callbacks.peer_lost w.cfg s.translator) s).0
  unfolding Callbacks.peer_lost perform act Client.deactivate
  lost-Switched s h = ground arith

  registered_quietly :
      (s : System)
      → Tracks w.cfg false s.client
      → (is_tracking w.cfg && Client.activate_raises s.client) ≡ false
  registered_quietly s h = ground arith

  -- One effect that does not raise, then the rest of them.
  then_rest :
      {up' : Bool} (at : Moment) (e : Auth.Effect) (es : List Auth.Effect) (s : System) (up : Bool)
      → effect_raises w e s ≡ false
      → Switched up s (from_stack w at e s).0
      → (Tracks w.cfg up (from_stack w at e s).0.client
          → Switched up' (from_stack w at e s).0 (from_stack_all w at es (from_stack w at e s).0).0)
      → Switched up' s (from_stack_all w at (e ∷ es) s).0
  unfolding from_stack_all
  then_rest at e es s up quiet one rest =
      let r = rest one.tracks in rw quiet record { stack = r.stack ∙ one.stack; tracks = r.tracks }

  pub from_stack_all-Switched :
      (at : Moment) (up up' : Bool) (es : List Auth.Effect) (s : System)
      → follow up es ≡ some up'
      → Tracks w.cfg up s.client
      → Switched up' s (from_stack_all w at es s).0
  unfolding follow from_stack
  from_stack_all-Switched at up up' [] s f h =
      unfold from_stack_all in
      same-Switched up' s s (ground arith) (subst (λ u. Tracks w.cfg u s.client) (ground arith) h)
  from_stack_all-Switched at up up' (Auth.sendto b host port ∷ es) s f h =
      then_rest at (Auth.sendto b host port) es s up refl (same-Switched up s s (ground arith) h)
        (from_stack_all-Switched at up up' es s f)
  from_stack_all-Switched at true up' (Auth.peer_registered id host port ∷ es) s f h = cc
  from_stack_all-Switched at false up' (Auth.peer_registered id host port ∷ es) s f h =
      then_rest at (Auth.peer_registered id host port) es s true (registered_quietly s h)
        (registered-Switched s h) (from_stack_all-Switched at true up' es _ f)
  from_stack_all-Switched at false up' (Auth.peer_lost ∷ es) s f h = cc
  from_stack_all-Switched at true up' (Auth.peer_lost ∷ es) s f h =
      then_rest at Auth.peer_lost es s false refl (lost-Switched s h)
        (from_stack_all-Switched at false up' es _ f)
  from_stack_all-Switched at false up' (Auth.ipsc_voice_received d ∷ es) s f h = cc
  from_stack_all-Switched at true up' (Auth.ipsc_voice_received d ∷ es) s f h =
      let m = parse_group_voice_meta d in
      then_rest at (Auth.ipsc_voice_received d) es s true refl
        (same-Switched true s (ipsc_voice w at d m s).0 (ipsc_voice-SameParts at d m s) h)
        (from_stack_all-Switched at true up' es (ipsc_voice w at d m s).0 f)
  from_stack_all-Switched at up up' (Auth.check_call_timeouts ∷ es) s f h =
      let r : Translator × List Action =
        (Callbacks.check_call_timeouts w.cfg at.now 10000000 s.translator, []) in
      then_rest at Auth.check_call_timeouts es s up refl
        (same-Switched up s (callback w r s).0 (callback-SameParts r s refl) h)
        (from_stack_all-Switched at up up' es (callback w r s).0 f)
