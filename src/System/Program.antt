-- ===== src/System/Program.antt =====
-- ipsc2hbp.py: the program, from its configuration file through any events.
use ipsc2hbp.Base.{◌≡◌, refl, ap, ◌∙◌, sym, not, ◌||◌, ◌&&◌, false, ◌∷◌, subst, Bool, Option, List}
use ipsc2hbp.Dmr.{Bytes}
use ipsc2hbp.Dmr.Codec.{Codec}
use ipsc2hbp.Config.{Config}
use ipsc2hbp.Config.Load.{File, ok, load}
use ipsc2hbp.Config.Load.Valid.{ConfigIsValid}
use ipsc2hbp.Translate.Valid.Reach.{IsValid}
use ipsc2hbp.System.{World, System, Output, is_registered}
use ipsc2hbp.System.Loop.{run, on_event, client_started, boot, Event, up, main, world_of}
use ipsc2hbp.System.Sessions.{AreBeforeStop, run-InStep}
use ipsc2hbp.System.Opening.{started-InStep}
use ipsc2hbp.Hbp.Client.{init_client, is_ended}
use ipsc2hbp.Translate.Callbacks.{is_tracking}
use ipsc2hbp.System.Valid.{EventsAreValid, run-Sound, boot-Sound}
use ipsc2hbp.System.Ends.{main_up}

-- What holds while a program runs on its settings.
pub record Running (w : World) (s : System) : Type 0 where
  pub follows : s.client.active ≡ (not (is_tracking w.cfg) || is_registered s.stack)
  pub loops : (s.client.active && is_ended s.client.loop) ≡ false
  pub translating : IsValid w.cfg s.translator

-- The events before and behind `hbp_client.start`.
abbrev pub run_through : (w : World) → List Event → List Event → System → System
run_through w early es s = (run w (client_started ∷ es) (run w early s).0).0

-- No peer is registered, and none has activated the HBP client.
abbrev pub IsIdle : System → Type 0
IsIdle s = (is_registered s.stack ≡ false) × (s.client ≡ init_client)

booted_runs :
    (w : World) (early es : List Event)
    → EventsAreValid early
    → AreBeforeStop early
    → IsIdle (run w early (boot w).0).0
    → EventsAreValid es
    → AreBeforeStop es
    → Running w (run_through w early es (boot w).0)
unfolding run
booted_runs w early es valid before (down, new) oks befores =
    let s = (run w early (boot w).0).0 in
    let h =
      run-InStep w es (on_event w client_started s).0 befores
        (started-InStep w early s before refl down new) in
    record {
      follows = h.tracks.follows;
      loops = h.tracks.loops;
      translating =
          run-Sound w (client_started ∷ es) s (tt, oks)
            (run-Sound w early (boot w).0 valid (boot-Sound w));
    }

module _ (codec : Codec) (hmac : Bytes → Bytes → Bytes) (sha256 : Bytes → Bytes)
    (inet_aton : Bytes → Option Bytes) (binds : Bool) where
  -- The surroundings with the settings.
  abbrev pub world : Config → World
  world cfg = world_of codec hmac sha256 inet_aton cfg

  -- If the program comes up with a configuration file, which loads with some settings, those
  -- are in their ranges. After any events with the open endpoint (datagrams of any contents
  -- from any addresses, timers), if no peer is registered then and none has activated the HBP
  -- client, the client is started; and after any further events before a signal (the steps of
  -- the connect loop too), with random numbers in their ranges: the HBP client is active always
  -- or, in tracking mode, exactly while a peer is registered; an active client has a connect
  -- loop that has not ended; and the translator keeps its invariant.
  pub program_runs :
      (f : File) (cfg : Config) (r : System × List Output) (early es : List Event)
      → main codec hmac sha256 inet_aton binds f ≡ up r
      → load inet_aton f ≡ ok cfg
      → EventsAreValid early
      → AreBeforeStop early
      → IsIdle (run (world cfg) early r.0).0
      → EventsAreValid es
      → AreBeforeStop es
      → ConfigIsValid inet_aton cfg × Running (world cfg) (run_through (world cfg) early es r.0)
  program_runs f cfg r early es h loads valid before idle oks befores =
      let (c, loads', ranges, _, same) = main_up codec hmac sha256 inet_aton binds f r h in
      let e : c ≡ cfg = cc in
      let same' : r ≡ boot (world cfg) = same ∙ ap (λ x. boot (world x)) e in
      (
        subst (ConfigIsValid inet_aton) e ranges,
        subst (λ x. Running (world cfg) (run_through (world cfg) early es x.0)) (sym same')
            (booted_runs (world cfg) early es valid before
              (subst (λ x. IsIdle (run (world cfg) early x.0).0) same' idle) oks befores),
      )
