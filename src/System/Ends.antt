-- ===== src/System/Ends.antt =====
-- ipsc2hbp.py, `main`: how the program comes up.
use ipsc2hbp.Base.{◌≡◌, refl, Bool, true, false, Option, List, arith, if◌then◌else◌}
use ipsc2hbp.Dmr.{Bytes}
use ipsc2hbp.Dmr.Codec.{Codec}
use ipsc2hbp.Config.{Config}
use ipsc2hbp.Config.Load.{File, Loaded, ok, not_found, parse_error, invalid, load}
use ipsc2hbp.Config.Load.Valid.{ConfigIsValid, load-IsValid}
use ipsc2hbp.System.{System, Output}
use ipsc2hbp.System.Loop.{boot, Started, up, bind_error, configuration_error, main, world_of}

module _ (codec : Codec) (hmac : Bytes → Bytes → Bytes) (sha256 : Bytes → Bytes)
    (inet_aton : Bytes → Option Bytes) (binds : Bool) where
  abbrev ComesUp : File → System × List Output → Type 0
  ComesUp f r =
      (cfg : Config) × (load inet_aton f ≡ ok cfg)
      × ConfigIsValid inet_aton cfg
      × (binds ≡ true)
      × (r ≡ boot (world_of codec hmac sha256 inet_aton cfg))

  bound :
      (b : Bool) (x r : System × List Output)
      → (if b then up x else bind_error) ≡ up r
      → (b ≡ true) × (r ≡ x)
  bound true x r h = ground arith
  bound false x r h = cc

  from_loaded :
      (f : File) (r : System × List Output) (l : Loaded)
      → load inet_aton f ≡ l
      → (elim l as (λ _. Started) [
        | ok cfg ↦
            if binds then up (boot (world_of codec hmac sha256 inet_aton cfg)) else bind_error
        | _ ↦ configuration_error
      ])
        ≡ up r
      → ComesUp f r
  from_loaded f r (ok cfg) e h =
      let (b, same) = bound binds (boot (world_of codec hmac sha256 inet_aton cfg)) r h in
      (cfg, e, load-IsValid inet_aton f e, b, same)
  from_loaded f r not_found e h = cc
  from_loaded f r parse_error e h = cc
  from_loaded f r (invalid ps) e h = cc

  pub main_up :
      (f : File) (r : System × List Output)
      → main codec hmac sha256 inet_aton binds f ≡ up r
      → (cfg : Config) × (load inet_aton f ≡ ok cfg)
        × ConfigIsValid inet_aton cfg
        × (binds ≡ true)
        × (r ≡ boot (world_of codec hmac sha256 inet_aton cfg))
  unfolding main
  main_up f r h = from_loaded f r (load inet_aton f) refl h
