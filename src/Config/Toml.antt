-- ===== src/Config/Toml.antt =====
-- config.py: the values of a configuration file, and its settings that are wrong.
use Prim.Native.String.{String}
use ipsc2hbp.Base.{Bool, [], ◌∷◌, Dict}
use ipsc2hbp.Base.Int.{ℤ}
use ipsc2hbp.Config.Text.{Text}

-- What tomllib.load gives. `other` is a value of a type that the loader never accepts, with the
-- name of the type.
mutual
  pub data Value : Type 0 where
    text : Text → Value
    int : ℤ → Value
    boolean : Bool → Value
    table : Entries → Value
    other : String → Value

  pub data Entries : Type 0 where
    end : Entries
    entry : String → Value → Entries → Entries

abbrev pub Table : Type 0
Table = Dict String Value

abbrev pub entries : Entries → Table
entries end = []
entries (entry k v es) = (k, v) ∷ entries es

-- `type(val).__name__`
abbrev pub type_name : Value → String
type_name (text t) = "str"
type_name (int n) = "int"
type_name (boolean b) = "bool"
type_name (table es) = "dict"
type_name (other name) = name

-- The lines of the ValueError, with the section and the setting where the line has them.
pub data Problem : Type 0 where
  section_required section_not_table : String → Problem
  required : String → String → Problem
  not_string not_integer not_boolean : String → String → String → Problem
  not_one_of : String → String → Text → Problem
  too_small too_large : String → String → ℤ → Problem
  master_id_zero peer_id_zero upstream_port_zero no_repeater_id : Problem
  bad_peer_ip bad_master_ip : Text → Problem
  auth_key_long auth_key_not_hex : Problem
