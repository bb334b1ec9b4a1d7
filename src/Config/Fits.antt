-- ===== src/Config/Fits.antt =====
-- config.py, `load`: what a setting has to be, as a description on its own, and that the reading of
-- a setting follows it.
pub mod First
pub mod Hbp
pub mod Ipsc
pub mod File
use Prim.Native.String.{String}
use ipsc2hbp.Base.{
  ℕ, ◌≤◌, ◌<◌, ◌⊎◌, inl, inr, Bool, true, false, Option, none, some, List, [], ◌∷◌, ◌++◌, ◌≡◌, refl,
  arith, if◌then◌else◌, lookup, contains, Option-cases, Bool-cases, is_some, ap, ◌∙◌, sym,
}
use ipsc2hbp.Base.Int.{ℤ, pos, negsuc, ltb_ℤ, ◌≤ℤ◌}
use ipsc2hbp.Config.Text.{Text, string_eq, strip, upper}
use ipsc2hbp.Config.Toml.{Value, text, int, boolean, table, other, Table, Problem}
use ipsc2hbp.Config.Check.{
  Check, ◌>>=◌, ◌>>◌, report_if, get_str, str_of, get_int, int_value, int_of, get_bool, bool_of,
  member, Place, first_int, first_str,
}
use ipsc2hbp.Config.Ranges.{Between, get_int-Between, get_int-at_least, parts}

-- A setting that is left out takes its default, unless it is needed.
abbrev pub Omitted : Table → String → Bool → Type 0
Omitted sec key needed = (lookup key sec ≡ none) × (needed ≡ false)

abbrev pub IntSetting : Table → String → Bool → ℤ → ℤ → Type 0
IntSetting sec key needed default n =
    (lookup key sec ≡ some (int n)) ⊎ ((n ≡ default) × Omitted sec key needed)

abbrev pub BoolSetting : Table → String → Bool → Bool → Type 0
BoolSetting sec key default b =
    (lookup key sec ≡ some (boolean b)) ⊎ ((b ≡ default) × Omitted sec key false)

-- A text loses the white space at its ends.
abbrev pub StrSetting : Table → String → Bool → Text → Text → Type 0
StrSetting sec key needed default t =
    ((raw : Text) × (lookup key sec ≡ some (text raw)) × (strip raw ≡ t))
    ⊎ ((t ≡ default) × Omitted sec key needed)

-- A word is read in capitals.
abbrev pub WordSetting : Table → String → List Text → Text → Text → Type 0
WordSetting sec key choices default t =
    ((raw : Text) × (lookup key sec ≡ some (text raw))
      × (upper (strip raw) ≡ t)
      × (member t choices ≡ true))
    ⊎ ((t ≡ default) × Omitted sec key false)

-- An integer that is in its range as well.
abbrev pub IntIn : Table → String → Bool → ℕ → ℕ → ℕ → ℤ → Type 0
IntIn sec key needed default lo hi n = IntSetting sec key needed (pos default) n × Between lo hi n

in_bounds :
    (lo hi : ℕ) (n : ℤ) → Between lo hi n → (ltb_ℤ n (pos lo) ≡ false) × (ltb_ℤ (pos hi) n ≡ false)
in_bounds lo hi n v = ground arith

not_below : (lo : ℕ) (n : ℤ) → pos lo ≤ℤ n → ltb_ℤ n (pos lo) ≡ false
not_below lo n v = ground arith

module _ (sec : Table) (name key : String) where
  int_value_of_setting :
      (needed : Bool) (default n : ℤ)
      → IntSetting sec key needed default n
      → int_value sec name key needed default ≡ (n, [])
  unfolding int_value int_of
  int_value_of_setting needed default n (inl e) = ground arith
  int_value_of_setting needed default n (inr (d, e)) = ground arith

  pub get_int_of_setting :
      (needed : Bool) (default : ℤ) (lo hi : ℕ) (n : ℤ)
      → IntSetting sec key needed default n
      → Between lo hi n
      → get_int sec name key needed default (some (pos lo)) (some (pos hi)) ≡ (n, [])
  unfolding get_int
  get_int_of_setting needed default lo hi n e v =
      let (below, above) = in_bounds lo hi n v in
      rw (int_value_of_setting needed default n e, ◌>>=◌, below, above)

  pub get_int_of_in :
      (needed : Bool) (default lo hi : ℕ) (n : ℤ)
      → IntIn sec key needed default lo hi n
      → get_int sec name key needed (pos default) (some (pos lo)) (some (pos hi)) ≡ (n, [])
  get_int_of_in needed default lo hi n (e, v) = get_int_of_setting needed (pos default) lo hi n e v

  pub get_int_of_setting_low :
      (needed : Bool) (default : ℤ) (lo : ℕ) (n : ℤ)
      → IntSetting sec key needed default n
      → pos lo ≤ℤ n
      → get_int sec name key needed default (some (pos lo)) none ≡ (n, [])
  unfolding get_int
  get_int_of_setting_low needed default lo n e v =
      rw (int_value_of_setting needed default n e, not_below lo n v)

  pub get_bool_of_setting :
      (default b : Bool)
      → BoolSetting sec key default b
      → get_bool sec name key false default ≡ (b, [])
  unfolding get_bool bool_of
  get_bool_of_setting default b (inl e) = ground arith
  get_bool_of_setting default b (inr (d, e)) = ground arith

  pub get_str_of_setting :
      (needed : Bool) (default t : Text)
      → StrSetting sec key needed default t
      → get_str sec name key needed default none false ≡ (t, [])
  unfolding get_str str_of
  get_str_of_setting needed default t (inl (raw, e, s)) = ground arith
  get_str_of_setting needed default t (inr (d, e)) = ground arith

  pub get_str_of_word :
      (choices : List Text) (default t : Text)
      → WordSetting sec key choices default t
      → get_str sec name key false default (some choices) false ≡ (t, [])
  unfolding get_str str_of
  get_str_of_word choices default t (inl (raw, e, s, m)) =
      rw (← s) (ground (arith, ap (λ u. member u choices) s ∙ m))
  get_str_of_word choices default t (inr (d, e)) = ground arith

  -- The other way: what is read without an error fits.
  int_of-int :
      (needed : Bool) (default : ℤ) (v : Value)
      → (int_of sec name key needed default v).1 ≡ []
      → v ≡ int (int_of sec name key needed default v).0
  unfolding int_of
  int_of-int needed default (int n) h = refl
  int_of-int needed default (text t) h = cc
  int_of-int needed default (boolean b) h = cc
  int_of-int needed default (table es) h = cc
  int_of-int needed default (other k) h = cc

  int_value-IntSetting :
      (needed : Bool) (default : ℤ)
      → (int_value sec name key needed default).1 ≡ []
      → IntSetting sec key needed default (int_value sec name key needed default).0
  unfolding int_value
  int_value-IntSetting needed default h = elim (Option-cases (lookup key sec)) [
    | inl e ↦ inr (ground arith, (e, ground arith))
    | inr (v, e) ↦ inl (ground (arith, int_of-int needed default v))
  ]

  pub get_int-IntSetting :
      (needed : Bool) (default : ℤ) (lo hi : Option ℤ)
      → (get_int sec name key needed default lo hi).1 ≡ []
      → IntSetting sec key needed default (get_int sec name key needed default lo hi).0
  unfolding get_int
  get_int-IntSetting needed default lo hi h =
      int_value-IntSetting needed default (parts (int_value sec name key needed default) h).0

  pub get_int-IntIn :
      (needed : Bool) (default lo hi : ℕ)
      → (get_int sec name key needed (pos default) (some (pos lo)) (some (pos hi))).1 ≡ []
      → IntIn sec key needed default lo hi
          (get_int sec name key needed (pos default) (some (pos lo)) (some (pos hi))).0
  get_int-IntIn needed default lo hi h = (
    get_int-IntSetting needed (pos default) (some (pos lo)) (some (pos hi)) h,
    get_int-Between sec name key needed (pos default) lo hi h,
  )

  bool_of-boolean :
      (default : Bool) (v : Value)
      → (bool_of sec name key false default v).1 ≡ []
      → v ≡ boolean (bool_of sec name key false default v).0
  unfolding bool_of
  bool_of-boolean default (int n) h = cc
  bool_of-boolean default (text t) h = cc
  bool_of-boolean default (boolean b) h = refl
  bool_of-boolean default (table es) h = cc
  bool_of-boolean default (other k) h = cc

  pub get_bool-BoolSetting :
      (default : Bool)
      → (get_bool sec name key false default).1 ≡ []
      → BoolSetting sec key default (get_bool sec name key false default).0
  unfolding get_bool
  get_bool-BoolSetting default h = elim (Option-cases (lookup key sec)) [
    | inl e ↦ inr (ground arith, (e, refl))
    | inr (v, e) ↦ inl (ground (arith, bool_of-boolean default v))
  ]

  str_of-text :
      (needed : Bool) (default : Text) (v : Value)
      → (str_of sec name key needed default none false v).1 ≡ []
      → (raw : Text) × (v ≡ text raw)
        × (strip raw ≡ (str_of sec name key needed default none false v).0)
  unfolding str_of
  str_of-text needed default (int n) h = cc
  str_of-text needed default (text t) h = (t, refl, refl)
  str_of-text needed default (boolean b) h = cc
  str_of-text needed default (table es) h = cc
  str_of-text needed default (other k) h = cc

  pub get_str-StrSetting :
      (needed : Bool) (default : Text)
      → (get_str sec name key needed default none false).1 ≡ []
      → StrSetting sec key needed default (get_str sec name key needed default none false).0
  unfolding get_str
  get_str-StrSetting needed default h = elim (Option-cases (lookup key sec)) [
    | inl e ↦ inr (ground arith, (e, ground arith))
    | inr (v, e) ↦
        let (raw, p, q) = str_of-text needed default v (ground arith) in
        inl (raw, e ∙ ap some p, ground arith)
  ]

  word_of-text :
      (choices : List Text) (default : Text) (v : Value)
      → (str_of sec name key false default (some choices) false v).1 ≡ []
      → (raw : Text) × (v ≡ text raw)
        × (upper (strip raw) ≡ (str_of sec name key false default (some choices) false v).0)
        × (member (str_of sec name key false default (some choices) false v).0 choices ≡ true)
  unfolding str_of
  word_of-text choices default (int n) h = cc
  word_of-text choices default (text t) h = (t, refl, ground arith, ground arith)
  word_of-text choices default (boolean b) h = cc
  word_of-text choices default (table es) h = cc
  word_of-text choices default (other k) h = cc

  pub get_str-WordSetting :
      (choices : List Text) (default : Text)
      → (get_str sec name key false default (some choices) false).1 ≡ []
      → WordSetting sec key choices default
          (get_str sec name key false default (some choices) false).0
  unfolding get_str
  get_str-WordSetting choices default h = elim (Option-cases (lookup key sec)) [
    | inl e ↦ inr (ground arith, (e, refl))
    | inr (v, e) ↦
        let (raw, p, q, m) = word_of-text choices default v (ground arith) in
        inl (raw, e ∙ ap some p, ground arith, ground arith)
  ]
