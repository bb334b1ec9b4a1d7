-- ===== src/Config/Check.antt =====
-- config.py, `load`: reading a setting, with the lines that it adds to `errors`.
use Prim.Native.String.{String}
use ipsc2hbp.Base.{
  Bool, true, false, ◌||◌, Option, none, some, List, [], ◌∷◌, ◌++◌, if◌then◌else◌, is_some, lookup,
  contains, bytes_eq, ◌==◌,
}
use ipsc2hbp.Base.Int.{ℤ, ltb_ℤ}
use ipsc2hbp.Config.Text.{Text, string_eq, strip, upper}
use ipsc2hbp.Config.Toml.{
  Value, text, int, boolean, table, Table, entries, type_name, Problem, section_required,
  section_not_table, required, not_string, not_integer, not_boolean, not_one_of, too_small,
  too_large,
}

-- A step of the loader: its value, and what it appends to `errors`.
abbrev pub Check : Type 0 → Type 0
Check A = A × List Problem

infixl 5 ◌>>=◌ ◌>>◌
abbrev pub ◌>>=◌ : {A B : Type 0} → Check A → (A → Check B) → Check B
m >>= f = ((f m.0).0, m.1 ++ (f m.0).1)

abbrev pub ◌>>◌ : {B : Type 0} → Check (Unit {0}) → Check B → Check B
m >> k = m >>= λ _. k

abbrev pub pure : {A : Type 0} → A → Check A
pure a = (a, [])

-- `errors.append(problem)` under a test.
abbrev pub report_if : Bool → Problem → Check (Unit {0})
report_if true p = (tt, p ∷ [])
report_if false p = (tt, [])

unfoldable pub section_of : String → Value → Check Table
section_of name (table es) = (entries es, [])
section_of name v = ([], section_not_table name ∷ [])

unfoldable pub required_section : Table → String → Check Table
required_section raw name = elim (lookup name raw) [
  | none ↦ ([], section_required name ∷ [])
  | some v ↦ section_of name v
]

unfoldable pub optional_section : Table → String → Check Table
optional_section raw name = elim (lookup name raw) [ none ↦ ([], []) | some v ↦ section_of name v ]

abbrev pub member : Text → List Text → Bool
member t [] = false
member t (c ∷ cs) = t == c || member t cs

abbrev pub in_choices : Option (List Text) → Text → Bool
in_choices none t = true
in_choices (some cs) t = member t cs

module _ (sec : Table) (name key : String) (needed : Bool) where
  unfoldable pub str_of : Text → Option (List Text) → Bool → Value → Check Text
  str_of default choices up (text t) =
      let result = if up || is_some choices then upper (strip t) else strip t in
      if in_choices choices result
      then (result, [])
      else (if up then upper default else default, not_one_of name key t ∷ [])
  str_of default choices up v =
      (if up then upper default else default, not_string name key (type_name v) ∷ [])

  unfoldable pub get_str : Text → Option (List Text) → Bool → Check Text
  get_str default choices up = elim (lookup key sec) [
    | none ↦ (if up then upper default else default, if needed then required name key ∷ [] else [])
    | some v ↦ str_of default choices up v
  ]

  unfoldable pub int_of : ℤ → Value → Check ℤ
  int_of default (int n) = (n, [])
  int_of default v = (default, not_integer name key (type_name v) ∷ [])

  abbrev pub at_least : Option ℤ → ℤ → Check (Unit {0})
  at_least none n = pure tt
  at_least (some lo) n = report_if (ltb_ℤ n lo) (too_small name key n)

  abbrev pub at_most : Option ℤ → ℤ → Check (Unit {0})
  at_most none n = pure tt
  at_most (some hi) n = report_if (ltb_ℤ hi n) (too_large name key n)

  unfoldable pub int_value : ℤ → Check ℤ
  int_value default = elim (lookup key sec) [
    | none ↦ (default, if needed then required name key ∷ [] else [])
    | some v ↦ int_of default v
  ]

  unfoldable pub get_int : ℤ → Option ℤ → Option ℤ → Check ℤ
  get_int default min_val max_val = do
    value ← int_value default
    at_least min_val value
    at_most max_val value
    pure value

  unfoldable pub bool_of : Bool → Value → Check Bool
  bool_of default (boolean b) = (b, [])
  bool_of default v = (default, not_boolean name key (type_name v) ∷ [])

  unfoldable pub get_bool : Bool → Check Bool
  get_bool default = elim (lookup key sec) [
    | none ↦ (default, if needed then required name key ∷ [] else [])
    | some v ↦ bool_of default v
  ]

-- A section, its name, and the name of a setting there.
abbrev pub Place : Type 0
Place = Table × String × String

-- What is read at the second place, if the setting is not at the first.
abbrev pub first_of : {A : Type 0} → (Place → Check A) → Place → Option Place → Bool → A → Check A
first_of {A} get (sec, name, key) fallback needed default =
    let missing : A × List Problem = (default, if needed then required name key ∷ [] else []) in
    if contains key sec then get (sec, name, key) else elim fallback [
      | none ↦ missing
      | some (fsec, fname, fkey) ↦ if contains fkey fsec then get (fsec, fname, fkey) else missing
    ]

unfoldable pub first_str : Place → Option Place → Bool → Text → Check Text
first_str primary fallback needed default =
    first_of (λ p. get_str p.0 p.1 p.2 needed default none false) primary fallback needed default

unfoldable pub first_int : Place → Option Place → Bool → ℤ → Option ℤ → Option ℤ → Check ℤ
first_int primary fallback needed default min_val max_val =
    first_of (λ p. get_int p.0 p.1 p.2 needed default min_val max_val) primary fallback needed
      default
