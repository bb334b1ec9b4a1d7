-- ===== src/Config/Ranges.antt =====
-- config.py, `load`: what holds of a setting that adds nothing to `errors`.
use Prim.Native.String.{String}
use ipsc2hbp.Base.{
  ℕ, ◌≤◌, Bool, true, false, Option, none, some, List, [], ◌∷◌, ◌++◌, ◌≡◌, refl, arith,
}
use ipsc2hbp.Base.Int.{ℤ, pos, ltb_ℤ, ◌≤ℤ◌}
use ipsc2hbp.Config.Text.{Text}
use ipsc2hbp.Config.Toml.{Table, Problem}
use ipsc2hbp.Config.Check.{
  Check, report_if, get_int, int_value, Place, first_int, member, get_str, str_of,
}

-- A list of errors that is empty is empty in its parts.
pub append-nil_inv : (ps qs : List Problem) → ps ++ qs ≡ [] → (ps ≡ []) × (qs ≡ [])
append-nil_inv [] qs h = (refl, h)
append-nil_inv (p ∷ ps) qs h = cc

-- A step, and what follows it.
pub parts :
    {A : Type 0} (m : Check A) {rest : List Problem} → m.1 ++ rest ≡ [] → (m.1 ≡ []) × (rest ≡ [])
parts m {rest} h = append-nil_inv m.1 rest h

pub report_if-nil : (t : Bool) (p : Problem) → (report_if t p).1 ≡ [] → t ≡ false
report_if-nil true p h = cc
report_if-nil false p h = refl

pub record Between (lo hi : ℕ) (n : ℤ) : Type 0 where
  pub low : pos lo ≤ℤ n
  pub high : n ≤ℤ pos hi

Between_of :
    (lo hi : ℕ) (n : ℤ) → ltb_ℤ n (pos lo) ≡ false → ltb_ℤ (pos hi) n ≡ false → Between lo hi n
Between_of lo hi n below above = ground arith

not_below : (lo : ℕ) (n : ℤ) → ltb_ℤ n (pos lo) ≡ false → pos lo ≤ℤ n
not_below lo n h = ground arith

pub get_int-Between :
    (sec : Table) (name key : String) (needed : Bool) (default : ℤ) (lo hi : ℕ)
    → (get_int sec name key needed default (some (pos lo)) (some (pos hi))).1 ≡ []
    → Between lo hi (get_int sec name key needed default (some (pos lo)) (some (pos hi))).0
unfolding get_int
get_int-Between sec name key needed default lo hi h =
    let n = (int_value sec name key needed default).0 in
    let (_, g) = append-nil_inv _ _ h in
    let (below, g') = append-nil_inv _ _ g in
    let (above, _) = append-nil_inv _ _ g' in
    Between_of lo hi n (report_if-nil (ltb_ℤ n (pos lo)) _ below)
      (report_if-nil (ltb_ℤ (pos hi) n) _ above)

pub first_int-Between :
    (p : Place) (fb : Option Place) (needed : Bool) (default lo hi : ℕ)
    → lo ≤ default
    → default ≤ hi
    → (first_int p fb needed (pos default) (some (pos lo)) (some (pos hi))).1 ≡ []
    → Between lo hi (first_int p fb needed (pos default) (some (pos lo)) (some (pos hi))).0
unfolding first_int
first_int-Between p none needed default lo hi a b h =
    ground (arith, get_int-Between p.0 p.1 p.2 needed (pos default) lo hi)
first_int-Between p (some q) needed default lo hi a b h = ground (
  arith,
  get_int-Between p.0 p.1 p.2 needed (pos default) lo hi,
  get_int-Between q.0 q.1 q.2 needed (pos default) lo hi,
)

pub get_int-at_least :
    (sec : Table) (name key : String) (needed : Bool) (default : ℤ) (lo : ℕ)
    → (get_int sec name key needed default (some (pos lo)) none).1 ≡ []
    → pos lo ≤ℤ (get_int sec name key needed default (some (pos lo)) none).0
unfolding get_int
get_int-at_least sec name key needed default lo h =
    let n = (int_value sec name key needed default).0 in
    let (_, g) = append-nil_inv _ _ h in
    let (below, _) = append-nil_inv _ _ g in
    not_below lo n (report_if-nil (ltb_ℤ n (pos lo)) _ below)

-- The value of a setting with choices is one of them, if the default is.
pub get_str-member :
    (sec : Table) (name key : String) (needed : Bool) (default : Text) (cs : List Text)
    → member default cs ≡ true
    → member (get_str sec name key needed default (some cs) false).0 cs ≡ true
unfolding get_str str_of
get_str-member sec name key needed default cs h = ground arith
