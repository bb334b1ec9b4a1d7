-- ===== src/Config/Fits/First.antt =====
-- config.py, `first_str` and `first_int`: a setting with another name in an older place.
use Prim.Native.String.{String}
use ipsc2hbp.Base.{
  ℕ, ◌≤◌, inl, inr, Bool, true, false, none, some, [], ◌∷◌, ◌≡◌, refl, arith, if◌then◌else◌, lookup,
  contains, Bool-cases,
}
use ipsc2hbp.Base.Int.{ℤ, pos}
use ipsc2hbp.Config.Text.{Text, string_eq}
use ipsc2hbp.Config.Toml.{Table, Problem}
use ipsc2hbp.Config.Check.{Place, first_int, first_str}
use ipsc2hbp.Config.Fits.{
  IntIn, IntSetting, StrSetting, get_int-IntIn, get_int_of_in, get_str-StrSetting,
  get_str_of_setting,
}

-- A setting is looked for at the second place, if it is not at the first.
abbrev pub chosen : Place → Place → Place
chosen p q = if contains p.2 p.0 then p else q

abbrev pub FirstIn : Place → Place → Bool → ℕ → ℕ → ℕ → ℤ → Type 0
FirstIn p q needed default lo hi n = IntIn (chosen p q).0 (chosen p q).2 needed default lo hi n

abbrev pub FirstStr : Place → Place → Bool → Text → Text → Type 0
FirstStr p q needed default t = StrSetting (chosen p q).0 (chosen p q).2 needed default t

needed_nil : (needed : Bool) (p : Problem) → (if needed then p ∷ [] else []) ≡ [] → needed ≡ false
needed_nil true p h = cc
needed_nil false p h = refl

-- What a setting has that is at neither place.
omitted_int :
    (sec : Table) (key : String) (needed : Bool) (default n : ℤ)
    → contains key sec ≡ false
    → IntSetting sec key needed default n
    → (n ≡ default) × (needed ≡ false)
omitted_int sec key needed default n c (inl e) = ground arith
omitted_int sec key needed default n c (inr (d, o)) = (d, o.1)

omitted_str :
    (sec : Table) (key : String) (needed : Bool) (default t : Text)
    → contains key sec ≡ false
    → StrSetting sec key needed default t
    → (t ≡ default) × (needed ≡ false)
omitted_str sec key needed default t c (inl (raw, e, s)) = ground arith
omitted_str sec key needed default t c (inr (d, o)) = (d, o.1)

not_contained : (sec : Table) (key : String) → contains key sec ≡ false → lookup key sec ≡ none
not_contained sec key h = ground arith

module _ (p q : Place) where
  pub first_int_of_in :
      (needed : Bool) (default lo hi : ℕ) (n : ℤ)
      → FirstIn p q needed default lo hi n
      → first_int p (some q) needed (pos default) (some (pos lo)) (some (pos hi)) ≡ (n, [])
  unfolding first_int
  first_int_of_in needed default lo hi n v = elim (Bool-cases (contains p.2 p.0)) [
    | inl here ↦ rw here (get_int_of_in p.0 p.1 p.2 needed default lo hi n (rw here at v))
    | inr away ↦
        let v' : IntIn q.0 q.2 needed default lo hi n = rw away at v in
        elim (Bool-cases (contains q.2 q.0)) [
          | inl there ↦ rw (away, there) (get_int_of_in q.0 q.1 q.2 needed default lo hi n v')
          | inr none' ↦
              let (d, m) = omitted_int q.0 q.2 needed (pos default) n none' v'.0 in
              rw (away, none', d, m) refl
        ]
  ]

  pub first_str_of_setting :
      (needed : Bool) (default t : Text)
      → FirstStr p q needed default t
      → first_str p (some q) needed default ≡ (t, [])
  unfolding first_str
  first_str_of_setting needed default t v = elim (Bool-cases (contains p.2 p.0)) [
    | inl here ↦ rw here (get_str_of_setting p.0 p.1 p.2 needed default t (rw here at v))
    | inr away ↦
        let v' : StrSetting q.0 q.2 needed default t = rw away at v in
        elim (Bool-cases (contains q.2 q.0)) [
          | inl there ↦ rw (away, there) (get_str_of_setting q.0 q.1 q.2 needed default t v')
          | inr none' ↦
              let (d, m) = omitted_str q.0 q.2 needed default t none' v' in
              rw (away, none', d, m) refl
        ]
  ]

  pub first_int-FirstIn :
      (needed : Bool) (default lo hi : ℕ)
      → lo ≤ default
      → default ≤ hi
      → (first_int p (some q) needed (pos default) (some (pos lo)) (some (pos hi))).1 ≡ []
      → FirstIn p q needed default lo hi
          (first_int p (some q) needed (pos default) (some (pos lo)) (some (pos hi))).0
  unfolding first_int
  first_int-FirstIn needed default lo hi a b h = elim (Bool-cases (contains p.2 p.0)) [
    | inl here ↦ rw here (get_int-IntIn p.0 p.1 p.2 needed default lo hi (rw here at h))
    | inr away ↦ elim (Bool-cases (contains q.2 q.0)) [
      | inl there ↦
          rw (away, there) (get_int-IntIn q.0 q.1 q.2 needed default lo hi (rw (away, there) at h))
      | inr none' ↦
          rw (away, none')
            (
              inr (
                refl,
                (not_contained q.0 q.2 none', needed_nil needed _ (rw (away, none') at h)),
              ),
              omega arith,
            )
    ]
  ]

  pub first_str-FirstStr :
      (needed : Bool) (default : Text)
      → (first_str p (some q) needed default).1 ≡ []
      → FirstStr p q needed default (first_str p (some q) needed default).0
  unfolding first_str
  first_str-FirstStr needed default h = elim (Bool-cases (contains p.2 p.0)) [
    | inl here ↦ rw here (get_str-StrSetting p.0 p.1 p.2 needed default (rw here at h))
    | inr away ↦ elim (Bool-cases (contains q.2 q.0)) [
      | inl there ↦
          rw (away, there) (get_str-StrSetting q.0 q.1 q.2 needed default (rw (away, there) at h))
      | inr none' ↦
          rw (away, none')
            (inr (refl, (not_contained q.0 q.2 none', needed_nil needed _ (rw (away, none') at h))))
    ]
  ]
