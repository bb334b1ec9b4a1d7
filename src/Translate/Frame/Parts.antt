-- ===== src/Translate/Frame/Parts.antt =====
-- A burst of five parts in a row, as translate/translator.py lays bursts out: its length and pieces.
use ipsc2hbp.Base.{
  ℕ, ◌+◌, ◌≡◌, refl, ◌∙◌, ◌++◌, arith, length, slice, length-append, slice_past, slice_first,
  slice_all, nat_eq,
}
use ipsc2hbp.Dmr.{Bits}

-- Five parts in a row, of known lengths.
module _ (na nb nc nd ne : ℕ) (a b c d e : Bits) (ha : length a ≡ na) (hb : length b ≡ nb)
    (hc : length c ≡ nc) (hd : length d ≡ nd) (he : length e ≡ ne) where
  pub length_five : length (a ++ (b ++ (c ++ (d ++ e)))) ≡ na + nb + nc + nd + ne
  length_five = omega (
    arith,
    length-append a (b ++ (c ++ (d ++ e))),
    length-append b (c ++ (d ++ e)),
    length-append c (d ++ e),
    length-append d e,
  )

  pub second_part : slice na (na + nb) (a ++ (b ++ (c ++ (d ++ e)))) ≡ b
  second_part = slice_past na na (na + nb) 0 nb a _ ha (omega arith) refl ∙ slice_first nb b _ hb

  pub fourth_part : slice (na + nb + nc) (na + nb + nc + nd) (a ++ (b ++ (c ++ (d ++ e)))) ≡ d
  fourth_part =
      slice_past na (na + nb + nc) (na + nb + nc + nd) (nb + nc) (nb + nc + nd) a _ ha (omega arith)
        (omega arith)
      ∙ slice_past nb (nb + nc) (nb + nc + nd) nc (nc + nd) b _ hb (omega arith) (omega arith)
      ∙ slice_past nc nc (nc + nd) 0 nd c _ hc (omega arith) refl
      ∙ slice_first nd d _ hd

  pub fifth_part :
      slice (na + nb + nc + nd) (na + nb + nc + nd + ne) (a ++ (b ++ (c ++ (d ++ e)))) ≡ e
  fifth_part =
      slice_past na (na + nb + nc + nd) (na + nb + nc + nd + ne) (nb + nc + nd) (nb + nc + nd + ne)
        a _ ha (omega arith) (omega arith)
      ∙ slice_past nb (nb + nc + nd) (nb + nc + nd + ne) (nc + nd) (nc + nd + ne) b _ hb
          (omega arith) (omega arith)
      ∙ slice_past nc (nc + nd) (nc + nd + ne) nd (nd + ne) c _ hc (omega arith) (omega arith)
      ∙ slice_past nd nd (nd + ne) 0 ne d _ hd (omega arith) refl
      ∙ slice_all ne e he

-- Three parts in a row.
module _ (na nb nc : ℕ) (a b c : Bits) (ha : length a ≡ na) (hb : length b ≡ nb)
    (hc : length c ≡ nc) where
  pub length_three : length (a ++ (b ++ c)) ≡ na + nb + nc
  length_three = omega (arith, length-append a (b ++ c), length-append b c)

  pub middle_part : slice na (na + nb) (a ++ (b ++ c)) ≡ b
  middle_part =
      slice_past na na (na + nb) 0 nb a (b ++ c) ha (omega arith) refl ∙ slice_first nb b c hb
