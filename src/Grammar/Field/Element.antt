-- ===== src/Grammar/Field/Element.antt =====
-- Proofs about `validate_element` and `is_blank` of src/grammar.rs.
use ws_pmd_rs.Base.{
  ℕ, ◌≡◌, ◌↔◌, refl, ap, sym, true, is_empty, [], ◌∷◌, List, Bytes, arith, ok, >>=-eq-ok,
}
use ws_pmd_rs.Grammar.Trim.{trim, is_blank}
use ws_pmd_rs.Grammar.Trim.Correct.{trim-IsTrimOf}
use ws_pmd_rs.Grammar.Split.{split, segments}
use ws_pmd_rs.Grammar.Split.Loop.{cut_at, split-cut_at}
use ws_pmd_rs.Grammar.Split.Pieces.{outside}
use ws_pmd_rs.Grammar.Token.{validate_token}
use ws_pmd_rs.Grammar.Validate.{validate_segments, validate_element}
use ws_pmd_rs.Grammar.Field.{CutsInto, IsExtension, IsEmptyElement}
use ws_pmd_rs.Grammar.Field.Token.{trimmed_token}
use ws_pmd_rs.Grammar.Field.Parameter.{validate_parameters_iff}

-- What `split` returns.
pub split_iff :
    (d : ℕ) (value : Bytes) (parts : List Bytes)
    → (split value d ≡ ok parts) ↔ CutsInto d value parts
split_iff d value parts = (to, from)
  where
    to : split value d ≡ ok parts → CutsInto d value parts
    to h = let (b, e) = cut_at-CutsInto (rw split-cut_at at h) in (b, e)
      where
        cut_at-CutsInto : cut_at d outside [] [] value ≡ ok parts → CutsInto d value parts
        cut_at-CutsInto h = ground arith

    from : CutsInto d value parts → split value d ≡ ok parts
    from (b, e) = rw split-cut_at (rw b (ap ok (sym e)))

pub is_blank_iff : (e : Bytes) → (is_blank e ≡ true) ↔ IsEmptyElement e
unfolding is_blank
is_blank_iff e = (
  λ h. let none_left : trim e ≡ [] = empty (trim e) h in (rw none_left at (trim-IsTrimOf e).0),
  λ t. ap is_empty (sym ((trim-IsTrimOf e).1 [] t)),
)
  where
    empty : (v : Bytes) → is_empty v ≡ true → v ≡ []
    empty [] h = refl
    empty (c ∷ cs) h = cc

pub validate_element_iff : (e : Bytes) → (validate_element e ≡ ok tt) ↔ IsExtension e
unfolding validate_element segments validate_segments
validate_element_iff e = (to, from)
  where
    of_parts :
        (parts : List Bytes)
        → segments e ≡ ok parts
        → validate_segments parts ≡ ok tt
        → IsExtension e
    of_parts [] hs h = cc
    of_parts (key ∷ ps) hs h =
        let (u, hk, rest) = >>=-eq-ok (validate_token (trim key)) _ {result = tt} h in
        (
          key,
          ps,
          (split_iff b';' e (key ∷ ps)).0 hs,
          (trimmed_token key).0 hk,
          (validate_parameters_iff ps).0 rest,
        )

    to : validate_element e ≡ ok tt → IsExtension e
    to h =
        let (parts, hs, rest) = >>=-eq-ok (segments e) validate_segments {result = tt} h in
        of_parts parts hs rest

    from : IsExtension e → validate_element e ≡ ok tt
    from (key, ps, c, t, h) =
        rw ((split_iff b';' e (key ∷ ps)).1 c, (trimmed_token key).1 t)
          ((validate_parameters_iff ps).1 h)
