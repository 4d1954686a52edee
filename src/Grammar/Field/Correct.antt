-- ===== src/Grammar/Field/Correct.antt =====
-- Proofs about `validate` of src/grammar.rs: the fields that it accepts are those of the grammar.
use ws_pmd_rs.Base.{
  ◌≡◌, ◌↔◌, ◌⊎◌, refl, ap, ◌∙◌, sym, Bool-cases, true, ◌||◌, any, is_empty, List, [], ◌∷◌, ◌++◌,
  Bytes, All, inl, inr, arith, ok,
}
use ws_pmd_rs.Grammar.Trim.{is_blank}
use ws_pmd_rs.Grammar.Split.{elements}
use ws_pmd_rs.Grammar.Validate.{validate}
use ws_pmd_rs.Grammar.Validate.Correct.{
  populates, ElementIsValid, LineIsValid, line_populates, validate_iff,
}
use ws_pmd_rs.Grammar.Field.{
  CutsInto, IsExtension, IsEmptyElement, IsLine, HasExtension, here, later, IsField,
}
use ws_pmd_rs.Grammar.Field.Element.{split_iff, is_blank_iff, validate_element_iff}

elements_iff : (line : Bytes) (es : List Bytes) → (elements line ≡ ok es) ↔ CutsInto b',' line es
unfolding elements
elements_iff line es = split_iff b',' line es

-- An element of a list, blank or not.
abbrev IsListed : Bytes → Type 0
IsListed e = IsEmptyElement e ⊎ IsExtension e

each_iff : (es : List Bytes) → All ElementIsValid es ↔ All IsListed es
each_iff es = (to es, from es)
  where
    to : (es : List Bytes) → All ElementIsValid es → All IsListed es
    to [] h = tt
    to (e ∷ es) (h, hs) = (
      elim h [ inl b ↦ inl ((is_blank_iff e).0 b) | inr v ↦ inr ((validate_element_iff e).0 v) ],
      to es hs,
    )

    from : (es : List Bytes) → All IsListed es → All ElementIsValid es
    from [] h = tt
    from (e ∷ es) (h, hs) = (
      elim h [ inl b ↦ inl ((is_blank_iff e).1 b) | inr v ↦ inr ((validate_element_iff e).1 v) ],
      from es hs,
    )

lines_iff : (ls : List Bytes) → All LineIsValid ls ↔ All IsLine ls
lines_iff ls = (to ls, from ls)
  where
    to : (ls : List Bytes) → All LineIsValid ls → All IsLine ls
    to [] h = tt
    to (l ∷ ls) ((es, he, each), rest) =
        ((es, (elements_iff l es).0 he, (each_iff es).0 each), to ls rest)

    from : (ls : List Bytes) → All IsLine ls → All LineIsValid ls
    from [] h = tt
    from (l ∷ ls) ((es, he, each), rest) =
        ((es, (elements_iff l es).1 he, (each_iff es).1 each), from ls rest)

-- The first of the elements that is not blank, and what stands around it.
populated_at :
    (es : List Bytes)
    → any populates es ≡ true
    → (front : List Bytes) × (back : List Bytes) × (e : Bytes) × (es ≡ front ++ e ∷ back)
      × ¬ IsEmptyElement e
populated_at [] h = cc
populated_at (e ∷ es) h = elim (Bool-cases (is_blank e)) [
  | inl b ↦
      let (front, back, x, same, n) = populated_at es (rw b at h) in
      (e ∷ front, back, x, ap (◌∷◌ e) same, n)
  | inr n ↦ ([], es, e, refl, λ t. cc (sym n ∙ (is_blank_iff e).1 t))
]

not_blank-populates :
    (front back : List Bytes) (e : Bytes)
    → ¬ IsEmptyElement e
    → any populates (front ++ e ∷ back) ≡ true
not_blank-populates [] back e n = elim (Bool-cases (is_blank e)) [
  | inl b ↦ absurd (n ((is_blank_iff e).0 b))
  | inr h ↦ rw h refl
]
not_blank-populates (f ∷ front) back e n = rw (not_blank-populates front back e n) (ground arith)

some_line-HasExtension :
    (ls : List Bytes) → All LineIsValid ls → any line_populates ls ≡ true → HasExtension ls
some_line-HasExtension [] v h = cc
some_line-HasExtension (l ∷ ls) ((es, he, each), rest) h = elim (Bool-cases (any populates es)) [
  | inl some_here ↦
      let (front, back, e, same, n) = populated_at es some_here in
      here front back e ((elements_iff l (front ++ e ∷ back)).0 (he ∙ ap ok same)) n
  | inr none_here ↦ later (some_line-HasExtension ls rest (rw (he, none_here) at h))
]

HasExtension-some_line : {ls : List Bytes} → HasExtension ls → any line_populates ls ≡ true
HasExtension-some_line (here {line} {rest} front back e c n) =
    rw ((elements_iff line (front ++ e ∷ back)).1 c, not_blank-populates front back e n) refl
HasExtension-some_line (later {line} {rest} h) = rw (HasExtension-some_line h) (ground arith)

-- `validate` accepts a field exactly where the grammar does. Every line splits at the commas
-- outside its quoted strings, all of which are closed. Each element is white space, or splits at
-- the semicolons outside its quoted strings into a token and parameters, each a token that may be
-- followed by `=` and a token, quoted or not, white space around all of these aside. Some element
-- of the field is not white space, unless the field has no line. Tokens are of the characters of
-- RFC 2616 that are neither controls nor separators.
pub validate-IsField : (ls : List Bytes) → (validate ls ≡ ok tt) ↔ IsField ls
validate-IsField ls = (λ h. to ls ((validate_iff ls).0 h), λ h. (validate_iff ls).1 (from ls h))
  where
    to :
        (ls : List Bytes)
        → All LineIsValid ls × ((is_empty ls || any line_populates ls) ≡ true)
        → IsField ls
    to [] (v, p) = (tt, inl refl)
    to (l ∷ ls) (v, p) = ((lines_iff (l ∷ ls)).0 v, inr (some_line-HasExtension (l ∷ ls) v p))

    from :
        (ls : List Bytes)
        → IsField ls
        → All LineIsValid ls × ((is_empty ls || any line_populates ls) ≡ true)
    from [] (v, p) = (tt, refl)
    from (l ∷ ls) (v, inl e) = cc
    from (l ∷ ls) (v, inr x) = ((lines_iff (l ∷ ls)).1 v, HasExtension-some_line x)
