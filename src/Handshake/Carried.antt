-- ===== src/Handshake/Carried.antt =====
-- A field to which one rendering of src/negotiated.rs is appended, as both halves of the handshake
-- read it.
use ws_pmd_rs.Base.{
  ℕ, ◌≡◌, refl, ap, ◌∙◌, Bool, true, List, [], ◌∷◌, ◌++◌, Bytes, Option, any, All-append, ok, arith,
}
use ws_pmd_rs.Http.{Http, lines, lines-append}
use ws_pmd_rs.Grammar.Validate.{validate}
use ws_pmd_rs.Grammar.Validate.Correct.{LineIsValid, line_populates, validate_iff}
use ws_pmd_rs.Grammar.Deflate.{deflate_elements}
use ws_pmd_rs.Grammar.Deflate.Append.{deflate_elements-append, deflate_elements_one}
use ws_pmd_rs.Negotiated.Render.{ClientBits, render_string}
use ws_pmd_rs.Negotiated.Render.Segments.{ServerInRange, ClientInRange}
use ws_pmd_rs.Negotiated.Render.Element.{elements-render_string, is_deflate-render_string}
use ws_pmd_rs.Negotiated.Render.Valid.{render_string-LineIsValid, line_populates-render_string}

any-snoc :
    (p : Bytes → Bool) (xs : List Bytes) (x : Bytes) → p x ≡ true → any p (xs ++ x ∷ []) ≡ true
any-snoc p [] x h = rw h refl
any-snoc p (y ∷ ys) x h = rw (any-snoc p ys x h) (ground arith)

validate-snoc :
    (ls : List Bytes) (l : Bytes)
    → validate ls ≡ ok tt
    → LineIsValid l
    → line_populates l ≡ true
    → validate (ls ++ l ∷ []) ≡ ok tt
validate-snoc ls l h valid populates = (validate_iff (ls ++ l ∷ [])).1 (
  All-append _ ls (l ∷ []) ((validate_iff ls).0 h).0 (valid, tt),
  rw (any-snoc line_populates ls l populates) (ground arith),
)

module _ (H : Http) where
  -- The field is accepted by the grammar and has no `permessage-deflate` element.
  pub record IsClear (headers : H.HeaderMap) : Type 0 where
    pub accepted : validate (lines H headers) ≡ ok tt
    pub none_in : deflate_elements (lines H headers) ≡ ok []

  -- The field is accepted by the grammar and has `text` as its one `permessage-deflate` element.
  pub record Carries (headers : H.HeaderMap) (text : Bytes) : Type 0 where
    pub accepted : validate (lines H headers) ≡ ok tt
    pub sole : deflate_elements (lines H headers) ≡ ok (text ∷ [])

  pub append-Carries :
      (headers : H.HeaderMap) (v : H.HeaderValue) (st ct : Bool) (sb : Option ℕ) (cb : ClientBits)
      → ServerInRange sb
      → ClientInRange cb
      → H.as_bytes v ≡ render_string st ct sb cb
      → IsClear headers
      → Carries (H.append headers v) (render_string st ct sb cb)
  append-Carries headers v st ct sb cb hs hc text clear =
      let text_of = render_string st ct sb cb in
      let now : lines H (H.append headers v) ≡ lines H headers ++ text_of ∷ [] =
        lines-append H headers v ∙ ap (λ t. lines H headers ++ t ∷ []) text in
      let one =
        deflate_elements_one text_of (elements-render_string st ct sb cb hs hc)
          (is_deflate-render_string st ct sb cb hs hc) in
      record {
        accepted =
            ap validate now
            ∙ validate-snoc (lines H headers) text_of clear.accepted
                (render_string-LineIsValid st ct sb cb hs hc)
                (line_populates-render_string st ct sb cb hs hc);
        sole =
            ap deflate_elements now
            ∙ deflate_elements-append (lines H headers) (text_of ∷ []) clear.none_in one;
      }
