-- ===== src/Grammar/Params/Blank.antt =====
-- Proofs about `is_blank` and `is_deflate` of src/grammar.rs.
use ws_pmd_rs.Base.{
  ℕ, ◌≡◌, refl, ap, ◌∙◌, Bool, true, false, [], ◌∷◌, ◌++◌, Bytes, arith, all, All-append,
  is_ascii_whitespace, is_empty, bytes_eq, ok,
}
use ws_pmd_rs.Grammar.Split.{segments}
use ws_pmd_rs.Grammar.Split.Pieces.{join, is_plain, all_plain-IsPiece}
use ws_pmd_rs.Grammar.Split.Join.{split-join_pieces, HasSegments}
use ws_pmd_rs.Grammar.Trim.{not_whitespace, trim, is_blank}
use ws_pmd_rs.Grammar.Trim.Correct.{Dropped, trim-IsTrimOf}
use ws_pmd_rs.Grammar.Params.{name, first_or_default, is_deflate}

whitespace-plain : (c : ℕ) → not_whitespace c ≡ false → is_plain b';' c ≡ true
unfolding is_ascii_whitespace
whitespace-plain c h = ground arith

Dropped-plain : (x : Bytes) → Dropped not_whitespace x → all (is_plain b';') x ≡ true
Dropped-plain [] h = refl
Dropped-plain (c ∷ cs) h = rw (whitespace-plain c h.0) (Dropped-plain cs h.1)

empty_nil : (x : Bytes) → is_empty x ≡ true → x ≡ []
empty_nil [] h = refl
empty_nil (c ∷ cs) h = cc

blank-nil : (e : Bytes) → is_blank e ≡ true → trim e ≡ []
unfolding is_blank
blank-nil e h = empty_nil (trim e) h

blank-Dropped : (e : Bytes) → is_blank e ≡ true → Dropped not_whitespace e
blank-Dropped e h =
    let t = (trim-IsTrimOf e).0 in
    let parts : e ≡ t.before ++ t.after =
      t.joined ∙ ap (λ m. t.before ++ (m ++ t.after)) (blank-nil e h) in
    rw parts (All-append _ t.before t.after t.before_dropped t.after_dropped)

segments-blank : (e : Bytes) → is_blank e ≡ true → segments e ≡ ok (e ∷ [])
unfolding segments join
segments-blank e h =
    split-join_pieces b';' e [] (ground arith)
      (all_plain-IsPiece b';' e (Dropped-plain e (blank-Dropped e h)), tt)

nil_is_no_name : bytes_eq [] name ≡ false
unfolding bytes_eq
nil_is_no_name = refl

-- An element of white space alone does not name the extension.
pub is_blank-is_deflate : (e : Bytes) → is_blank e ≡ true → is_deflate e ≡ ok false
unfolding is_deflate
is_blank-is_deflate e h = rw (segments-blank e h, blank-nil e h, nil_is_no_name)

pub is_deflate-total : (e : Bytes) → HasSegments e → (d : Bool) × (is_deflate e ≡ ok d)
unfolding is_deflate
is_deflate-total e (parts, h) = rw h (bytes_eq (trim (first_or_default parts)) name, refl)
