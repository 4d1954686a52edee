-- ===== src/Grammar/Validate/Correct.antt =====
-- Proofs about `validate` of src/grammar.rs.
use ws_pmd_rs.Base.{
  ◌≡◌, ◌↔◌, ◌⊎◌, ap, ◌∙◌, sym, Bool, true, false, not, ◌||◌, [], ◌∷◌, List, Bytes, any, is_empty,
  All, Bool-cases, inl, inr, arith, Outcome, ok, err, panic, >>=-eq-ok, ok-injective,
}
use ws_pmd_rs.Error.{NegotiationError}
use ws_pmd_rs.Grammar.Split.{elements}
use ws_pmd_rs.Grammar.Split.Join.{HasElements}
use ws_pmd_rs.Grammar.Trim.{is_blank}
use ws_pmd_rs.Grammar.Validate.{validate_element, validate_elements, validate_lines, validate}

abbrev pub populates : Bytes → Bool
populates element = not (is_blank element)

-- A blank element, which the list syntax allows, or one that the grammar accepts.
abbrev pub ElementIsValid : Bytes → Type 0
ElementIsValid e = (is_blank e ≡ true) ⊎ (validate_element e ≡ ok tt)

abbrev pub LineIsValid : Bytes → Type 0
LineIsValid line = (es : List Bytes) × (elements line ≡ ok es) × All ElementIsValid es

-- Some element of the line is not blank.
abbrev some_populates : Outcome NegotiationError (List Bytes) → Bool
some_populates (ok es) = any populates es
some_populates (err e) = false
some_populates panic = false

abbrev pub line_populates : Bytes → Bool
line_populates line = some_populates (elements line)

record Walked (es : List Bytes) (before after : Bool) : Type 0 where
  each : All ElementIsValid es
  flag : after ≡ (before || any populates es)

or_true : (b c : Bool) → (b || (true || c)) ≡ true
or_true b c = ground arith

or_false : (b c : Bool) → (b || (false || c)) ≡ (b || c)
or_false b c = ground arith

validate_elements-Walked :
    (es : List Bytes) (p : Bool) {q : Bool} → validate_elements es p ≡ ok q → Walked es p q
unfolding validate_elements
validate_elements-Walked [] p h = record { each = tt; flag = sym (ok-injective h) ∙ ground arith }
validate_elements-Walked (e ∷ es) p {q} h = elim (Bool-cases (is_blank e)) [
  | inl b ↦
      let w = validate_elements-Walked es p (rw b at h) in
      record { each = (inl b, w.each); flag = w.flag ∙ rw b (sym (or_false p (any populates es))) }
  | inr n ↦
      let (u, he, rest) =
        >>=-eq-ok (validate_element e) (λ k. validate_elements es true) {result = q} (rw n at h) in
      let w = validate_elements-Walked es true rest in
      record { each = (inr he, w.each); flag = w.flag ∙ rw n (sym (or_true p (any populates es))) }
]

Walked-validate_elements :
    (es : List Bytes) (p : Bool)
    → All ElementIsValid es
    → validate_elements es p ≡ ok (p || any populates es)
unfolding validate_elements
Walked-validate_elements [] p h = ap ok (ground arith)
Walked-validate_elements (e ∷ es) p (he, hs) = elim (Bool-cases (is_blank e)) [
  | inl b ↦ rw b (Walked-validate_elements es p hs ∙ ap ok (sym (or_false p (any populates es))))
  | inr n ↦
      let valid : validate_element e ≡ ok tt = elim he [ inl b ↦ cc (sym n ∙ b) | inr v ↦ v ] in
      rw (n, valid)
        (Walked-validate_elements es true hs ∙ ap ok (sym (or_true p (any populates es))))
]

-- The field may do without an element only where it has no line.
abbrev served : List Bytes → Bool → Bool → Bool
served ls present populated =
    not (present || not (is_empty ls)) || (populated || any line_populates ls)

served-cons :
    (l : Bytes) (ls : List Bytes) (p b c : Bool)
    → c ≡ (b || line_populates l)
    → served ls true c ≡ served (l ∷ ls) p b
served-cons l ls p b c e = rw e (bools p b (line_populates l) (any line_populates ls))
  where
    bools :
        (p b x y : Bool)
        → (not (true || not (is_empty ls)) || ((b || x) || y))
          ≡ (not (p || true) || (b || (x || y)))
    bools p b x y = ground arith

validate_lines-valid :
    (ls : List Bytes) (p b : Bool)
    → validate_lines ls p b ≡ ok tt
    → All LineIsValid ls × (served ls p b ≡ true)
unfolding validate_lines
validate_lines-valid [] p b h = (tt, ground (arith, h))
validate_lines-valid (l ∷ ls) p b h =
    let (es, he, k) = >>=-eq-ok (elements l) _ {result = tt} h in
    let (c, hc, rest) = >>=-eq-ok (validate_elements es b) _ {result = tt} k in
    let w = validate_elements-Walked es b hc in
    let (each, done) = validate_lines-valid ls true c rest in
    (
      ((es, he, w.each), each),
      sym (served-cons l ls p b c (w.flag ∙ ap (λ m. b || some_populates m) (sym he))) ∙ done,
    )

valid-validate_lines :
    (ls : List Bytes) (p b : Bool)
    → All LineIsValid ls
    → served ls p b ≡ true
    → validate_lines ls p b ≡ ok tt
unfolding validate_lines
valid-validate_lines [] p b h s = ground (arith, s)
valid-validate_lines (l ∷ ls) p b ((es, he, each), rest) s =
    rw (he, Walked-validate_elements es b each)
      (valid-validate_lines ls true (b || any populates es) rest (
        served-cons l ls p b (b || any populates es) (ap (λ m. b || some_populates m) (sym he))
        ∙ s))

-- `validate` accepts exactly the fields whose lines all split into elements that are blank or
-- well formed and that, where there is a line, have at least one element that is not blank.
pub validate_iff :
    (ls : List Bytes)
    → (validate ls ≡ ok tt) ↔ (All LineIsValid ls × ((is_empty ls || any line_populates ls) ≡ true))
unfolding validate
validate_iff ls = (to, from)
  where
    flags : (e a : Bool) → (not (false || not e) || (false || a)) ≡ (e || a)
    flags e a = ground arith

    to :
        validate_lines ls false false ≡ ok tt
        → All LineIsValid ls × ((is_empty ls || any line_populates ls) ≡ true)
    to h =
        let (each, s) = validate_lines-valid ls false false h in
        (each, sym (flags (is_empty ls) (any line_populates ls)) ∙ s)

    from :
        All LineIsValid ls × ((is_empty ls || any line_populates ls) ≡ true)
        → validate_lines ls false false ≡ ok tt
    from (each, s) =
        valid-validate_lines ls false false each (flags (is_empty ls) (any line_populates ls) ∙ s)

-- The lines of an accepted field all split.
pub validate-HasElements : (ls : List Bytes) → validate ls ≡ ok tt → All HasElements ls
validate-HasElements ls h = forget ls ((validate_iff ls).0 h).0
  where
    forget : (ls : List Bytes) → All LineIsValid ls → All HasElements ls
    forget [] h = tt
    forget (l ∷ ls) ((es, he, each), rest) = ((es, he), forget ls rest)
