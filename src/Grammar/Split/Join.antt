-- ===== src/Grammar/Split/Join.antt =====
-- Proofs about `split`, `elements` and `segments` of src/grammar.rs.
use ws_pmd_rs.Grammar.Split.Loop.{cut_at, split-cut_at}
use ws_pmd_rs.Base.{
  ◌≢◌, ℕ, ◌≡◌, refl, ap, ◌∙◌, sym, true, List, [], ◌∷◌, ◌++◌, append-nil, Bytes, All, arith, ok,
}
use ws_pmd_rs.Grammar.Split.{split, elements, segments}
use ws_pmd_rs.Grammar.Split.Pieces.{
  outside, step_quoting, end_quoting, cuts, pieces, join, IsBalanced, IsPiece, pieces-IsPiece,
  join-pieces, pieces-IsUncut, end_quoting-append,
}

cut_at-eq-ok :
    (d : ℕ) (value : Bytes) {parts : List Bytes}
    → cut_at d outside [] [] value ≡ ok parts
    → IsBalanced value × (pieces d [] outside value ≡ parts)
cut_at-eq-ok d value h = ground arith

-- Where `split` returns, joining what it returns with the delimiter gives back the value, every
-- part closes the quoted strings that it opens, and none has the delimiter outside of them.
pub split-join :
    (value : Bytes) (d : ℕ) {parts : List Bytes}
    → split value d ≡ ok parts
    → (join d parts ≡ value) × All (IsPiece d) parts
split-join value d h =
    let (balanced, found) = cut_at-eq-ok d value (rw split-cut_at at h) in
    rw (← found)
      (join-pieces d [] outside value, pieces-IsPiece d [] outside value refl tt balanced)

-- A balanced value is always split.
pub split-IsBalanced :
    (value : Bytes) (d : ℕ) → IsBalanced value → split value d ≡ ok (pieces d [] outside value)
split-IsBalanced value d h = rw split-cut_at (rw h)

All-map : {P Q : Bytes → Type 0} (xs : List Bytes) → ((x : Bytes) → P x → Q x) → All P xs → All Q xs
All-map [] f h = tt
All-map (x ∷ xs) f h = (f x h.0, All-map xs f h.1)

abbrev pub HasElements : Bytes → Type 0
HasElements line = (es : List Bytes) × (elements line ≡ ok es)

abbrev pub HasSegments : Bytes → Type 0
HasSegments e = (parts : List Bytes) × (segments e ≡ ok parts)

-- No element of a line that `elements` accepts is refused by `segments`: the error that
-- `segments` propagates is never raised on an element.
pub elements-segments :
    (value : Bytes) {es : List Bytes} → elements value ≡ ok es → All HasSegments es
unfolding elements segments
elements-segments value {es} h =
    All-map es (λ e p. (pieces b';' [] outside e, split-IsBalanced e b';' p.0))
      (split-join value b',' h).1

delimiter-cuts : (d : ℕ) → d ≢ b'"' → (cuts d outside d ≡ true) × (step_quoting outside d ≡ outside)
delimiter-cuts d nq = ground arith

pieces_next :
    (d : ℕ) (p rest : Bytes)
    → d ≢ b'"'
    → IsPiece d p
    → pieces d [] outside (p ++ d ∷ rest) ≡ p ∷ pieces d [] outside rest
pieces_next d p rest nq h =
    pieces-IsUncut d outside [] p (d ∷ rest) h.1
    ∙ rw h.0 (unfold pieces in rw (delimiter-cuts d nq).0)

-- Pieces that are balanced and have no delimiter outside their quotes come back from their join.
join-IsPiece :
    (d : ℕ) (p : Bytes) (ps : List Bytes)
    → d ≢ b'"'
    → All (IsPiece d) (p ∷ ps)
    → (pieces d [] outside (join d (p ∷ ps)) ≡ p ∷ ps) × IsBalanced (join d (p ∷ ps))
unfolding join
join-IsPiece d p [] nq h = (
  sym (ap (pieces d [] outside) (append-nil p))
      ∙ pieces-IsUncut d outside [] p [] h.0.1
      ∙ (unfold pieces in refl),
  h.0.0,
)
join-IsPiece d p (q ∷ ps) nq h =
    let (back, balanced) = join-IsPiece d q ps nq h.1 in
    (
      pieces_next d p (join d (q ∷ ps)) nq h.0 ∙ ap (◌∷◌ p) back,
      end_quoting-append outside p (d ∷ join d (q ∷ ps))
          ∙ rw h.0.0 (rw ((delimiter-cuts d nq).1, end_quoting) balanced),
    )

-- The other way round: parts that are balanced and have no delimiter outside their quotes are
-- what `split` answers on their join.
pub split-join_pieces :
    (d : ℕ) (p : Bytes) (ps : List Bytes)
    → d ≢ b'"'
    → All (IsPiece d) (p ∷ ps)
    → split (join d (p ∷ ps)) d ≡ ok (p ∷ ps)
split-join_pieces d p ps nq h =
    let (back, balanced) = join-IsPiece d p ps nq h in split-IsBalanced _ d balanced ∙ rw back
