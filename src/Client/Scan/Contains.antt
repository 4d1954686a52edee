-- ===== src/Client/Scan/Contains.antt =====
-- Proofs about `contains_deflate` of src/client.rs.
use ws_pmd_rs.Base.{
  ◌≡◌, refl, ap, ◌∙◌, Bool, true, false, List, [], ◌∷◌, ◌++◌, Bytes, if◌then◌else◌, ok-injective,
  ok, >>=-eq-ok,
}
use ws_pmd_rs.Grammar.Split.{elements}
use ws_pmd_rs.Grammar.Params.{is_deflate}
use ws_pmd_rs.Grammar.Deflate.{deflate_in, deflate_elements}
use ws_pmd_rs.Client.Scan.{contains_in, contains_deflate}

-- One element of the list, and the rest of it.
pub deflate_in-cons :
    (e : Bytes) (es : List Bytes) (d : Bool) {ds : List Bytes}
    → is_deflate e ≡ ok d
    → deflate_in es ≡ ok ds
    → deflate_in (e ∷ es) ≡ ok (if d then e ∷ ds else ds)
unfolding deflate_in
deflate_in-cons e es d h k = rw (h, k)

pub deflate_elements-cons :
    (l : Bytes) (ls : List Bytes) {es ds later : List Bytes}
    → elements l ≡ ok es
    → deflate_in es ≡ ok ds
    → deflate_elements ls ≡ ok later
    → deflate_elements (l ∷ ls) ≡ ok (ds ++ later)
unfolding deflate_elements
deflate_elements-cons l ls h k m = rw (h, k, m)

contains_in-false : (es : List Bytes) → contains_in es ≡ ok false → deflate_in es ≡ ok []
unfolding contains_in
contains_in-false [] h = unfold deflate_in in refl
contains_in-false (e ∷ es) h =
    let (d, hd, rest) = >>=-eq-ok (is_deflate e) _ h in go d hd rest (contains_in-false es)
  where
    go :
        (d : Bool)
        → is_deflate e ≡ ok d
        → (if d then ok true else contains_in es) ≡ ok false
        → (contains_in es ≡ ok false → deflate_in es ≡ ok [])
        → deflate_in (e ∷ es) ≡ ok []
    go true hd r ih = cc
    go false hd r ih = deflate_in-cons e es false hd (ih r)

-- A field in which the scan finds no `permessage-deflate` element has none.
pub contains_deflate-false :
    (ls : List Bytes) → contains_deflate ls ≡ ok false → deflate_elements ls ≡ ok []
unfolding contains_deflate
contains_deflate-false [] h = unfold deflate_elements in refl
contains_deflate-false (l ∷ ls) h =
    let (es, he, r) = >>=-eq-ok (elements l) _ h in
    let (d, hd, rest) = >>=-eq-ok (contains_in es) _ r in
    go es he d hd rest (contains_deflate-false ls)
  where
    go :
        (es : List Bytes)
        → elements l ≡ ok es
        → (d : Bool) → contains_in es ≡ ok d
        → (if d then ok true else contains_deflate ls) ≡ ok false
        → (contains_deflate ls ≡ ok false → deflate_elements ls ≡ ok [])
        → deflate_elements (l ∷ ls) ≡ ok []
    go es he true hd r ih = cc
    go es he false hd r ih = deflate_elements-cons l ls he (contains_in-false es hd) (ih r)

false-contains_in : (es : List Bytes) → deflate_in es ≡ ok [] → contains_in es ≡ ok false
unfolding contains_in deflate_in
false-contains_in [] h = refl
false-contains_in (e ∷ es) h =
    let (d, hd, r) = >>=-eq-ok (is_deflate e) _ {result = []} h in
    let (ds, hs, k) = >>=-eq-ok (deflate_in es) _ {result = []} r in
    go d hd ds (ok-injective k) (λ e. false-contains_in es (hs ∙ ap ok e))
  where
    go :
        (d : Bool)
        → is_deflate e ≡ ok d
        → (ds : List Bytes) → (if d then e ∷ ds else ds) ≡ []
        → (ds ≡ [] → contains_in es ≡ ok false)
        → contains_in (e ∷ es) ≡ ok false
    go true hd ds k ih = cc
    go false hd ds k ih = rw hd (ih k)

append_nils : (xs ys : List Bytes) → xs ++ ys ≡ [] → (xs ≡ []) × (ys ≡ [])
append_nils [] ys h = (refl, h)
append_nils (x ∷ xs) ys h = cc

-- And the scan goes through, and finds nothing, where the field has none.
pub false-contains_deflate :
    (ls : List Bytes) → deflate_elements ls ≡ ok [] → contains_deflate ls ≡ ok false
unfolding contains_deflate deflate_elements
false-contains_deflate [] h = refl
false-contains_deflate (l ∷ ls) h =
    let (es, he, r) = >>=-eq-ok (elements l) _ {result = []} h in
    let (here, hh, k) = >>=-eq-ok (deflate_in es) _ {result = []} r in
    let (later, hl, j) = >>=-eq-ok (deflate_elements ls) _ {result = []} k in
    let (none_here, none_later) = append_nils here later (ok-injective j) in
    rw (he, false-contains_in es (hh ∙ ap ok none_here))
      (false-contains_deflate ls (hl ∙ ap ok none_later))
