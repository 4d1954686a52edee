-- ===== src/Grammar/Deflate/Append.antt =====
-- The `permessage-deflate` elements of a field to which a line is added.
use ws_pmd_rs.Base.{
  ◌≡◌, ap, ◌∙◌, sym, true, List, [], ◌∷◌, ◌++◌, append_assoc, Bytes, ok, >>=-eq-ok, ok-injective,
}
use ws_pmd_rs.Grammar.Split.{elements}
use ws_pmd_rs.Grammar.Params.{is_deflate}
use ws_pmd_rs.Grammar.Deflate.{deflate_in, deflate_elements}

pub deflate_elements-append :
    (ls ms : List Bytes) {ds es : List Bytes}
    → deflate_elements ls ≡ ok ds
    → deflate_elements ms ≡ ok es
    → deflate_elements (ls ++ ms) ≡ ok (ds ++ es)
unfolding deflate_elements
deflate_elements-append [] ms {ds} {es} h k = k ∙ ap (λ t. ok (t ++ es)) (ok-injective h)
deflate_elements-append (l ∷ ls) ms {ds} {es} h k =
    let (here, he, j) = >>=-eq-ok (elements l) _ {result = ds} h in
    let (found, hf, i) = >>=-eq-ok (deflate_in here) _ {result = ds} j in
    let (later, hl, joined) = >>=-eq-ok (deflate_elements ls) _ {result = ds} i in
    rw (he, hf, deflate_elements-append ls ms hl k)
      (ap ok (sym (append_assoc found later es) ∙ ap (λ t. t ++ es) (ok-injective joined)))

-- A line that is one element, which names the extension.
pub deflate_elements_one :
    (l : Bytes)
    → elements l ≡ ok (l ∷ [])
    → is_deflate l ≡ ok true
    → deflate_elements (l ∷ []) ≡ ok (l ∷ [])
unfolding deflate_elements deflate_in
deflate_elements_one l he hd = rw (he, hd)
