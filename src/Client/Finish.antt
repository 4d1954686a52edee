-- ===== src/Client/Finish.antt =====
-- Proofs about `ClientHandshake::finish` of src/client.rs.
use ws_pmd_rs.Base.{
  ◌≡◌, ◌↔◌, refl, ap, ◌∙◌, sym, List, [], ◌∷◌, Bytes, Option, none, some, ok, >>=-eq-ok,
  ok-injective, some-injective,
}
use ws_pmd_rs.Http.{Http, lines}
use ws_pmd_rs.Negotiated.{Negotiated, PmdComposition, compatible, conflict}
use ws_pmd_rs.Grammar.Params.{Params, parse_params}
use ws_pmd_rs.Grammar.Validate.{validate}
use ws_pmd_rs.Grammar.Validate.Correct.{validate-HasElements}
use ws_pmd_rs.Grammar.Deflate.{deflate_elements}
use ws_pmd_rs.Client.{SealedOffer, ClientHandshake, finish_selected, finish}
use ws_pmd_rs.Client.Agree.{agree}
use ws_pmd_rs.Client.Scan.{sole_deflate}
use ws_pmd_rs.Client.Scan.Sole.{sole_of, sole_deflate-sole_of}

module _ (H : Http) (h : ClientHandshake H) where
  -- What a response with this one element settles.
  pub record Accepts (composition : PmdComposition) (ds : List Bytes) (n : Negotiated)
      : Type 0 where
    pub offer : SealedOffer H
    pub element : Bytes
    pub params : Params
    pub offered : h.offer ≡ some offer
    pub sole : ds ≡ element ∷ []
    pub read : parse_params element ≡ ok params
    pub nothing_conflicts : composition ≡ compatible
    pub agrees : agree offer.config params ≡ ok n

  abbrev pub Settles : List Bytes → PmdComposition → Option Negotiated → Type 0
  Settles ds composition none = ds ≡ []
  Settles ds composition (some n) = Accepts composition ds n

  record Selected (offer : Option (SealedOffer H)) (composition : PmdComposition)
      (selected : Option Params) (n : Negotiated) : Type 0 where
    sealed : SealedOffer H
    params : Params
    offered : offer ≡ some sealed
    given : selected ≡ some params
    nothing_conflicts : composition ≡ compatible
    agrees : agree sealed.config params ≡ ok n

  finish_selected-Selected :
      (offer : Option (SealedOffer H)) (composition : PmdComposition) (selected : Option Params)
      {n : Negotiated}
      → finish_selected H offer composition selected ≡ ok (some n)
      → Selected offer composition selected n
  unfolding finish_selected
  finish_selected-Selected offer composition none k = cc
  finish_selected-Selected none composition (some p) k = cc
  finish_selected-Selected (some o) conflict (some p) k = cc
  finish_selected-Selected (some o) compatible (some p) {n} k =
      let (m, hm, made) = >>=-eq-ok (agree o.config p) _ {result = some n} k in
      record {
        sealed = o;
        params = p;
        offered = refl;
        given = refl;
        nothing_conflicts = refl;
        agrees = hm ∙ ap ok (some-injective (ok-injective made));
      }

  finish_selected-none :
      (offer : Option (SealedOffer H)) (composition : PmdComposition) (selected : Option Params)
      → finish_selected H offer composition selected ≡ ok none
      → selected ≡ none
  unfolding finish_selected
  finish_selected-none offer composition none k = refl
  finish_selected-none none composition (some p) k = cc
  finish_selected-none (some o) conflict (some p) k = cc
  finish_selected-none (some o) compatible (some p) k =
      let (m, hm, made) = >>=-eq-ok (agree o.config p) _ {result = none} k in cc made

  record Sole (ds : List Bytes) (p : Params) : Type 0 where
    element : Bytes
    sole : ds ≡ element ∷ []
    read : parse_params element ≡ ok p

  sole_of-none : (ds : List Bytes) → sole_of ds ≡ ok none → ds ≡ []
  sole_of-none [] k = refl
  sole_of-none (e ∷ []) k =
      let (p, hp, made) = >>=-eq-ok (parse_params e) _ {result = none} k in cc made
  sole_of-none (e ∷ f ∷ ds) k =
      let (p, hp, j) = >>=-eq-ok (parse_params e) _ {result = none} k in
      let (q, hq, made) = >>=-eq-ok (parse_params f) _ {result = none} j in cc made

  sole_of-Sole : (ds : List Bytes) {p : Params} → sole_of ds ≡ ok (some p) → Sole ds p
  sole_of-Sole [] k = cc
  sole_of-Sole (e ∷ []) {p} k =
      let (q, hq, made) = >>=-eq-ok (parse_params e) _ {result = some p} k in
      record { element = e; sole = refl; read = hq ∙ ap ok (some-injective (ok-injective made)) }
  sole_of-Sole (e ∷ f ∷ ds) {p} k =
      let (q, hq, j) = >>=-eq-ok (parse_params e) _ {result = some p} k in
      let (r, hr, made) = >>=-eq-ok (parse_params f) _ {result = some p} j in cc made

  module _ (headers : H.HeaderMap) (composition : PmdComposition) (ds : List Bytes)
      (valid : validate (lines H headers) ≡ ok tt)
      (listed : deflate_elements (lines H headers) ≡ ok ds) where
    answered : sole_deflate (lines H headers) none ≡ sole_of ds
    answered =
        let (es, found, a) =
          sole_deflate-sole_of (lines H headers) (validate-HasElements (lines H headers) valid) in
        a ∙ ap sole_of (ok-injective (sym found ∙ listed))

    finish-Settles :
        (o : Option Negotiated) → finish H h headers composition ≡ ok o → Settles ds composition o
    unfolding finish
    finish-Settles o k =
        let (u, hu, j) = >>=-eq-ok (validate (lines H headers)) _ {result = o} k in
        let (s, hs, r) = >>=-eq-ok (sole_deflate (lines H headers) none) _ {result = o} j in
        by_answer o s (sym answered ∙ hs) r
      where
        by_answer :
            (o : Option Negotiated) (s : Option Params)
            → sole_of ds ≡ ok s
            → finish_selected H h.offer composition s ≡ ok o
            → Settles ds composition o
        by_answer none s a r =
            sole_of-none ds (a ∙ ap ok (finish_selected-none h.offer composition s r))
        by_answer (some n) s a r =
            let q = finish_selected-Selected h.offer composition s r in
            let one = sole_of-Sole ds (a ∙ ap ok q.given) in
            record {
              offer = q.sealed;
              element = one.element;
              params = q.params;
              offered = q.offered;
              sole = one.sole;
              read = one.read;
              nothing_conflicts = q.nothing_conflicts;
              agrees = q.agrees;
            }

    Settles-finish :
        (o : Option Negotiated) → Settles ds composition o → finish H h headers composition ≡ ok o
    unfolding finish finish_selected
    Settles-finish none s = rw (valid, answered, s) refl
    Settles-finish (some n) s =
        rw (valid, answered, s.sole, s.read, s.offered, s.nothing_conflicts, s.agrees) refl

    -- On a field that the grammar accepts, `finish` declines exactly where the response has no
    -- `permessage-deflate` element, and agrees exactly where the handshake has an offer, the
    -- response has one such element, whose parameters can be read, nothing conflicts, and `agree`
    -- accepts them; in all other cases it does not return.
    pub client_finish_iff :
        (o : Option Negotiated) → (finish H h headers composition ≡ ok o) ↔ Settles ds composition o
    client_finish_iff o = (finish-Settles o, Settles-finish o)
