-- ===== src/Server/Accept.antt =====
-- Proofs about `ServerConfig::accept` of src/server.rs.
use ws_pmd_rs.Base.{
  ◌≡◌, ◌⊎◌, refl, ap, ◌∙◌, sym, Bool, true, false, List, [], ◌∷◌, ◌++◌, append_assoc, Bytes, Option,
  none, some, inl, inr, All, All-append, Outcome, Outcome-cases, ok-injective, ok,
}
use ws_pmd_rs.Error.{NegotiationError}
use ws_pmd_rs.Http.{Http, lines}
use ws_pmd_rs.Config.{ServerConfig}
use ws_pmd_rs.Config.Server.Valid.{IsValid}
use ws_pmd_rs.Grammar.Split.Join.{HasSegments, HasElements, elements-segments}
use ws_pmd_rs.Grammar.Params.{Params, is_deflate, parse_params}
use ws_pmd_rs.Grammar.Params.Blank.{is_deflate-total}
use ws_pmd_rs.Grammar.Params.Bounds.{parse_params-InRange}
use ws_pmd_rs.Grammar.NoPanic.{parse_params-NoPanic}
use ws_pmd_rs.Grammar.Validate.{validate}
use ws_pmd_rs.Grammar.Validate.Correct.{validate-HasElements}
use ws_pmd_rs.Grammar.Deflate.{deflate_in, deflate_elements}
use ws_pmd_rs.Client.Scan.Sole.{is_candidate-is_deflate}
use ws_pmd_rs.Server.{accept_element, accept_in, accept_lines, accept}
use ws_pmd_rs.Server.Select.{ServerHandshake}
use ws_pmd_rs.Server.Select.Correct.{Supportable, settle-cases}
use ws_pmd_rs.Server.Select.Proposal.{Proposed, select-Proposed, select-declined}

module _ (H : Http) (c : ServerConfig) where
  -- An element that `accept` goes past: its parameters cannot be read, or cannot be served.
  abbrev pub Passed : Bytes → Type 0
  Passed e = (p : Params) → parse_params e ≡ ok p → ¬ (Supportable c p)

  -- The first element that is not passed, and the handshake that is made of it.
  pub record Served (ds : List Bytes) (h : ServerHandshake H) : Type 0 where
    pub before : List Bytes
    pub element : Bytes
    pub after : List Bytes
    pub joined : ds ≡ before ++ element ∷ after
    pub passed : All Passed before
    pub offer : Params
    pub read : parse_params element ≡ ok offer
    pub supportable : Supportable c offer
    pub proposed : Proposed H c offer h

  abbrev pub Answer : List Bytes → Outcome NegotiationError (Option (ServerHandshake H)) → Type 0
  Answer ds a =
      ((h : ServerHandshake H) × (a ≡ ok (some h)) × Served ds h) ⊎ ((a ≡ ok none) × All Passed ds)

  record Read (e : Bytes) : Type 0 where
    offer : Params
    read : parse_params e ≡ ok offer
    supportable : Supportable c offer

  find_offer : (e : Bytes) → Read e ⊎ Passed e
  find_offer e = elim (Outcome-cases (parse_params e)) [
    | inr (inl (x, h)) ↦ inr (λ p k. cc (sym h ∙ k))
    | inr (inr h) ↦ absurd (parse_params-NoPanic e h)
    | inl (p, h) ↦ elim (settle-cases c p) [
      | inl (u, s) ↦ inl (record { offer = p; read = h; supportable = u })
      | inr (n, s) ↦ inr (λ q k u. n (same_offer p q (sym h ∙ k) u))
    ]
  ]
    where
      same_offer :
          (p q : Params)
          → ◌≡◌ {A = Outcome NegotiationError Params} (ok p) (ok q)
          → Supportable c q
          → Supportable c p
      same_offer p q h u = rw (ok-injective h) u

  accept_element-other : (e : Bytes) → is_deflate e ≡ ok false → accept_element H c e ≡ ok none
  unfolding accept_element
  accept_element-other e h = rw (is_candidate-is_deflate e h)

  accept_element-Passed :
      (e : Bytes) → is_deflate e ≡ ok true → Passed e → accept_element H c e ≡ ok none
  unfolding accept_element
  accept_element-Passed e h passed = elim (Outcome-cases (parse_params e)) [
    | inr (inl (x, k)) ↦ rw (is_candidate-is_deflate e h, k)
    | inr (inr k) ↦ absurd (parse_params-NoPanic e k)
    | inl (p, k) ↦ rw (is_candidate-is_deflate e h, k) (select-declined H c p (passed p k))
  ]

  accept_element-Read :
      (e : Bytes)
      → IsValid c
      → is_deflate e ≡ ok true
      → (r : Read e)
      → (h : ServerHandshake H) × (accept_element H c e ≡ ok (some h)) × Proposed H c r.offer h
  unfolding accept_element
  accept_element-Read e v d r =
      let (h, made, proposed) =
        select-Proposed H c r.offer v (parse_params-InRange e r.read) r.supportable in
      (h, rw (is_candidate-is_deflate e d, r.read) made, proposed)

  record Answered (found : Outcome NegotiationError (List Bytes))
      (a : Outcome NegotiationError (Option (ServerHandshake H))) : Type 0 where
    ds : List Bytes
    listed : found ≡ ok ds
    answer : Answer ds a

  Served-after :
      (xs : List Bytes) {ds : List Bytes} {h : ServerHandshake H}
      → All Passed xs
      → Served ds h
      → Served (xs ++ ds) h
  Served-after xs p s = record {
    before = xs ++ s.before;
    element = s.element;
    after = s.after;
    joined = ap (λ t. xs ++ t) s.joined ∙ sym (append_assoc xs s.before (s.element ∷ s.after));
    passed = All-append _ xs s.before p s.passed;
    offer = s.offer;
    read = s.read;
    supportable = s.supportable;
    proposed = s.proposed;
  }

  Served-before :
      (ys : List Bytes) {ds : List Bytes} {h : ServerHandshake H}
      → Served ds h
      → Served (ds ++ ys) h
  Served-before ys s = record {
    before = s.before;
    element = s.element;
    after = s.after ++ ys;
    joined = ap (λ t. t ++ ys) s.joined ∙ append_assoc s.before (s.element ∷ s.after) ys;
    passed = s.passed;
    offer = s.offer;
    read = s.read;
    supportable = s.supportable;
    proposed = s.proposed;
  }

  -- What is asked of the whole, put together from an element that was passed and the rest.
  Answer-cons :
      (e : Bytes) {ds : List Bytes} {a : Outcome NegotiationError (Option (ServerHandshake H))}
      → Passed e
      → Answer ds a
      → Answer (e ∷ ds) a
  Answer-cons e p (inl (h, k, s)) = inl (h, k, Served-after (e ∷ []) (p, tt) s)
  Answer-cons e p (inr (k, s)) = inr (k, (p, s))

  module _ (v : IsValid c) where
    accept_in-Answered :
        (es : List Bytes) → All HasSegments es → Answered (deflate_in es) (accept_in H c es)
    unfolding accept_in deflate_in
    accept_in-Answered [] h = record { ds = []; listed = refl; answer = inr (refl, tt) }
    accept_in-Answered (e ∷ es) h =
        let (d, hd) = is_deflate-total e h.0 in go d hd (accept_in-Answered es h.1) (find_offer e)
      where
        go :
            (d : Bool)
            → is_deflate e ≡ ok d
            → Answered (deflate_in es) (accept_in H c es)
            → Read e ⊎ Passed e
            → Answered (deflate_in (e ∷ es)) (accept_in H c (e ∷ es))
        go false hd ih r = record {
          ds = ih.ds;
          listed = rw (hd, ih.listed);
          answer = rw (accept_element-other e hd) ih.answer;
        }
        go true hd ih (inr p) = record {
          ds = e ∷ ih.ds;
          listed = rw (hd, ih.listed);
          answer = rw (accept_element-Passed e hd p) (Answer-cons e p ih.answer);
        }
        go true hd ih (inl r) =
            let (h, made, proposed) = accept_element-Read e v hd r in
            record {
              ds = e ∷ ih.ds;
              listed = rw (hd, ih.listed);
              answer = inl (
                h,
                rw made,
                record {
                  before = [];
                  element = e;
                  after = ih.ds;
                  joined = refl;
                  passed = tt;
                  offer = r.offer;
                  read = r.read;
                  supportable = r.supportable;
                  proposed = proposed;
                },
              );
            }

    accept_lines-Answered :
        (ls : List Bytes)
        → All HasElements ls
        → Answered (deflate_elements ls) (accept_lines H c ls)
    unfolding accept_lines deflate_elements
    accept_lines-Answered [] h = record { ds = []; listed = refl; answer = inr (refl, tt) }
    accept_lines-Answered (l ∷ ls) ((es, he), hs) =
        let here = accept_in-Answered es (elements-segments l he) in
        let later = accept_lines-Answered ls hs in
        record {
          ds = here.ds ++ later.ds;
          listed = rw (he, here.listed, later.listed);
          answer = elim here.answer [
            | inl (h, k, s) ↦ inl (h, rw (he, k), Served-before later.ds s)
            | inr (k, passed) ↦
                rw (he, k)
                  (elim later.answer [
                    | inl (h, m, s) ↦ inl (h, m, Served-after here.ds passed s)
                    | inr (m, rest) ↦ inr (m, All-append _ here.ds later.ds passed rest)
                  ])
          ];
        }

    -- On a field that `validate` accepts, and for a valid configuration, `accept` goes through the
    -- `permessage-deflate` elements of all lines in order, past those that cannot be read or
    -- served, and answers the first other one with its proposal; it answers nothing where all are
    -- passed, and never fails or panics.
    pub accept-Answer :
        (headers : H.HeaderMap)
        → validate (lines H headers) ≡ ok tt
        → (ds : List Bytes) × (deflate_elements (lines H headers) ≡ ok ds)
          × Answer ds (accept H c headers)
    unfolding accept
    accept-Answer headers h =
        let r =
          accept_lines-Answered (lines H headers) (validate-HasElements (lines H headers) h) in
        (r.ds, r.listed, rw h r.answer)
