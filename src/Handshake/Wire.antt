-- ===== src/Handshake/Wire.antt =====
-- Proofs about a whole handshake.
use ws_pmd_rs.Base.{
  ◌≡◌, refl, ap, ◌∙◌, sym, List, [], ◌∷◌, ◌++◌, Bytes, none, some, inl, inr, ok, ok-injective,
}
use ws_pmd_rs.Error.{response_altered}
use ws_pmd_rs.Http.{Http, lines}
use ws_pmd_rs.Config.{ServerConfig}
use ws_pmd_rs.Config.Server.Valid.{IsValid as ServerIsValid}
use ws_pmd_rs.Grammar.Trim.{trim}
use ws_pmd_rs.Grammar.Params.{Params, parse_params}
use ws_pmd_rs.Grammar.Validate.Correct.{validate-HasElements}
use ws_pmd_rs.Negotiated.{compatible}
use ws_pmd_rs.Client.Scan.{sole_deflate}
use ws_pmd_rs.Client.Scan.Sole.{sole_deflate-sole_of}
use ws_pmd_rs.Client.Scan.Correct.{count_written-AllWritten}
use ws_pmd_rs.Server
use ws_pmd_rs.Server.{accept, resolve}
use ws_pmd_rs.Server.Select.{ServerHandshake}
use ws_pmd_rs.Server.Select.Correct.{Supportable}
use ws_pmd_rs.Server.Select.Proposal.{Proposed}
use ws_pmd_rs.Server.Accept.{accept-Answer}
use ws_pmd_rs.Handshake.Carried.{Carries}

module _ (H : Http) where
  -- A server answers a field that carries one alternative which it can serve.
  pub accept-Carries :
      (s : ServerConfig) (headers : H.HeaderMap) (text : Bytes) (offer : Params)
      → ServerIsValid s
      → Carries H headers text
      → parse_params text ≡ ok offer
      → Supportable s offer
      → (h : ServerHandshake H) × (accept H s headers ≡ ok (some h)) × Proposed H s offer h
  accept-Carries s headers text offer v c read u =
      let (ds, listed, answer) = accept-Answer H s v headers c.accepted in
      let one : ds ≡ text ∷ [] = ok-injective (sym listed ∙ c.sole) in
      elim answer [
        | inl (h, k, served) ↦ (
          h,
          k,
          proposed h served.before served.element served.after served.offer
              (sym one ∙ served.joined) served.read served.proposed,
        )
        | inr (k, passed) ↦ absurd ((rw one at passed).0 offer read u)
      ]
    where
      proposed :
          (h : ServerHandshake H) (before : List Bytes) (e : Bytes) (after : List Bytes)
          (p : Params)
          → text ∷ [] ≡ before ++ e ∷ after
          → parse_params e ≡ ok p
          → Proposed H s p h
          → Proposed H s offer h
      proposed h [] e after p j r q =
          let same : e ≡ text = cc in
          let as_offered : p ≡ offer = ok-injective (sym r ∙ ap parse_params same ∙ read) in
          rw (← as_offered) q
      proposed h (x ∷ []) e after p j r q = cc
      proposed h (x ∷ y ∷ ys) e after p j r q = cc

  -- A server finds its proposal in the response.
  pub finish-Carries :
      (h : ServerHandshake H) (response : H.HeaderMap)
      → Carries H response (H.as_bytes h.proposed)
      → trim (H.as_bytes h.proposed) ≡ H.as_bytes h.proposed
      → Server.finish H h response compatible ≡ ok (some h.agreement)
  unfolding Server.finish resolve
  finish-Carries h response c kept =
      rw
        (
          c.accepted,
          count_written-AllWritten response_altered (H.as_bytes h.proposed) (lines H response) 0
              c.sole (kept, tt),
        )
        refl

  -- A client reads what the response carries.
  pub sole_deflate-Carries :
      (response : H.HeaderMap) (text : Bytes) (p : Params)
      → Carries H response text
      → parse_params text ≡ ok p
      → sole_deflate (lines H response) none ≡ ok (some p)
  sole_deflate-Carries response text p c read =
      let (ds, listed, answered) =
        sole_deflate-sole_of (lines H response)
          (validate-HasElements (lines H response) c.accepted) in
      let one : ds ≡ text ∷ [] = ok-injective (sym listed ∙ c.sole) in
      answered ∙ rw (one, read) refl
