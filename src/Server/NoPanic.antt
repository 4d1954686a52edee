-- ===== src/Server/NoPanic.antt =====
-- Proofs about `ServerConfig::accept` of src/server.rs, on any request.
use ws_pmd_rs.Base.{◌≡◌, refl, ◌∙◌, sym, inl, inr, err, Outcome-cases}
use ws_pmd_rs.Http.{Http, lines}
use ws_pmd_rs.Config.{ServerConfig}
use ws_pmd_rs.Config.Server.Valid.{IsValid}
use ws_pmd_rs.Grammar.Validate.{validate}
use ws_pmd_rs.Grammar.NoPanic.{NoPanic}
use ws_pmd_rs.Grammar.NoPanic.Field.{validate-NoPanic}
use ws_pmd_rs.Server.{accept}
use ws_pmd_rs.Server.Accept.{accept-Answer}

module _ (H : Http) (c : ServerConfig) (v : IsValid c) (headers : H.HeaderMap) where
  accepted : {e : _} → validate (lines H headers) ≡ err e → accept H c headers ≡ err e
  unfolding accept
  accepted h = rw h refl

  -- On any request `accept` at a valid configuration returns or fails, and never panics.
  pub accept-NoPanic : NoPanic (accept H c headers)
  accept-NoPanic = elim (Outcome-cases (validate (lines H headers))) [
    | inl (u, h) ↦
        let (ds, listed, answer) = accept-Answer H c v headers h in
        λ q. elim answer [ inl (k, a, s) ↦ cc (sym a ∙ q) | inr (a, s) ↦ cc (sym a ∙ q) ]
    | inr (inl (e, h)) ↦ λ q. cc (sym (accepted h) ∙ q)
    | inr (inr h) ↦ absurd (validate-NoPanic (lines H headers) h)
  ]
