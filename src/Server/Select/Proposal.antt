-- ===== src/Server/Select/Proposal.antt =====
-- Proofs about `select` of src/server.rs.
use ws_pmd_rs.Base.{◌≡◌, Bytes, none, some, ok, inl, inr}
use ws_pmd_rs.Http.{Http}
use ws_pmd_rs.Config.{ServerConfig}
use ws_pmd_rs.Config.Server.Valid.{IsValid}
use ws_pmd_rs.Grammar.Params.{Params, parse_params}
use ws_pmd_rs.Grammar.Params.Bounds.{ParamsInRange}
use ws_pmd_rs.Negotiated.Render.{render, render_string}
use ws_pmd_rs.Negotiated.Render.Element.{render_string-IsVisible}
use ws_pmd_rs.Negotiated.Render.RoundTrip.{params_meant, parse_params-render_string}
use ws_pmd_rs.Server.Select.{echoed, settle, agreement_of, ServerHandshake, propose, select}
use ws_pmd_rs.Server.Select.Correct.{
  Supportable, settled, choice, settle-cases, Sound, Supportable-Sound,
}

-- The bytes of the proposal, and the parameters that they mean.
abbrev pub proposal_text : ServerConfig → Params → Bytes
proposal_text c offer =
    let s = choice c offer in
    render_string s.server_takeover s.client_takeover s.server_bits (echoed s.client_bits)

abbrev pub reply : ServerConfig → Params → Params
reply c offer =
    let s = choice c offer in
    params_meant s.server_takeover s.client_takeover s.server_bits (echoed s.client_bits)

module _ (H : Http) (c : ServerConfig) (offer : Params) where
  pub record Proposed (h : ServerHandshake H) : Type 0 where
    pub text : H.as_bytes h.proposed ≡ proposal_text c offer
    pub read_back : parse_params (H.as_bytes h.proposed) ≡ ok (reply c offer)
    pub agreement : h.agreement ≡ settled c offer

  propose-total :
      Sound c offer
      → (v : H.HeaderValue) × (propose H (choice c offer) ≡ ok v)
        × (H.as_bytes v ≡ proposal_text c offer)
  unfolding propose render
  propose-total r =
      let s = choice c offer in
      let (v, made, text) = H.from_str-visible (proposal_text c offer) (
        render_string-IsVisible s.server_takeover s.client_takeover s.server_bits
          (echoed s.client_bits) r.server_range r.client_range) in
      (v, rw made, text)

  -- A valid configuration answers an alternative that it can serve with a proposal, without a
  -- panic: its bytes are the rendering of what is settled, they read back as the parameters that
  -- were settled, and the agreement is the one that the two sides spell out.
  pub select-Proposed :
      IsValid c
      → ParamsInRange offer
      → Supportable c offer
      → (h : ServerHandshake H) × (select H c offer ≡ ok (some h)) × Proposed h
  unfolding select
  select-Proposed v r u =
      let sound = Supportable-Sound c offer v r u in
      let s = choice c offer in
      let (value, made, text) = propose-total sound in
      let taken : settle c offer ≡ some s = elim (settle-cases c offer) [
        | inl (w, e) ↦ e
        | inr (w, e) ↦ absurd (w u)
      ] in
      (
        record { proposed = value; agreement = agreement_of s },
        rw (taken, made),
        record {
          text = text;
          read_back = rw text (
              parse_params-render_string s.server_takeover s.client_takeover s.server_bits
                (echoed s.client_bits) sound.server_range sound.client_range);
          agreement = sound.agreement;
        },
      )

  -- It passes over every other one.
  pub select-declined : ¬ (Supportable c offer) → select H c offer ≡ ok none
  unfolding select
  select-declined n =
      let passed : settle c offer ≡ none = elim (settle-cases c offer) [
        | inl (w, e) ↦ absurd (n w)
        | inr (w, e) ↦ e
      ] in
      rw passed
