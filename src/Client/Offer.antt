-- ===== src/Client/Offer.antt =====
-- Proofs about `ClientConfig::install` of src/client.rs.
use ws_pmd_rs.Base.{
  ◌≡◌, refl, ap, ◌∙◌, false, [], ◌∷◌, Bytes, ◌==◌, arith, Bool-cases, inl, inr, ok,
}
use ws_pmd_rs.Http.{Http, lines, lines-append}
use ws_pmd_rs.Config.{ClientConfig}
use ws_pmd_rs.Config.Client.Valid.{IsValid}
use ws_pmd_rs.Negotiated.Render.{render, render_string}
use ws_pmd_rs.Negotiated.Render.Segments.{ServerInRange, ClientInRange}
use ws_pmd_rs.Negotiated.Render.Element.{
  render_string-IsVisible, elements-render_string, is_deflate-render_string,
}
use ws_pmd_rs.Grammar.Deflate.{deflate_elements}
use ws_pmd_rs.Grammar.Deflate.Append.{deflate_elements-append, deflate_elements_one}
use ws_pmd_rs.Client.{ClientOffer, server_bits_of, client_bits_of, render_offer, install}
use ws_pmd_rs.Client.Scan.{contains_deflate}
use ws_pmd_rs.Client.Scan.Contains.{contains_deflate-false}

module _ (c : ClientConfig) where
  -- The bytes of the offer.
  abbrev pub offer_text : Bytes
  offer_text =
      render_string c.server_no_context_takeover c.client_no_context_takeover (server_bits_of c)
        (client_bits_of c)

  module _ (v : IsValid c) where
    pub server_bits_of-InRange : ServerInRange (server_bits_of c)
    server_bits_of-InRange = elim (Bool-cases (c.server_max_window_bits == 15)) [
      | inl e ↦ rw e tt
      | inr n ↦ rw n (v.server_floor, v.server_ceiling)
    ]

    pub client_bits_of-InRange : ClientInRange (client_bits_of c)
    client_bits_of-InRange = elim (Bool-cases (c.client_max_window_bits == 15)) [
      | inl e ↦ rw e tt
      | inr n ↦ rw n (omega (arith, v.client_floor), v.client_ceiling)
    ]

    pub deflate_elements-offer : deflate_elements (offer_text ∷ []) ≡ ok (offer_text ∷ [])
    deflate_elements-offer =
        deflate_elements_one offer_text
          (elements-render_string c.server_no_context_takeover c.client_no_context_takeover
            (server_bits_of c) (client_bits_of c) server_bits_of-InRange client_bits_of-InRange)
          (is_deflate-render_string c.server_no_context_takeover c.client_no_context_takeover
            (server_bits_of c) (client_bits_of c) server_bits_of-InRange client_bits_of-InRange)

module _ (H : Http) (c : ClientConfig) where
  -- The rendering never panics.
  pub render_offer-total :
      IsValid c → (o : H.HeaderValue) × (render_offer H c ≡ ok o) × (H.as_bytes o ≡ offer_text c)
  unfolding render_offer render
  render_offer-total v =
      let (o, made, read) = H.from_str-visible (offer_text c) (
        render_string-IsVisible c.server_no_context_takeover c.client_no_context_takeover
          (server_bits_of c) (client_bits_of c) (server_bits_of-InRange c v)
          (client_bits_of-InRange c v)) in
      (o, rw made, read)

  -- What `install` answers on a request that it accepts.
  pub record Installed (headers : H.HeaderMap) (offer : ClientOffer H) (after : H.HeaderMap)
      : Type 0 where
    pub config_kept : offer.config ≡ c
    pub text : H.as_bytes offer.installed ≡ offer_text c
    pub appended : after ≡ H.append headers offer.installed
    -- The field had no such element before, and has this one after.
    pub before_none : deflate_elements (lines H headers) ≡ ok []
    pub sole_after : deflate_elements (lines H after) ≡ ok (offer_text c ∷ [])

  -- Where the scan of the request finds no `permessage-deflate` element, `install` with a valid
  -- configuration returns, and the request then has the rendered offer as its one such element.
  pub install-Installed :
      (headers : H.HeaderMap)
      → IsValid c
      → contains_deflate (lines H headers) ≡ ok false
      → (offer : ClientOffer H) × (after : H.HeaderMap) × (install H c headers ≡ ok (offer, after))
        × Installed headers offer after
  unfolding install
  install-Installed headers v h =
      let (o, made, text) = render_offer-total v in
      let clear = contains_deflate-false (lines H headers) h in
      let now : deflate_elements (lines H (H.append headers o)) ≡ ok (offer_text c ∷ []) =
        ap deflate_elements (lines-append H headers o)
        ∙ rw text (
            deflate_elements-append (lines H headers) (offer_text c ∷ []) clear
              (deflate_elements-offer c v)) in
      (
        record { config = c; installed = o },
        H.append headers o,
        rw (h, made),
        record {
          config_kept = refl;
          text = text;
          appended = refl;
          before_none = clear;
          sole_after = now;
        },
      )
