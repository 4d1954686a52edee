-- ===== src/Fuzz/Client/Total.antt =====
-- Proofs about `client_decoder` of fuzz/src/lib.rs.
use ws_pmd_rs.Base.{ℕ, ◌≡◌, refl, ap, ◌∙◌, false, [], ◌∷◌, none, some, ok}
use ws_pmd_rs.Http.{Http}
use ws_pmd_rs.Config.Encoder as EncoderConfig
use ws_pmd_rs.Grammar.Running.{running}
use ws_pmd_rs.Grammar.Params.{Params, absent, parse_params}
use ws_pmd_rs.Grammar.Validate.{validate}
use ws_pmd_rs.Grammar.Deflate.{deflate_in, deflate_elements}
use ws_pmd_rs.Negotiated.{Negotiated, client, compatible}
use ws_pmd_rs.Client
use ws_pmd_rs.Config.Client as ClientConfig
use ws_pmd_rs.Client.{ClientHandshake}
use ws_pmd_rs.Client.Agree.{agree, server_window, client_window}
use ws_pmd_rs.Client.Finish.{client_finish_iff}
use ws_pmd_rs.Codec.Backend as Inflate
use ws_pmd_rs.Codec.Inflater.{Decoder}
use ws_pmd_rs.Codec.Sound.{Ready}
use ws_pmd_rs.Encoder.Backend as Deflate
use ws_pmd_rs.Handshake.Minted.{client-AgreedRange}
use ws_pmd_rs.Handshake.Minted.Agreed.{AgreedRange-codecs}
use ws_pmd_rs.Fuzz.Fields.{Fields}
use ws_pmd_rs.Fuzz.Fields.Sealed.{
  new-IsValid, name_text, DefaultClient, sealed_client-total, BareResponse, bare-total,
}
use ws_pmd_rs.Fuzz.Client.{client_decoder}

abbrev bare_params : Params
bare_params = record {
  server_no_context_takeover = false;
  client_no_context_takeover = false;
  server_max_window_bits = none;
  client_max_window_bits = absent;
}

-- What the default offer and the bare response agree to.
abbrev pub default_agreement : Negotiated
default_agreement = record {
  role = client;
  server_no_context_takeover = false;
  client_no_context_takeover = false;
  server_max_window_bits = 15;
  client_max_window_bits = 15;
}

bare-valid : validate (name_text ∷ []) ≡ ok tt
unfolding running
bare-valid = refl

bare-listed : deflate_elements (name_text ∷ []) ≡ ok (name_text ∷ [])
unfolding running deflate_in deflate_elements
bare-listed = refl

bare-read : parse_params name_text ≡ ok bare_params
unfolding running
bare-read = refl

bare-agreed : agree ClientConfig.new bare_params ≡ ok default_agreement
unfolding agree server_window client_window
bare-agreed = refl

module _ (H : Http) (F : Fields H) where
  bare-finish :
      (h : ClientHandshake H) (v : H.HeaderValue)
      → DefaultClient H F h
      → BareResponse H F v
      → Client.finish H h (H.append F.empty v) compatible ≡ ok (some default_agreement)
  bare-finish h v d b =
      (client_finish_iff H h (H.append F.empty v) compatible (name_text ∷ [])
          (ap validate b.one_line ∙ bare-valid) (ap deflate_elements b.one_line ∙ bare-listed)
          (some default_agreement)).1
        (record {
          offer = record { config = d.offer.config; sealed = d.offer.installed };
          element = name_text;
          params = bare_params;
          offered = ap (λ (h : ClientHandshake H). h.offer) d.is_sealed;
          sole = refl;
          read = bare-read;
          nothing_conflicts = refl;
          agrees = rw d.config bare-agreed;
        })

  module _ (E : Deflate.Backend) (D : Inflate.Backend) (default_level : ℕ) where
    -- `client_decoder` does not panic, and its decoder is ready for the default agreement.
    pub client_decoder-Ready :
        (d : Decoder D) × (client_decoder H F E D default_level ≡ ok d)
        × Ready D default_agreement d
    unfolding client_decoder
    client_decoder-Ready =
        let (h, sealed, is_default) = sealed_client-total H F in
        let (v, made, response) = bare-total H F in
        let (codecs, built, as_agreed) =
          AgreedRange-codecs E D default_agreement (EncoderConfig.new default_level) (
            client-AgreedRange H ClientConfig.new bare_params new-IsValid name_text bare-read
              bare-agreed) in
        (
          codecs.decoder,
          rw (sealed, made, bare-finish h v is_default response, built) refl,
          as_agreed.inflates,
        )
