-- ===== src/Fuzz/Fields/Sealed.antt =====
-- Proofs about the client that the fuzz targets share.
use ws_pmd_rs.Base.{◌≡◌, refl, ap, ◌∙◌, false, [], ◌∷◌, ◌++◌, Bytes, codes, All, map, arith, ok}
use ws_pmd_rs.Http.{Http, IsVisible, lines, lines-append}
use ws_pmd_rs.Config.Client as ClientConfig
use ws_pmd_rs.Config.Client.Valid.{IsValid, fresh, built_client-IsValid}
use ws_pmd_rs.Client.{ClientOffer, ClientHandshake}
use ws_pmd_rs.Client.Offer.{install-Installed}
use ws_pmd_rs.Client.Scan.{contains_deflate}
use ws_pmd_rs.Client.Seal.{sealed_handshake, install-seal}
use ws_pmd_rs.Fuzz.Fields.{Fields, sealed_client, bare}

pub new-IsValid : IsValid ClientConfig.new
new-IsValid = built_client-IsValid (fresh refl)

abbrev pub name_text : Bytes
name_text = codes "permessage-deflate"

name-IsVisible : All IsVisible name_text
name-IsVisible = ground arith

module _ (H : Http) (F : Fields H) where
  lines-empty : lines H F.empty ≡ []
  lines-empty = ap (map H.as_bytes) F.get_all-empty

  no_deflate : contains_deflate (lines H F.empty) ≡ ok false
  unfolding contains_deflate
  no_deflate = rw lines-empty refl

  -- The default offer is installed and sealed.
  pub record DefaultClient (h : ClientHandshake H) : Type 0 where
    pub offer : ClientOffer H
    pub after : H.HeaderMap
    pub config : offer.config ≡ ClientConfig.new
    pub is_sealed : h ≡ sealed_handshake H offer after

  pub sealed_client-total : (h : ClientHandshake H) × (sealed_client H F ≡ ok h) × DefaultClient h
  unfolding sealed_client
  sealed_client-total =
      let (offer, after, made, i) =
        install-Installed H ClientConfig.new F.empty new-IsValid no_deflate in
      (
        sealed_handshake H offer after,
        rw (made, install-seal H ClientConfig.new F.empty after offer i) refl,
        record { offer = offer; after = after; config = i.config_kept; is_sealed = refl },
      )

  -- The response that names the extension and nothing else.
  pub record BareResponse (v : H.HeaderValue) : Type 0 where
    pub one_line : lines H (H.append F.empty v) ≡ name_text ∷ []

  pub bare-total : (v : H.HeaderValue) × (bare H F ≡ ok v) × BareResponse v
  bare-total =
      let (v, made, text) = H.from_str-visible name_text name-IsVisible in
      (
        v,
        rw made refl,
        record {
          one_line =
              lines-append H F.empty v
              ∙ ap (λ t. t ++ H.as_bytes v ∷ []) lines-empty
              ∙ ap (λ t. t ∷ []) text;
        },
      )
