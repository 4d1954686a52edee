-- ===== src/Fuzz/Client.antt =====
-- fuzz/src/lib.rs: `client_decoder`.
pub mod Total
use ws_pmd_rs.Base.{ℕ, Outcome, ok, ◌>>=◌, expect}
use ws_pmd_rs.Error.{CodecError}
use ws_pmd_rs.Http.{Http}
use ws_pmd_rs.Config.Encoder as EncoderConfig
use ws_pmd_rs.Negotiated.{compatible}
use ws_pmd_rs.Client
use ws_pmd_rs.Codec.Backend as Inflate
use ws_pmd_rs.Codec.Inflater.{Decoder}
use ws_pmd_rs.Encoder.Backend as Deflate
use ws_pmd_rs.Handshake.Codecs.{into_codecs}
use ws_pmd_rs.Fuzz.Fields.{Fields, expect_ok, sealed_client, bare}

module _ (H : Http) (F : Fields H) (E : Deflate.Backend) (D : Inflate.Backend)
    (default_level : ℕ) where
  unfoldable pub client_decoder : Outcome CodecError (Decoder D)
  client_decoder = do
    half ← sealed_client H F
    value ← bare H F
    selected ← expect_ok (Client.finish H half (H.append F.empty value) compatible)
    agreed ← expect selected
    codecs ← into_codecs E D agreed (EncoderConfig.new default_level)
    ok codecs.decoder
