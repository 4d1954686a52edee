-- ===== src/Handshake/Codecs.antt =====
-- src/codec.rs: `Negotiated::into_codecs`, where the handshake meets the codecs.
use ws_pmd_rs.Base.{Outcome, ok, ◌>>=◌}
use ws_pmd_rs.Error.{CodecError}
use ws_pmd_rs.Config.{EncoderConfig}
use ws_pmd_rs.Negotiated.{Negotiated}
use ws_pmd_rs.Codec.Backend as Inflate
use ws_pmd_rs.Codec.Inflater.{Decoder, decoder_for}
use ws_pmd_rs.Encoder.Backend as Deflate
use ws_pmd_rs.Encoder.Transaction.{Encoder, for_agreement}

module _ (E : Deflate.Backend) (D : Inflate.Backend) where
  pub record Codecs : Type 0 where
    pub encoder : Encoder E
    pub decoder : Decoder D

  unfoldable pub into_codecs : Negotiated → EncoderConfig → Outcome CodecError Codecs
  into_codecs n config = do
    encoder ← for_agreement E n config
    decoder ← decoder_for D n
    ok (record { encoder = encoder; decoder = decoder })
