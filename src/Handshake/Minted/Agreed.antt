-- ===== src/Handshake/Minted/Agreed.antt =====
-- Proofs about `into_codecs` of src/codec.rs, on the agreements that the handshakes make.
use ws_pmd_rs.Base.{ℕ, ◌≤◌, ◌≡◌, refl, true, false, some, arith, within, ok}
use ws_pmd_rs.Http.{Http}
use ws_pmd_rs.Config.{EncoderConfig}
use ws_pmd_rs.Negotiated.{Negotiated, local_max_window_bits, local_no_context_takeover}
use ws_pmd_rs.Codec.Backend as Inflate
use ws_pmd_rs.Codec.Sound.{Ready, decoder_for-Ready}
use ws_pmd_rs.Encoder.Backend as Deflate
use ws_pmd_rs.Encoder.Transaction.{build, for_local, for_agreement}
use ws_pmd_rs.Handshake.Codecs.{Codecs, into_codecs}
use ws_pmd_rs.Handshake.Minted.{AgreedRange, Minted}

-- The codecs that an agreement asks for: the encoder has a compressor of the agreed level and
-- width, the decoder is ready for every width of the peer, and each resets between messages as
-- agreed.
pub record AsAgreed (E : Deflate.Backend) (D : Inflate.Backend) (n : Negotiated)
    (config : EncoderConfig) (codecs : Codecs E D) : Type 0 where
  pub compresses :
      codecs.encoder.compressor
      ≡ some (E.new_with_window_bits config.level false (local_max_window_bits n))
  pub resets : codecs.encoder.reset_between_messages ≡ local_no_context_takeover n
  pub inflates : Ready D n codecs.decoder

module _ (E : Deflate.Backend) (D : Inflate.Backend) (n : Negotiated) (config : EncoderConfig) where
  pub AgreedRange-codecs :
      AgreedRange n
      → (codecs : Codecs E D) × (into_codecs E D n config ≡ ok codecs)
        × AsAgreed E D n config codecs
  unfolding into_codecs for_agreement build for_local
  AgreedRange-codecs r =
      let (d, made, ready) = decoder_for-Ready D n r.peer_floor r.peer_ceiling in
      let fits : within 9 15 (local_max_window_bits n) ≡ true =
        in_range (local_max_window_bits n) r.local_floor r.local_ceiling in
      (
        record {
          encoder = record {
            compressor = some (E.new_with_window_bits config.level false (local_max_window_bits n));
            reset_between_messages = local_no_context_takeover n;
          };
          decoder = d;
        },
        rw (fits, made) refl,
        record { compresses = refl; resets = refl; inflates = ready },
      )
    where
      in_range : (w : ℕ) → 9 ≤ w → w ≤ 15 → within 9 15 w ≡ true
      in_range w lo hi = ground arith
