-- ===== src/Codec/Inflater.antt =====
-- src/codec.rs: `InflaterConfig` and `Decoder`.
use ws_pmd_rs.Base.{ℕ, Bool, false, ◌==◌, ltb, if◌then◌else◌, Outcome, ok, expect, ◌>>=◌}
use ws_pmd_rs.Error.{CodecError}
use ws_pmd_rs.Negotiated.{Negotiated, peer_max_window_bits, peer_no_context_takeover}
use ws_pmd_rs.Codec.Backend.{Backend}

abbrev pub min_inflater_window_bits : ℕ
min_inflater_window_bits = 9

abbrev pub default_inflater_window_bits : ℕ
default_inflater_window_bits = 15

pub record InflaterConfig : Type 0 where
  pub zlib_header : Bool
  pub window_bits : ℕ

unfoldable pub for_peer_window : ℕ → InflaterConfig
for_peer_window peer_max_window_bits = record {
  zlib_header = false;
  window_bits =
      if ltb peer_max_window_bits min_inflater_window_bits
      then min_inflater_window_bits
      else peer_max_window_bits;
}

unfoldable pub resets_in_place : InflaterConfig → Bool
resets_in_place c = c.window_bits == default_inflater_window_bits

module _ (B : Backend) where
  unfoldable pub build : InflaterConfig → Outcome CodecError B.Decompress
  build c = expect (B.new_with_window_bits c.zlib_header c.window_bits)

  -- `InflaterConfig::reinitialise`: the inflater that takes the place of the old one
  unfoldable pub reinitialise_inflater :
      InflaterConfig → B.Decompress → Outcome CodecError B.Decompress
  reinitialise_inflater c inflater =
      if resets_in_place c then ok (B.reset inflater c.zlib_header) else build c

  pub record Decoder : Type 0 where
    pub config : InflaterConfig
    pub inflater : B.Decompress
    pub reset_between_messages : Bool
    pub stream_open : Bool
    pub delivered : ℕ
    pub poisoned : Bool

  -- The decoder half of `Negotiated::into_codecs`.
  unfoldable pub decoder_for : Negotiated → Outcome CodecError Decoder
  decoder_for n = do
    let config = for_peer_window (peer_max_window_bits n)
    inflater ← build config
    ok (record {
      config = config;
      inflater = inflater;
      reset_between_messages = peer_no_context_takeover n;
      stream_open = false;
      delivered = 0;
      poisoned = false;
    })

  -- `Decoder::reinitialise`
  unfoldable pub reinitialise : Decoder → Outcome CodecError Decoder
  reinitialise d = do
    inflater ← reinitialise_inflater d.config d.inflater
    ok (record d { inflater = inflater; stream_open = false })
