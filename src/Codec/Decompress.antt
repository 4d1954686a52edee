-- ===== src/Codec/Decompress.antt =====
-- src/codec.rs: `Decoder::decode` and `decompress`.
use ws_pmd_rs.Base.{
  ℕ, Bool, true, false, [], Bytes, Option, some, length, if◌then◌else◌, Outcome, ok, err, panic,
  and_then,
}
use ws_pmd_rs.Error.{CodecError, invalid_stream, poisoned as poisoned_error}
use ws_pmd_rs.Codec.Backend.{Backend}
use ws_pmd_rs.Codec.Numbers.{saturating_add, trailer}
use ws_pmd_rs.Codec.Inflater.{Decoder, reinitialise}
use ws_pmd_rs.Codec.Inflate.{Inflated, inflate}

module _ (B : Backend) (limit : ℕ) where
  pub record Decoded : Type 0 where
    pub decoder : Decoder B
    pub output : Bytes
    pub answer : Outcome CodecError (Unit {0})

  abbrev decoded : Inflated B limit → Outcome CodecError (Unit {0}) → Decoded
  decoded r a = record { decoder = r.decoder; output = r.output; answer = a }

  -- `if self.reset_between_messages { self.reinitialise() }`
  abbrev pub closed : Inflated B limit → Outcome CodecError (Decoder B) → Decoded
  closed r (ok d) = record { decoder = d; output = r.output; answer = ok tt }
  closed r (err e) = decoded r (err e)
  closed r panic = decoded r panic

  -- What follows the trailer.
  abbrev pub after_trailer : Inflated B limit → Outcome CodecError Bool → Decoded
  after_trailer r (ok true) = decoded r (err invalid_stream)
  after_trailer r (ok false) =
      if r.decoder.reset_between_messages
      then closed r (reinitialise B r.decoder)
      else decoded r (ok tt)
  after_trailer r (err e) = decoded r (err e)
  after_trailer r panic = decoded r panic

  -- What follows the input.
  abbrev pub after_input : Bool → Inflated B limit → Outcome CodecError Bool → Option Decoded
  after_input false r (ok ended) = some (decoded r (ok tt))
  after_input true r (ok ended) =
      if r.decoder.stream_open
      then and_then (inflate B limit r.decoder trailer r.output)
          (λ t. some (after_trailer t t.answer))
      else some (decoded r (err invalid_stream))
  after_input final r (err e) = some (decoded r (err e))
  after_input final r panic = some (decoded r panic)

  -- `decode`, on an output that is empty as `decompress` hands it on
  unfoldable pub decode : Decoder B → Bytes → Bool → Option Decoded
  decode d input final = and_then (inflate B limit d input []) (λ r. after_input final r r.answer)

  pub record Decompressed : Type 0 where
    pub decoder : Decoder B
    pub result : Outcome CodecError Bytes

  abbrev pub conclude : Bool → Decoded → Outcome CodecError (Unit {0}) → Decompressed
  conclude final r (ok u) = record {
    decoder = record r.decoder {
      delivered = if final then 0 else saturating_add r.decoder.delivered (length r.output);
    };
    result = ok r.output;
  }
  conclude final r (err e) = record {
    decoder = record r.decoder { poisoned = true };
    result = err e;
  }
  conclude final r panic = record { decoder = r.decoder; result = panic }

  unfoldable pub decompress : Decoder B → Bytes → Bool → Option Decompressed
  decompress d input final =
      if d.poisoned
      then some (record { decoder = d; result = err poisoned_error })
      else and_then (decode d input final) (λ r. some (conclude final r r.answer))
