-- ===== src/Fuzz/Decoder.antt =====
-- fuzz/fuzz_targets/decoder.rs: the target. A failed assertion is a panic.
pub mod Holds
pub mod Target
use ws_pmd_rs.Base.{
  ℕ, Bool, true, false, [], ◌∷◌, List, Bytes, Option, none, some, leb, length, if◌then◌else◌,
  and_then, Outcome, ok, err, panic,
}
use ws_pmd_rs.Error.{CodecError, poisoned as poisoned_error}
use ws_pmd_rs.Http.{Http}
use ws_pmd_rs.Codec.Backend.{Backend}
use ws_pmd_rs.Codec.Numbers.{saturating_add}
use ws_pmd_rs.Codec.Inflater.{Decoder}
use ws_pmd_rs.Codec.Decompress.{decompress}
use ws_pmd_rs.Encoder.Backend as Deflate
use ws_pmd_rs.Fuzz.Fragments.{Fragment, fragments}
use ws_pmd_rs.Fuzz.Fields.{Fields}
use ws_pmd_rs.Fuzz.Client.{client_decoder}

abbrev Run : Type 0
Run = Option (Outcome CodecError (Unit {0}))

-- `assert!(matches!(result, Err(CodecError::Poisoned)))`, and what follows
abbrev pub assert_poisoned : Outcome CodecError Bytes → Run → Run
assert_poisoned (ok output) next = some panic
assert_poisoned (err CodecError.poisoned) next = next
assert_poisoned (err e) next = some panic
assert_poisoned panic next = some panic

module _ (D : Backend) where
  -- The body of the loop behind its first call, where nothing has failed before; `next` is the rest
  -- of the loop, by the decoder, what was delivered and whether something failed.
  abbrev pub mirror :
      (Decoder D → ℕ → Bool → Run) → Fragment → ℕ → Decoder D → Outcome CodecError Bytes → Run
  mirror next f delivered decoder (ok output) =
      let total = saturating_add delivered (length output) in
      if leb total f.limit
      then next decoder (if f.final_fragment then 0 else total) false
      else some panic
  mirror next f delivered decoder (err e) =
      and_then (decompress D f.limit decoder [] true)
        (λ after. assert_poisoned after.result (next after.decoder delivered true))
  mirror next f delivered decoder panic = some panic

  -- The loop over the fragments.
  unfoldable pub probe : List Fragment → Decoder D → ℕ → Bool → Run
  probe [] decoder delivered poisoned = some (ok tt)
  probe (f ∷ fs) decoder delivered poisoned =
      and_then (decompress D f.limit decoder f.bytes f.final_fragment) (λ r.
        if poisoned
        then assert_poisoned r.result (probe fs r.decoder delivered true)
        else mirror (probe fs) f delivered r.decoder r.result)

  abbrev pub probe_with : List Fragment → Outcome CodecError (Decoder D) → Run
  probe_with fs (ok decoder) = probe fs decoder 0 false
  probe_with fs (err e) = some (err e)
  probe_with fs panic = some panic

  unfoldable pub decoder_target : (H : Http) → Fields H → Deflate.Backend → ℕ → Bytes → Run
  decoder_target H F E default_level input =
      and_then (fragments input) (λ fs. probe_with fs (client_decoder H F E D default_level))
