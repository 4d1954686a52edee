-- ===== src/Codec/Step.antt =====
-- src/codec.rs: `step`, one call of the backend.
use ws_pmd_rs.Base.{
  ℕ, Bool, true, false, not, ◌||◌, Bytes, Option, none, some, ◌==◌, length, slice_from, is_empty,
  if◌then◌else◌, Outcome, ok, err, ◌>>=◌,
}
use ws_pmd_rs.Error.{CodecError, invalid_stream, stalled}
use ws_pmd_rs.Codec.Backend.{Backend, Status, status_ok, buf_error, stream_end}
use ws_pmd_rs.Codec.Numbers.{advance}

pub record Step : Type 0 where
  pub produced : ℕ
  pub remaining : Option Bytes
  pub stream_ended : Bool

-- `status == Status::StreamEnd`
abbrev pub is_stream_end : Status → Bool
is_stream_end stream_end = true
is_stream_end status_ok = false
is_stream_end buf_error = false

-- The rest of `step` behind the call, on the status and what was consumed and produced.
unfoldable pub judge : Option Status → ℕ → ℕ → Bytes → Outcome CodecError Step
judge none consumed produced input = err invalid_stream
judge (some code) consumed produced input = do
  unconsumed ← slice_from consumed input
  if not (consumed == 0) || not (produced == 0)
      then ok (record {
        produced = produced;
        remaining = some unconsumed;
        stream_ended = is_stream_end code;
      })
      else if is_empty unconsumed
      then ok (record { produced = produced; remaining = none; stream_ended = is_stream_end code })
      else err stalled

module _ (B : Backend) (inflater : B.Decompress) (input scratch : Bytes) where
  unfoldable pub consumed_by : ℕ
  consumed_by =
      advance (B.total_in inflater) (B.total_in (B.state_after inflater input scratch))
        (length input)

  unfoldable pub produced_by : ℕ
  produced_by =
      advance (B.total_out inflater) (B.total_out (B.state_after inflater input scratch))
        (length scratch)

  -- `step`; the inflater and the buffer after it are the backend's `state_after` and `buffer_after`
  unfoldable pub step : Outcome CodecError Step
  step = judge (B.status_of inflater input scratch) consumed_by produced_by input
