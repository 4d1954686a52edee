-- ===== src/Encoder/Drive.antt =====
-- src/encoder.rs: `drive` and the loops over it.
pub mod Rounds
pub mod Wrote
pub mod Feeding
pub mod Flushing
pub mod Whole
use ws_pmd_rs.Base.{
  ℕ, zero, suc, ◌-◌, ◌&&◌, ◌||◌, ◌++◌, [], ◌∷◌, Bytes, Option, none, some, ◌==◌, leb, ltb, length,
  drop, is_empty, if◌then◌else◌, and_then, Outcome, ok, err, panic, ◌>>=◌,
}
use ws_pmd_rs.Error.{CodecError, compression_failed, stalled}
use ws_pmd_rs.Codec.Numbers.{usize_max, trailer}
use ws_pmd_rs.Encoder.Backend.{Backend, Flush, flush_none, flush_sync, Status, stream_end}
use ws_pmd_rs.Encoder.Frame.{room_for, ends_with, strip_or_synthesize}

pub record Round : Type 0 where
  pub consumed : ℕ
  pub produced : ℕ
  pub room : ℕ

-- The checks of `drive` behind its call.
unfoldable pub measure : Option Status → ℕ → ℕ → ℕ → Outcome CodecError Round
measure none consumed produced room = err compression_failed
measure (some stream_end) consumed produced room = err compression_failed
measure (some _) consumed produced room =
    if leb consumed usize_max
    then ok (record { consumed = consumed; produced = produced; room = room })
    else err compression_failed

module _ (B : Backend) where
  -- What the calls change: the compressor, and the output vector with its capacity.
  pub record Work : Type 0 where
    pub compressor : B.Compress
    pub output : Bytes
    pub capacity : ℕ

  -- What a call returns, with the state that it leaves.
  pub record Ran {ℓ} (A : Type ℓ) : Type ℓ where
    pub work : Work
    pub answer : Outcome CodecError A

  -- `output.reserve(room)`, and the spare capacity after it
  abbrev pub capacity_for : Work → ℕ → ℕ
  capacity_for w room = B.reserved w.capacity (length w.output) room

  abbrev pub spare : Work → ℕ → ℕ
  spare w room = capacity_for w room - length w.output

  -- That a `Vec` cannot grow, where `reserve` panics, is not modelled.
  unfoldable pub drive : Work → Bytes → Flush → ℕ → Ran Round
  drive w input flush room =
      let after = B.state_after w.compressor input (spare w room) flush in
      record {
        work = record {
          compressor = after;
          output = w.output ++ B.appended w.compressor input (spare w room) flush;
          capacity = capacity_for w room;
        };
        answer =
            measure (B.status_of w.compressor input (spare w room) flush)
              (B.total_in after - B.total_in w.compressor)
              (B.total_out after - B.total_out w.compressor) (spare w room);
      }

  -- `input.get(round.consumed..)`
  abbrev pub rest_of : Bytes → ℕ → Outcome CodecError Bytes
  rest_of input consumed =
      if leb consumed (length input) then ok (drop consumed input) else err compression_failed

  -- The rest of a round of `feed`: the input that is left.
  unfoldable pub fed : Bytes → Outcome CodecError Round → Outcome CodecError Bytes
  fed input (ok r) =
      if (r.consumed == 0) && (r.produced == 0) then err stalled else rest_of input r.consumed
  fed input (err e) = err e
  fed input panic = panic

  abbrev pub feed_on :
      (Work → Bytes → Option (Ran (Unit {0})))
      → Work
      → Outcome CodecError Bytes
      → Option (Ran (Unit {0}))
  feed_on again w (ok input) = again w input
  feed_on again w (err e) = some (record { work = w; answer = err e })
  feed_on again w panic = some (record { work = w; answer = panic })

  -- `feed`, for at most `fuel` rounds
  unfoldable pub feed : ℕ → ℕ → Work → Bytes → Option (Ran (Unit {0}))
  feed fuel room w [] = some (record { work = w; answer = ok tt })
  feed zero room w (byte ∷ rest) = none
  feed (suc fuel) room w (byte ∷ rest) =
      let r = drive w (byte ∷ rest) flush_none room in
      feed_on (feed fuel room) r.work (fed (byte ∷ rest) r.answer)

  abbrev pub flush_on :
      (Work → Option (Ran (Unit {0}))) → Work → Outcome CodecError Round → Option (Ran (Unit {0}))
  flush_on again w (ok r) =
      if ltb r.produced r.room then some (record { work = w; answer = ok tt }) else again w
  flush_on again w (err e) = some (record { work = w; answer = err e })
  flush_on again w panic = some (record { work = w; answer = panic })

  -- `sync_flush`, for at most `fuel` rounds
  unfoldable pub sync_flush : ℕ → ℕ → Work → Option (Ran (Unit {0}))
  sync_flush zero room w = none
  sync_flush (suc fuel) room w =
      let r = drive w [] flush_sync room in flush_on (sync_flush fuel room) r.work r.answer

  abbrev pub flush_after :
      ℕ → ℕ → Ran (Unit {0}) → Outcome CodecError (Unit {0}) → Option (Ran (Unit {0}))
  flush_after fuel room r (ok u) = sync_flush fuel room r.work
  flush_after fuel room r (err e) = some r
  flush_after fuel room r panic = some r

  -- `produce_aligned`; the output is that of the state that it leaves
  unfoldable pub produce_aligned : ℕ → B.Compress → Bytes → Option (Ran (Unit {0}))
  produce_aligned fuel compressor payload =
      let room = room_for (length payload) in
      and_then
        (feed fuel room (record { compressor = compressor; output = []; capacity = 0 }) payload)
        (λ r. flush_after fuel room r r.answer)

  -- A compressor and what a call on it returned.
  pub record Produced : Type 0 where
    pub compressor : B.Compress
    pub message : Outcome CodecError Bytes

  unfoldable pub produce : ℕ → B.Compress → Bytes → Option Produced
  produce fuel compressor payload = and_then (produce_aligned fuel compressor payload) (λ r.
      some (record {
        compressor = r.work.compressor;
        message = r.answer >>= λ u. strip_or_synthesize payload r.work.output;
      }))

  -- `fragment.ends_with(TRAILER) || (payload.is_empty() && fragment.is_empty())`, or an error
  unfoldable pub check_aligned : Bytes → Bytes → Outcome CodecError Bytes
  check_aligned payload fragment =
      if ends_with fragment trailer || (is_empty payload && is_empty fragment)
      then ok fragment
      else err compression_failed

  unfoldable pub produce_non_final : ℕ → B.Compress → Bytes → Option Produced
  produce_non_final fuel compressor payload =
      and_then (produce_aligned fuel compressor payload) (λ r. some (record {
        compressor = r.work.compressor;
        message = r.answer >>= λ u. check_aligned payload r.work.output;
      }))
