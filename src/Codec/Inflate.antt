-- ===== src/Codec/Inflate.antt =====
-- src/codec.rs: `Decoder::inflate`.
use ws_pmd_rs.Base.{
  ℕ, zero, suc, ◌+◌, ◌-◌, Bool, true, false, ◌++◌, Bytes, Option, none, some, ltb, min, length,
  slice_to, drop, replicate, if◌then◌else◌, Outcome, ok, err, panic, ◌>>=◌,
}
use ws_pmd_rs.Error.{CodecError, message_too_long}
use ws_pmd_rs.Codec.Backend.{Backend}
use ws_pmd_rs.Codec.Numbers.{saturating_add, scratch_length}
use ws_pmd_rs.Codec.Inflater.{Decoder, reinitialise}
use ws_pmd_rs.Codec.Step.{Step, step}

module _ (B : Backend) (limit : ℕ) where
  -- The variables of the loop, and the decoder.
  pub record Loop : Type 0 where
    pub decoder : Decoder B
    pub input : Bytes
    pub output : Bytes
    pub scratch : Bytes
    pub ended_a_stream : Bool

  -- What a round leaves: the variables, and an error, `ok true` to go round again, `ok false` to
  -- return.
  pub record Round : Type 0 where
    pub after : Loop
    pub verdict : Outcome CodecError Bool

  -- `min`-ed with the length of the scratch buffer
  unfoldable pub writable : Loop → ℕ
  writable l =
      let produced_so_far = saturating_add l.decoder.delivered (length l.output) in
      min (saturating_add (limit - produced_so_far) 1) (length l.scratch)

  abbrev pub opened : Decoder B → ℕ → Option Bytes → Decoder B
  opened d before none = d
  opened d before (some rest) =
      if ltb (length rest) before then record d { stream_open = true } else d

  -- `if step.stream_ended { .. } else if .. { .. }`
  unfoldable pub note_stream : Loop → Step → Outcome CodecError Loop
  note_stream l s =
      if s.stream_ended
      then (do d ← reinitialise B l.decoder; ok (record l { decoder = d; ended_a_stream = true }))
      else ok (record l { decoder = opened l.decoder (length l.input) s.remaining })

  -- `match step.remaining`, on what `note_stream` leaves
  abbrev pub go_on : Loop → Option Bytes → Outcome CodecError Loop → Round
  go_on grown (some rest) (ok l) = record { after = record l { input = rest }; verdict = ok true }
  go_on grown none (ok l) = record { after = l; verdict = ok false }
  go_on grown remaining (err e) = record { after = grown; verdict = err e }
  go_on grown remaining panic = record { after = grown; verdict = panic }

  -- A round behind the slice of what was produced.
  unfoldable pub extend : Loop → Step → Outcome CodecError Bytes → Round
  extend l s (ok produced) =
      let grown = record l { output = l.output ++ produced } in
      let size = saturating_add l.decoder.delivered (length (l.output ++ produced)) in
      if ltb limit size
      then record { after = grown; verdict = err (message_too_long size limit) }
      else go_on grown s.remaining (note_stream grown s)
  extend l s (err e) = record { after = l; verdict = err e }
  extend l s panic = record { after = l; verdict = panic }

  -- A round behind its call of `step`.
  unfoldable pub take_in : Loop → Outcome CodecError Step → Round
  take_in l (ok s) = extend l s (slice_to s.produced l.scratch)
  take_in l (err e) = record { after = l; verdict = err e }
  take_in l panic = record { after = l; verdict = panic }

  -- The variables after the call of the backend on the front of the scratch buffer.
  abbrev pub called : Loop → Bytes → Loop
  called l buffer = record l {
    decoder = record l.decoder { inflater = B.state_after l.decoder.inflater l.input buffer };
    scratch = B.buffer_after l.decoder.inflater l.input buffer ++ drop (length buffer) l.scratch;
  }

  -- A round behind the slice that it hands on to `step`.
  abbrev pub on_slice : Loop → Outcome CodecError Bytes → Round
  on_slice l (ok buffer) = take_in (called l buffer) (step B l.decoder.inflater l.input buffer)
  on_slice l (err e) = record { after = l; verdict = err e }
  on_slice l panic = record { after = l; verdict = panic }

  -- The body of the loop.
  unfoldable pub round : Loop → Round
  round l = on_slice l (slice_to (writable l) l.scratch)

  pub record Inflated : Type 0 where
    pub decoder : Decoder B
    pub output : Bytes
    pub answer : Outcome CodecError Bool

  abbrev pub follow : (Loop → Option Inflated) → Loop → Outcome CodecError Bool → Option Inflated
  follow again l (ok true) = again l
  follow again l (ok false) =
      some (record { decoder = l.decoder; output = l.output; answer = ok l.ended_a_stream })
  follow again l (err e) = some (record { decoder = l.decoder; output = l.output; answer = err e })
  follow again l panic = some (record { decoder = l.decoder; output = l.output; answer = panic })

  -- The loop, for at most `fuel` rounds; `none` where they do not suffice.
  unfoldable pub run : ℕ → Loop → Option Inflated
  run zero l = none
  run (suc fuel) l = follow (run fuel) (round l).after (round l).verdict

  abbrev pub started : Decoder B → Bytes → Bytes → Loop
  started d input output = record {
    decoder = d;
    input = input;
    output = output;
    scratch = replicate scratch_length 0;
    ended_a_stream = false;
  }

  unfoldable pub inflate : Decoder B → Bytes → Bytes → Option Inflated
  inflate d input output = run (suc (length input + limit)) (started d input output)
