-- ===== src/Encoder/Transaction.antt =====
-- src/encoder.rs: `Encoder`, and the values that hold its compressor while a message is prepared.
use ws_pmd_rs.Base.{
  ℕ, Bool, false, Bytes, Option, none, some, within, ◌==◌, length, if◌then◌else◌, and_then, Outcome,
  ok, err, panic, ◌>>=◌,
}
use ws_pmd_rs.Error.{CodecError, poisoned}
use ws_pmd_rs.Config.{EncoderConfig}
use ws_pmd_rs.Negotiated.{Negotiated, local_max_window_bits, local_no_context_takeover}
use ws_pmd_rs.Encoder.Backend.{Backend}
use ws_pmd_rs.Encoder.Drive.{produce, produce_non_final}

pub record CompressorConfig : Type 0 where
  pub level : ℕ
  pub window_bits : ℕ

unfoldable pub for_local : Negotiated → EncoderConfig → CompressorConfig
for_local n config = record { level = config.level; window_bits = local_max_window_bits n }

module _ (B : Backend) where
  unfoldable pub build : CompressorConfig → Outcome CodecError B.Compress
  build c =
      if within 9 15 c.window_bits
      then ok (B.new_with_window_bits c.level false c.window_bits)
      else panic

  -- `none` is an encoder whose compressor was taken and not given back: it is poisoned.
  pub record Encoder : Type 0 where
    pub compressor : Option B.Compress
    pub reset_between_messages : Bool

  unfoldable pub for_agreement : Negotiated → EncoderConfig → Outcome CodecError Encoder
  for_agreement n config = do
    c ← build (for_local n config)
    ok (record { compressor = some c; reset_between_messages = local_no_context_takeover n })

  -- What borrows the encoder: nothing, a `PreparedMessage`, a `StreamingMessage`, a
  -- `PreparedNonFinalFragment` or a `PreparedFinalFragment`.
  pub data Phase : Type 0 where
    free : Phase
    prepared : B.Compress → Bytes → Phase
    streaming : B.Compress → Phase
    fragment : B.Compress → Bytes → Phase
    final_fragment : B.Compress → Bytes → Phase

  -- `as_bytes`: the bytes that a host reads
  unfoldable pub as_bytes : Phase → Option Bytes
  as_bytes free = none
  as_bytes (prepared c bytes) = some bytes
  as_bytes (streaming c) = none
  as_bytes (fragment c bytes) = some bytes
  as_bytes (final_fragment c bytes) = some bytes

  -- A slice keeps its length, whatever is written into it.
  abbrev pub overwritten : Bytes → Bytes → Bytes
  overwritten bytes written = if length written == length bytes then written else bytes

  -- `as_bytes_mut`: what holds the bytes, after a host has written into them
  unfoldable pub as_bytes_mut : Phase → Bytes → Phase
  as_bytes_mut free written = free
  as_bytes_mut (prepared c bytes) written = prepared c (overwritten bytes written)
  as_bytes_mut (streaming c) written = streaming c
  as_bytes_mut (fragment c bytes) written = fragment c (overwritten bytes written)
  as_bytes_mut (final_fragment c bytes) written = final_fragment c (overwritten bytes written)

  pub record State : Type 0 where
    pub encoder : Encoder
    pub phase : Phase

  pub record Called : Type 0 where
    pub state : State
    pub answer : Outcome CodecError (Unit {0})

  -- The borrow behind a `produce`: an error drops the compressor.
  abbrev pub hold :
      (B.Compress → Bytes → Phase) → Encoder → B.Compress → Outcome CodecError Bytes → Called
  hold make e c (ok bytes) = record {
    state = record { encoder = e; phase = make c bytes };
    answer = ok tt;
  }
  hold make e c (err x) = record { state = record { encoder = e; phase = free }; answer = err x }
  hold make e c panic = record { state = record { encoder = e; phase = free }; answer = panic }

  abbrev taken : Encoder → Encoder
  taken e = record e { compressor = none }

  -- `self.compressor.take().ok_or(CodecError::Poisoned)?`, and what follows
  abbrev pub prepare_with : ℕ → Encoder → Bytes → Option B.Compress → Option Called
  prepare_with fuel e payload none =
      some (record { state = record { encoder = taken e; phase = free }; answer = err poisoned })
  prepare_with fuel e payload (some c) =
      and_then (produce B fuel c payload)
        (λ p. some (hold prepared (taken e) p.compressor p.message))

  unfoldable pub prepare_message : ℕ → Encoder → Bytes → Option Called
  prepare_message fuel e payload = prepare_with fuel e payload e.compressor

  abbrev pub begin_with : Encoder → Option B.Compress → Called
  begin_with e none = record {
    state = record { encoder = taken e; phase = free };
    answer = err poisoned;
  }
  begin_with e (some c) = record {
    state = record { encoder = taken e; phase = streaming c };
    answer = ok tt;
  }

  unfoldable pub begin_streaming_message : Encoder → Called
  begin_streaming_message e = begin_with e e.compressor

  unfoldable pub prepare_non_final_fragment : ℕ → Encoder → B.Compress → Bytes → Option Called
  prepare_non_final_fragment fuel e c payload =
      and_then (produce_non_final B fuel c payload)
        (λ p. some (hold fragment e p.compressor p.message))

  unfoldable pub prepare_final_fragment : ℕ → Encoder → B.Compress → Bytes → Option Called
  prepare_final_fragment fuel e c payload =
      and_then (produce B fuel c payload) (λ p. some (hold final_fragment e p.compressor p.message))

  abbrev given_back : Encoder → B.Compress → State
  given_back e c = record { encoder = record e { compressor = some c }; phase = free }

  -- `PreparedMessage::commit`; the bytes go to the caller
  unfoldable pub commit : Encoder → B.Compress → State
  commit e c = given_back e (if e.reset_between_messages then B.reset c else c)

  -- `PreparedMessage::reset_to_plain`
  unfoldable pub reset_to_plain : Encoder → B.Compress → State
  reset_to_plain e c = given_back e (B.reset c)

  -- `PreparedNonFinalFragment::commit`
  unfoldable pub commit_fragment : Encoder → B.Compress → State
  commit_fragment e c = record { encoder = e; phase = streaming c }

  -- `PreparedFinalFragment::commit`
  unfoldable pub commit_final : Encoder → B.Compress → State
  commit_final e c = given_back e (if e.reset_between_messages then B.reset c else c)
