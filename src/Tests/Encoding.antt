-- ===== src/Tests/Encoding.antt =====
-- The theorems on src/encoder.rs, at a backend that stores its input and flushes with the trailer.
use ws_pmd_rs.Base.{
  ℕ, ◌+◌, ◌≡◌, ◌↔◌, refl, true, [], ◌∷◌, Bytes, none, some, length, bytes_eq, arith, ok,
}
use ws_pmd_rs.Codec.Numbers.{trailer}
use ws_pmd_rs.Encoder.Backend.{Backend, Flush, flush_none, flush_sync, status_ok}
use ws_pmd_rs.Encoder.Frame.{room_for, ends_with, strip_or_synthesize}
use ws_pmd_rs.Encoder.Drive.{measure, drive, fed, feed, sync_flush, produce_aligned, produce}
use ws_pmd_rs.Encoder.Transaction.{Encoder, State, free, prepared, prepare_message}
use ws_pmd_rs.Encoder.Strip.{IsMessageOf, strip_or_synthesize_iff}
use ws_pmd_rs.Encoder.Steps.{message, drop, Steps, done, step, Owned, Steps-Owned}
use ws_pmd_rs.Encoder.Steps.Poisoned.{IsPoisoned, Refuses, poisoned-Refuses}

abbrev pub written : Bytes → Flush → Bytes
written input flush_none = input
written input flush_sync = trailer

-- The state is the bytes in and the bytes out.
abbrev pub storing : Backend
storing = record {
  Compress = ℕ × ℕ;
  new_with_window_bits = λ level z bits. (0, 0);
  reset = λ c. (0, 0);
  total_in = λ c. c.0;
  total_out = λ c. c.1;
  state_after = λ c input spare flush. (c.0 + length input, c.1 + length (written input flush));
  appended = λ c input spare flush. written input flush;
  status_of = λ c input spare flush. some status_ok;
  reserved = λ capacity len room. len + room;
  reserves = λ capacity len room. omega arith;
}

abbrev pub fresh : Encoder storing
fresh = record { compressor = some (0, 0); reset_between_messages = true }

abbrev pub idle : State storing
idle = record { encoder = fresh; phase = free }

abbrev pub holding : State storing
holding = record {
  encoder = record fresh { compressor = none };
  phase = prepared (2, 6) (7 ∷ 8 ∷ []);
}

prepared_message :
    prepare_message storing 5 fresh (7 ∷ 8 ∷ []) ≡ some (record { state = holding; answer = ok tt })
unfolding prepare_message produce produce_aligned sync_flush feed fed drive measure room_for
    ends_with strip_or_synthesize bytes_eq
prepared_message = refl

abbrev dropped : State storing
dropped = record { encoder = record fresh { compressor = none }; phase = free }

pub one_step : Steps storing idle holding
one_step =
    step (done refl) (
      message 5 (7 ∷ 8 ∷ []) (record { state = holding; answer = ok tt }) refl prepared_message
        refl)

Steps-Owned_example : Owned storing holding
Steps-Owned_example = Steps-Owned storing {s = idle} tt one_step

dropped-IsPoisoned : IsPoisoned storing dropped
dropped-IsPoisoned = record { nothing_borrows = refl; taken_away = refl }

poisoned-Refuses_example : Refuses storing dropped
poisoned-Refuses_example =
    poisoned-Refuses storing dropped-IsPoisoned (step (done refl) (drop refl))

strip_or_synthesize_iff_example :
    (strip_or_synthesize (7 ∷ []) (7 ∷ 0 ∷ 0 ∷ 255 ∷ 255 ∷ []) ≡ ok (7 ∷ []))
    ↔ IsMessageOf (7 ∷ []) (7 ∷ 0 ∷ 0 ∷ 255 ∷ 255 ∷ []) (7 ∷ [])
strip_or_synthesize_iff_example =
    strip_or_synthesize_iff (7 ∷ []) (7 ∷ 0 ∷ 0 ∷ 255 ∷ 255 ∷ []) (7 ∷ [])
