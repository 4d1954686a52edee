-- ===== src/Loopback/Passed.antt =====
-- Proofs about `Decoder::decompress` of src/codec.rs, on a fragment that is not the last of its
-- message.
use ws_pmd_rs.Base.{
  ℕ, ◌+◌, ◌≤◌, ◌<◌, ◌≡◌, ◌⊎◌, refl, ap, ◌∙◌, Bool, true, false, [], ◌++◌, Bytes, some, and_then,
  length, if-false, arith, Outcome, ok, err, panic,
}
use ws_pmd_rs.Error.{CodecError}
use ws_pmd_rs.Codec.Backend.{Backend}
use ws_pmd_rs.Codec.Numbers.{usize_max, saturating_add}
use ws_pmd_rs.Codec.Inflater.{Decoder}
use ws_pmd_rs.Codec.Inflate.{Inflated, started, inflate}
use ws_pmd_rs.Codec.Bounded.{inflate-total}
use ws_pmd_rs.Codec.Decompress.{after_input, decode, Decompressed, conclude, decompress}
use ws_pmd_rs.Loopback.Format.{Format, Inflates}
use ws_pmd_rs.Loopback.Rounds.{Midway}
use ws_pmd_rs.Loopback.Drained.{Drained, run-Drained}
use ws_pmd_rs.Loopback.Read.{started_room}

module _ (F : Format) (D : Backend) (law : Inflates F D) (limit : ℕ)
    (small : limit < usize_max) where
  -- A decoder that is in step with its stream, and a fragment that the stream goes on with.
  pub record Passing (d : Decoder D) (fragment payload : Bytes) : Type 0 where
    pub input_is_slice : length fragment ≤ usize_max
    pub healthy : d.poisoned ≡ false
    pub is_stream : F.IsStream (law.window d.inflater) (law.fed d.inflater ++ fragment)
    pub means : F.meaning (law.fed d.inflater ++ fragment) ≡ law.given d.inflater ++ payload
    pub fits : d.delivered + length payload ≤ limit

  module _ (d : Decoder D) (m payload : Bytes) (s : Passing d m payload) where
    pub record Passes (r : Decompressed D limit) : Type 0 where
      pub result : r.result ≡ ok payload
      pub counted : r.decoder.delivered ≡ d.delivered + length payload
      pub healthy : r.decoder.poisoned ≡ false
      pub config : r.decoder.config ≡ d.config
      pub reset_between_messages : r.decoder.reset_between_messages ≡ d.reset_between_messages
      pub same_window : law.window r.decoder.inflater ≡ law.window d.inflater
      pub fed_all : law.fed r.decoder.inflater ≡ law.fed d.inflater ++ m
      pub given_all : law.given r.decoder.inflater ≡ law.given d.inflater ++ payload
      pub opens : (d.stream_open ≡ true) ⊎ (0 < length m) → r.decoder.stream_open ≡ true

    only_Midway :
        Midway F D law limit small (started D limit d m []) (law.fed d.inflater ++ m) payload
    only_Midway = record {
      input_is_slice = s.input_is_slice;
      room = rw started_room (omega arith);
      room-le = rw started_room (omega arith);
      streamed = refl;
      is_stream = s.is_stream;
      means = s.means;
      fits = omega (arith, s.fits);
    }

    only :
        (r : Inflated D limit) × (inflate D limit d m [] ≡ some r)
        × Drained F D law limit small (started D limit d m []) (law.fed d.inflater ++ m) payload r
    unfolding inflate
    only =
        let (r, h) = inflate-total D limit small d m [] in
        (r, h, run-Drained F D law limit small _ _ _ _ only_Midway h)

    counted_exactly : (n k : ℕ) → n + k ≤ limit → limit < usize_max → saturating_add n k ≡ n + k
    counted_exactly n k h top = ground arith

    pub decompress-Passes :
        (r : Decompressed D limit) × (decompress D limit d m false ≡ some r) × Passes r
    unfolding decompress decode
    decompress-Passes =
        let (r, h, q) = only in
        (
          conclude D limit false (record { decoder = r.decoder; output = r.output; answer = ok tt })
              (ok tt),
          if-false d.poisoned _ s.healthy ∙ rw h (answered r r.answer q.answer),
          record {
            result = ap ok q.output;
            counted =
                ap (λ t. saturating_add r.decoder.delivered (length t)) q.output
                ∙ ap (λ t. saturating_add t (length payload)) q.keeps.delivered
                ∙ counted_exactly d.delivered (length payload) s.fits small;
            healthy = q.keeps.poisoned ∙ s.healthy;
            config = q.keeps.config;
            reset_between_messages = q.keeps.reset_between_messages;
            same_window = q.same_window;
            fed_all = q.fed_all;
            given_all = q.given_all ∙ s.means;
            opens = q.opens;
          },
        )
      where
        answered :
            (r : Inflated D limit) (a : Outcome CodecError Bool)
            → a ≡ ok false
            → and_then
                (after_input D limit false r a)
                (λ m. some (conclude D limit false m m.answer))
              ≡ some (
                  conclude D limit false
                    (record { decoder = r.decoder; output = r.output; answer = ok tt })
                    (ok tt))
        answered r (ok b) z = refl
        answered r (err e) z = cc
        answered r panic z = cc
