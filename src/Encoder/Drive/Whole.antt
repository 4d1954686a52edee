-- ===== src/Encoder/Drive/Whole.antt =====
-- Proofs about `produce` and `produce_non_final` of src/encoder.rs.
use ws_pmd_rs.Base.{
  ℕ, ◌+◌, ◌<◌, ◌≡◌, ◌≢◌, ◌↔◌, ◌⊎◌, inl, inr, refl, ap, ◌∙◌, sym, ◌&&◌, [], ◌++◌, Bytes, some,
  length, length-append, append_assoc, is_empty, Bool-cases, arith, Outcome, ok, err, panic, ◌>>=◌,
  >>=-eq-ok, ok-injective,
}
use ws_pmd_rs.Error.{CodecError}
use ws_pmd_rs.Codec.Numbers.{trailer}
use ws_pmd_rs.Encoder.Backend.{Backend}
use ws_pmd_rs.Encoder.Frame.{room_for, ends_with, strip_or_synthesize}
use ws_pmd_rs.Encoder.Strip.{
  IsMessageOf, strip_or_synthesize_iff, ends_with-split, append-ends_with, both_empty,
}
use ws_pmd_rs.Encoder.Bounded.{Bounded}
use ws_pmd_rs.Encoder.Drive.{
  Ran, flush_after, produce_aligned, Produced, produce, check_aligned, produce_non_final,
}
use ws_pmd_rs.Encoder.Drive.Rounds.{room_for-lt}
use ws_pmd_rs.Encoder.Drive.Feeding.{Ended, cost, feed-Ended}
use ws_pmd_rs.Encoder.Drive.Flushing.{sync_flush-Flushed}

-- What a fragment of the wire is that is not the last, by what the compressor wrote: all of it,
-- with the trailer at its end, or nothing for nothing.
abbrev pub IsFragmentOf : Bytes → Bytes → Bytes → Type 0
IsFragmentOf payload output fragment =
    (output ≡ fragment)
    × (((front : Bytes) × (fragment ≡ front ++ trailer)) ⊎ ((payload ≡ []) × (fragment ≡ [])))

pub check_aligned_iff :
    (B : Backend) (payload output fragment : Bytes)
    → (check_aligned B payload output ≡ ok fragment) ↔ IsFragmentOf payload output fragment
unfolding check_aligned ends_with
check_aligned_iff B payload output fragment = (to, from)
  where
    to : check_aligned B payload output ≡ ok fragment → IsFragmentOf payload output fragment
    to h = elim (Bool-cases (ends_with output trailer)) [
      | inl e ↦
          let same = ok-injective (rw e at h) in
          (same, inl (_, sym same ∙ ends_with-split output trailer e))
      | inr e ↦ elim (Bool-cases (is_empty payload && is_empty output)) [
        | inl z ↦
            let same = ok-injective (rw (e, z) at h) in
            let (p, o) = both_empty payload output z in (same, inr (p, sym same ∙ o))
        | inr z ↦ cc (rw (e, z) at h)
      ]
    ]

    from : IsFragmentOf payload output fragment → check_aligned B payload output ≡ ok fragment
    from (same, inl (front, e)) = rw (same, e, append-ends_with front trailer) refl
    from (same, inr (p, e)) = rw (same, p, e) empty
      where
        empty : check_aligned B [] [] ≡ ok []
        empty = refl

module _ (B : Backend) (b : Bounded B) where
  -- The whole payload is in, the output is all that was written for it, and nothing is held back.
  pub record Whole (c : B.Compress) (payload : Bytes) (d : B.Compress) (output : Bytes)
      : Type 0 where
    pub took_all : B.total_in d ≡ B.total_in c + length payload
    pub took_whole : b.taken_in d ≡ b.taken_in c ++ payload
    pub streamed : b.put_out d ≡ b.put_out c ++ output
    pub same_window : b.window d ≡ b.window c
    pub wrote_all : B.total_out d ≡ B.total_out c + length output
    pub nothing_owed : b.owed d ≡ 0

  record Aligned (c : B.Compress) (payload : Bytes) (r : Ran B (Unit {0})) : Type 0 where
    no_panic : r.answer ≢ panic
    whole : r.answer ≡ ok tt → Whole c payload r.work.compressor r.work.output

  module _ (fuel : ℕ) (c : B.Compress) (payload : Bytes)
      (enough : cost B b c (length payload) < fuel) where
    room : ℕ
    room = room_for (length payload)

    flush_after-Aligned :
        (r : Ran B (Unit {0})) (a : Outcome CodecError (Unit {0}))
        → r.answer ≡ a
        → Ended B b (record { compressor = c; output = []; capacity = 0 }) payload r
        → (s : Ran B (Unit {0})) × (flush_after B fuel room r a ≡ some s) × Aligned c payload s
    unfolding room
    flush_after-Aligned r (ok u) e ended =
        let (s, ran, f) =
          sync_flush-Flushed B b fuel room r.work (room_for-lt (length payload))
            (omega (arith, ended.wrote.owes, enough)) in
        (
          s,
          ran,
          record {
            no_panic = f.no_panic;
            whole = λ k. record {
              took_all = f.took_nothing ∙ ended.took_all e;
              took_whole = f.kept_in ∙ ended.took_whole e;
              streamed =
                  f.wrote.streamed
                  ∙ ap (λ t. t ++ f.wrote.bytes) ended.wrote.streamed
                  ∙ append_assoc (b.put_out c) ended.wrote.bytes f.wrote.bytes
                  ∙ ap (λ t. b.put_out c ++ t)
                      (sym (f.wrote.appended ∙ ap (λ t. t ++ f.wrote.bytes) ended.wrote.appended));
              same_window = f.wrote.same_window ∙ ended.wrote.same_window;
              wrote_all = omega (
                arith,
                f.wrote.counted,
                ended.wrote.counted,
                ap length (f.wrote.appended ∙ ap (λ t. t ++ f.wrote.bytes) ended.wrote.appended),
                length-append ended.wrote.bytes f.wrote.bytes,
              );
              nothing_owed = f.drained k;
            };
          },
        )
    flush_after-Aligned r (err x) e ended =
        (r, refl, record { no_panic = ended.no_panic; whole = λ k. cc (sym e ∙ k) })
    flush_after-Aligned r panic e ended = absurd (ended.no_panic e)

    produce_aligned-Aligned :
        (r : Ran B (Unit {0})) × (produce_aligned B fuel c payload ≡ some r) × Aligned c payload r
    unfolding produce_aligned room
    produce_aligned-Aligned =
        let (r, ran, ended) =
          feed-Ended B b fuel (room_for (length payload))
            (record { compressor = c; output = []; capacity = 0 }) payload enough in
        rw ran (flush_after-Aligned r r.answer refl ended)

  -- What a call leaves: it did not panic, and a message that it returns is framed from the whole of
  -- what was written, for the whole payload.
  pub record Complete (IsFramed : Bytes → Bytes → Bytes → Type 0) (c : B.Compress) (payload : Bytes)
      (p : Produced B) : Type 0 where
    pub no_panic : p.message ≢ panic
    pub framed :
        (m : Bytes)
        → p.message ≡ ok m
        → (output : Bytes) × IsFramed payload output m × Whole c payload p.compressor output

  -- The steps behind `produce_aligned`, which never panic and frame what they return.
  Aligned-Complete :
      (IsFramed : Bytes → Bytes → Bytes → Type 0) (frame : Bytes → Bytes → Outcome CodecError Bytes)
      → ((payload output m : Bytes) → frame payload output ≡ ok m → IsFramed payload output m)
      → ((payload output : Bytes) → frame payload output ≢ panic)
      → (c : B.Compress) (payload : Bytes) (r : Ran B (Unit {0})) → Aligned c payload r
      → Complete IsFramed c payload (record {
        compressor = r.work.compressor;
        message = r.answer >>= λ u. frame payload r.work.output;
      })
  Aligned-Complete IsFramed frame sound calm c payload r a = record {
    no_panic = quiet r.answer a.no_panic;
    framed = λ m k.
        let (u, done, made) =
          >>=-eq-ok r.answer (λ u. frame payload r.work.output) {result = m} k in
        (r.work.output, sound payload r.work.output m made, a.whole done);
  }
    where
      quiet :
          (a : Outcome CodecError (Unit {0}))
          → a ≢ panic
          → (a >>= λ u. frame payload r.work.output) ≢ panic
      quiet (ok u) n = calm payload r.work.output
      quiet (err e) n = λ k. cc
      quiet panic n = absurd (n refl)

  strip-NoPanic : (payload output : Bytes) → strip_or_synthesize payload output ≢ panic
  unfolding strip_or_synthesize
  strip-NoPanic payload output = λ k. ground arith

  check-NoPanic : (payload output : Bytes) → check_aligned B payload output ≢ panic
  unfolding check_aligned
  check-NoPanic payload output = λ k. ground arith

  -- Over a bounded compressor, with a round for each octet that the payload may still cost and one
  -- more, the loops of `produce` end without a panic, that of a `Vec` that cannot grow aside. Where
  -- a message is returned, the whole payload was taken in, the message is what was written for it
  -- less the trailer, or the RFC's octet for nothing, and nothing is owed.
  pub produce-Complete :
      (fuel : ℕ) (c : B.Compress) (payload : Bytes)
      → cost B b c (length payload) < fuel
      → (p : Produced B) × (produce B fuel c payload ≡ some p) × Complete IsMessageOf c payload p
  unfolding produce
  produce-Complete fuel c payload enough =
      let (r, ran, a) = produce_aligned-Aligned fuel c payload enough in
      (
        _,
        rw ran refl,
        Aligned-Complete IsMessageOf strip_or_synthesize
            (λ payload output m. (strip_or_synthesize_iff payload output m).0) strip-NoPanic c
            payload r a,
      )

  -- Over a bounded compressor, with a round for each octet that the payload may still cost and one
  -- more, the loops of `produce_non_final` end without a panic, that of a `Vec` that cannot grow
  -- aside. Where a fragment is returned, the whole payload was taken in, the fragment is all that
  -- was written for it and ends in the trailer, or both are empty, and nothing is owed.
  pub produce_non_final-Complete :
      (fuel : ℕ) (c : B.Compress) (payload : Bytes)
      → cost B b c (length payload) < fuel
      → (p : Produced B) × (produce_non_final B fuel c payload ≡ some p)
        × Complete IsFragmentOf c payload p
  unfolding produce_non_final
  produce_non_final-Complete fuel c payload enough =
      let (r, ran, a) = produce_aligned-Aligned fuel c payload enough in
      (
        _,
        rw ran refl,
        Aligned-Complete IsFragmentOf (check_aligned B)
            (λ payload output m. (check_aligned_iff B payload output m).0) check-NoPanic c payload r
            a,
      )
