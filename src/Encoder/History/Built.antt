-- ===== src/Encoder/History/Built.antt =====
-- Proofs about the history of an encoder of src/encoder.rs, from the agreement that it is built
-- for.
use ws_pmd_rs.Base.{
  ℕ, ◌≡◌, refl, ap, ◌∙◌, sym, Bool, [], Bytes, Option, none, some, some-injective, and_then-eq-some,
  Bool-cases, inl, inr, within, Outcome, ok, err, panic, >>=-eq-ok, ok-injective,
}
use ws_pmd_rs.Error.{CodecError}
use ws_pmd_rs.Config.{EncoderConfig}
use ws_pmd_rs.Negotiated.{Negotiated, local_no_context_takeover}
use ws_pmd_rs.Encoder.Backend.{Backend}
use ws_pmd_rs.Encoder.Drive.{produce, produce_non_final}
use ws_pmd_rs.Encoder.Transaction.{
  CompressorConfig, for_local, build, Encoder, for_agreement, Phase, free, prepared, fragment,
  final_fragment, State, Called, hold, prepare_with, prepare_message, begin_with,
  begin_streaming_message, prepare_non_final_fragment, prepare_final_fragment, commit,
  reset_to_plain, commit_fragment, commit_final,
}
use ws_pmd_rs.Encoder.Steps.{
  Step, message, begin, next_fragment, last_fragment, commit_message, send_plain, commit_next,
  commit_last, write_bytes, drop, Steps, done, step,
}
use ws_pmd_rs.Encoder.History.{Chunk, IsFresh, built, IsFresh-Recent, log_steps, Follows}
use ws_pmd_rs.Encoder.History.Follows.{Steps-Follows}

module _ (B : Backend) where
  -- Whether the agreement resets between messages.
  abbrev resets : State B → Bool
  resets s = s.encoder.reset_between_messages

  hold-resets :
      (make : B.Compress → Bytes → Phase B) (e : Encoder B) (c : B.Compress)
      (m : Outcome CodecError Bytes)
      → resets (hold B make e c m).state ≡ e.reset_between_messages
  hold-resets make e c (ok b) = refl
  hold-resets make e c (err x) = refl
  hold-resets make e c panic = refl

  prepare_with-resets :
      (fuel : ℕ) (e : Encoder B) (payload : Bytes) (o : Option B.Compress) {r : Called B}
      → prepare_with B fuel e payload o ≡ some r
      → resets r.state ≡ e.reset_between_messages
  prepare_with-resets fuel e payload none h = sym (ap (λ r. resets r.state) (some-injective h))
  prepare_with-resets fuel e payload (some c) {r} h =
      let (p, hp, made) = and_then-eq-some (produce B fuel c payload) _ {b = r} h in
      sym (ap (λ r. resets r.state) (some-injective made))
      ∙ hold-resets prepared _ p.compressor p.message

  begin_with-resets :
      (e : Encoder B) (o : Option B.Compress)
      → resets (begin_with B e o).state ≡ e.reset_between_messages
  begin_with-resets e none = refl
  begin_with-resets e (some c) = refl

  Step-resets : {s t : State B} → Step B s t → resets t ≡ resets s
  unfolding prepare_message begin_streaming_message prepare_non_final_fragment
      prepare_final_fragment commit reset_to_plain commit_fragment commit_final
  Step-resets {s} {t} (message fuel payload r p h e) =
      ap resets e ∙ prepare_with-resets fuel s.encoder payload s.encoder.compressor h
  Step-resets {s} {t} (begin p e) = ap resets e ∙ begin_with-resets s.encoder s.encoder.compressor
  Step-resets {s} {t} (next_fragment c fuel payload r p h e) =
      let (q, hq, made) = and_then-eq-some (produce_non_final B fuel c payload) _ {b = r} h in
      ap resets e
      ∙ sym (ap (λ r. resets r.state) (some-injective made))
      ∙ hold-resets fragment s.encoder q.compressor q.message
  Step-resets {s} {t} (last_fragment c fuel payload r p h e) =
      let (q, hq, made) = and_then-eq-some (produce B fuel c payload) _ {b = r} h in
      ap resets e
      ∙ sym (ap (λ r. resets r.state) (some-injective made))
      ∙ hold-resets final_fragment s.encoder q.compressor q.message
  Step-resets (commit_message c b p e) = ap resets e
  Step-resets (send_plain c b p e) = ap resets e
  Step-resets (commit_next c b p e) = ap resets e
  Step-resets (commit_last c b p e) = ap resets e
  Step-resets (write_bytes written e) = ap resets e
  Step-resets (drop e) = ap resets e

  Steps-resets : {s t : State B} → Steps B s t → resets t ≡ resets s
  Steps-resets (done e) = ap resets e
  Steps-resets (step before last) = Step-resets last ∙ Steps-resets before

  build-IsFresh : (k : CompressorConfig) {c : B.Compress} → build B k ≡ ok c → IsFresh B c
  unfolding build
  build-IsFresh k {c} h = elim (Bool-cases (within 9 15 k.window_bits)) [
    | inl e ↦ built k.level k.window_bits (sym (ok-injective (rw e at h)))
    | inr e ↦ cc (rw e at h)
  ]

  -- What an encoder starts with.
  record Built (n : Negotiated) (e : Encoder B) : Type 0 where
    compressor : B.Compress
    at_hand : e.compressor ≡ some compressor
    is_fresh : IsFresh B compressor
    resets_as_agreed : e.reset_between_messages ≡ local_no_context_takeover n

  for_agreement-Built :
      (n : Negotiated) (config : EncoderConfig) {e : Encoder B}
      → for_agreement B n config ≡ ok e
      → Built n e
  unfolding for_agreement
  for_agreement-Built n config {e} h =
      let (c, made, rest) = >>=-eq-ok (build B (for_local n config)) _ {result = e} h in
      rw (← ok-injective rest) (record {
        compressor = c;
        at_hand = refl;
        is_fresh = build-IsFresh (for_local n config) made;
        resets_as_agreed = refl;
      })

  abbrev pub idle : Encoder B → State B
  idle e = record { encoder = e; phase = free }

  -- An encoder that is built for an agreement, after calls in any order, whatever they answer: the
  -- compressor, wherever it is, has the history of a tail of what was declared sent, with the chunk
  -- under way if there is one; and where the agreement gives up this side's takeover, an encoder
  -- that is free and has its compressor has it with no history at all.
  pub encoder-Follows :
      (n : Negotiated) (config : EncoderConfig) (candidate : Chunk) {e : Encoder B} {t : State B}
      → for_agreement B n config ≡ ok e
      → (calls : Steps B (idle e) t)
      → Follows B t (log_steps B calls (record { sent = []; candidate = candidate }))
        × (t.encoder.reset_between_messages ≡ local_no_context_takeover n)
  encoder-Follows n config candidate {e} made calls =
      let b = for_agreement-Built n config made in
      (
        Steps-Follows B _ tt
            (λ c k.
              let same = some-injective (sym b.at_hand ∙ k) in
              rw (← same) (record {
                recent = IsFresh-Recent B b.compressor [] b.is_fresh;
                clean = λ q. b.is_fresh;
              }))
            calls,
        Steps-resets calls ∙ b.resets_as_agreed,
      )
