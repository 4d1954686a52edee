-- ===== src/Codec/Message.antt =====
-- Proofs about `Decoder::decompress` in src/codec.rs, over the fragments of a message and the calls
-- of a connection.
use ws_pmd_rs.Base.{
  ℕ, ◌+◌, ◌≤◌, ◌<◌, ◌≡◌, refl, ap, ◌∙◌, sym, Bool, true, false, Bytes, some, some-injective,
  and_then-eq-some, length, if-arms, if-true, arith, Outcome, ok, err, panic,
}
use ws_pmd_rs.Error.{CodecError, poisoned as poisoned_error}
use ws_pmd_rs.Codec.Backend.{Backend}
use ws_pmd_rs.Codec.Numbers.{usize_max}
use ws_pmd_rs.Codec.Inflater.{Decoder}
use ws_pmd_rs.Codec.Decompress.{Decoded, decode, Decompressed, conclude, decompress}
use ws_pmd_rs.Codec.Delivered.{decode-Within, Returned, conclude-Returned}

module _ (B : Backend) where
  -- With a limit below the largest `usize`: a call that delivers bytes was made on a decoder that
  -- is not poisoned; the message with these bytes is within the limit of the call, the running
  -- total counts them, and starts again behind a final fragment.
  pub decompress-Returned :
      (limit : ℕ) (d : Decoder B) (input : Bytes) (final : Bool) {r : Decompressed B limit}
      {output : Bytes}
      → limit < usize_max
      → decompress B limit d input final ≡ some r
      → r.result ≡ ok output
      → Returned B limit d final output r.decoder
  unfolding decompress
  decompress-Returned limit d input final {r} {output} small =
      if-arms (λ x. x ≡ some r → r.result ≡ ok output → Returned B limit d final output r.decoder)
        d.poisoned (λ e h k. cc (ap (λ r. r.result) (some-injective h) ∙ k))
        (λ e h k.
          let (m, hm, made) = and_then-eq-some (decode B limit d input final) _ {b = r} h in
          let same = some-injective made in
          rw (← ap (λ r. r.decoder) same) (
            conclude-Returned B limit small d final m m.answer e
              (λ a. decode-Within B limit small d input final hm a) (ap (λ r. r.result) same ∙ k)))

  conclude-poisoned :
      (limit : ℕ) (final : Bool) (m : Decoded B limit) (a : Outcome CodecError (Unit {0}))
      {e : CodecError}
      → (conclude B limit final m a).result ≡ err e
      → (conclude B limit final m a).decoder.poisoned ≡ true
  conclude-poisoned limit final m (ok u) h = cc
  conclude-poisoned limit final m (err e) h = refl
  conclude-poisoned limit final m panic h = cc

  pub failed-poisoned :
      (limit : ℕ) (d : Decoder B) (input : Bytes) (final : Bool) {r : Decompressed B limit}
      {e : CodecError}
      → decompress B limit d input final ≡ some r
      → r.result ≡ err e
      → r.decoder.poisoned ≡ true
  unfolding decompress
  failed-poisoned limit d input final {r} {e} =
      if-arms (λ x. x ≡ some r → r.result ≡ err e → r.decoder.poisoned ≡ true) d.poisoned
        (λ p h k. sym (ap (λ r. r.decoder.poisoned) (some-injective h)) ∙ p)
        (λ p h k.
          let (m, hm, made) = and_then-eq-some (decode B limit d input final) _ {b = r} h in
          let same = some-injective made in
          sym (ap (λ r. r.decoder.poisoned) same)
          ∙ conclude-poisoned limit final m m.answer (ap (λ r. r.result) same ∙ k))

  pub poisoned-refused :
      (limit : ℕ) (d : Decoder B) (input : Bytes) (final : Bool)
      → d.poisoned ≡ true
      → decompress B limit d input final
        ≡ some (record { decoder = d; result = err poisoned_error })
  unfolding decompress
  poisoned-refused limit d input final p = if-true d.poisoned _ p

  -- A failure is final: every call behind one that failed is refused, and changes nothing.
  pub decompress-poisoned :
      (limit later : ℕ) (d : Decoder B) (input next : Bytes) (final last : Bool)
      {r : Decompressed B limit} {e : CodecError}
      → decompress B limit d input final ≡ some r
      → r.result ≡ err e
      → decompress B later r.decoder next last
        ≡ some (record { decoder = r.decoder; result = err poisoned_error })
  decompress-poisoned limit later d input next final last {r} h k =
      poisoned-refused later r.decoder next last (failed-poisoned limit d input final h k)

  -- The fragments of a message that is not over: from `d` on, calls that are not final have
  -- delivered `n` bytes and left `e`. Each call has a limit of its own.
  pub data Fragments (d : Decoder B) : ℕ → Decoder B → Type 0 where
    none_yet : {n : ℕ} {e : Decoder B} → n ≡ 0 → e ≡ d → Fragments d n e
    fragment :
        {n m : ℕ} {e f : Decoder B} (limit : ℕ) (input output : Bytes) (r : Decompressed B limit)
        → limit < usize_max
        → Fragments d n e
        → decompress B limit e input false ≡ some r
        → r.result ≡ ok output
        → f ≡ r.decoder
        → m ≡ n + length output
        → Fragments d m f

  Fragments-counted :
      {d e : Decoder B} {n : ℕ} → d.delivered ≡ 0 → Fragments d n e → e.delivered ≡ n
  Fragments-counted z (none_yet a b) = rw (a, b) z
  Fragments-counted z (fragment {n} {m} {e} {f} limit input output r small before h k a b) =
      let q = decompress-Returned limit e input false small h k in
      rw (a, b) (q.counted ∙ ap (λ t. t + length output) (Fragments-counted z before))

  -- However a message is cut into fragments, on a decoder that has delivered nothing of it, and
  -- with limits below the largest `usize`: all that it delivers, to its final fragment, is within
  -- the limit of the last call, and the next message starts from nothing.
  pub message_fits :
      (limit : ℕ) {d e : Decoder B} {n : ℕ} (input output : Bytes) {r : Decompressed B limit}
      → limit < usize_max
      → d.delivered ≡ 0
      → Fragments d n e
      → decompress B limit e input true ≡ some r
      → r.result ≡ ok output
      → (n + length output ≤ limit) × (r.decoder.delivered ≡ 0)
  message_fits limit {d} {e} {n} input output small z before h k =
      let q = decompress-Returned limit e input true small h k in
      (omega (arith, q.fits, Fragments-counted z before), q.counted)
