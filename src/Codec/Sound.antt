-- ===== src/Codec/Sound.antt =====
-- Proofs about `Decoder::decompress` in src/codec.rs.
use ws_pmd_rs.Base.{
  ℕ, ◌≤◌, ◌<◌, ◌≡◌, ◌≢◌, refl, ap, ◌∙◌, Bool, true, false, [], Bytes, some, some-injective,
  and_then, and_then-eq-some, if-arms, arith, Outcome, ok, err, panic,
}
use ws_pmd_rs.Error.{CodecError}
use ws_pmd_rs.Negotiated.{Negotiated, peer_max_window_bits, peer_no_context_takeover}
use ws_pmd_rs.Codec.Backend.{Backend}
use ws_pmd_rs.Codec.Numbers.{usize_max, trailer}
use ws_pmd_rs.Codec.Inflater.{for_peer_window, Decoder, decoder_for, reinitialise}
use ws_pmd_rs.Codec.Inflate.{Inflated, inflate}
use ws_pmd_rs.Codec.Bounded.{inflate-Within}
use ws_pmd_rs.Codec.Delivered.{decompress-total}
use ws_pmd_rs.Codec.Decompress.{
  Decoded, closed, after_trailer, after_input, decode, Decompressed, conclude, decompress,
}
use ws_pmd_rs.Codec.NoPanic.{
  IsBuildable, returns, fails, build-total, reinitialise-NoPanic, inflate-NoPanic,
}

module _ (B : Backend) (limit : ℕ) (small : limit < usize_max) where
  after_trailer-NoPanic :
      (t : Inflated B limit) (a : Outcome CodecError Bool)
      → (a ≡ ok false → IsBuildable t.decoder.config)
      → a ≢ panic
      → (after_trailer B limit t a).answer ≢ panic
  after_trailer-NoPanic t (ok true) v n = fails
  after_trailer-NoPanic t (ok false) v n =
      if-arms (λ (x : Decoded B limit). x.answer ≢ panic) t.decoder.reset_between_messages
        (λ e. shut (reinitialise B t.decoder) (reinitialise-NoPanic B t.decoder (v refl)))
        (λ e. returns)
    where
      shut : (o : Outcome CodecError (Decoder B)) → o ≢ panic → (closed B limit t o).answer ≢ panic
      shut (ok d) h = returns
      shut (err e) h = fails
      shut panic h = λ q. h refl
  after_trailer-NoPanic t (err e) v n = fails
  after_trailer-NoPanic t panic v n = λ q. n refl

  trailer-NoPanic :
      (r : Inflated B limit) {e : Decoded B limit}
      → IsBuildable r.decoder.config
      → and_then
          (inflate B limit r.decoder trailer r.output)
          (λ t. some (after_trailer B limit t t.answer))
        ≡ some e
      → e.answer ≢ panic
  trailer-NoPanic r {e} v h =
      let (t, ht, made) =
        and_then-eq-some (inflate B limit r.decoder trailer r.output)
          (λ t. some (after_trailer B limit t t.answer)) h in
      let same = some-injective made in
      rw (← same) (
        after_trailer-NoPanic t t.answer
          (λ a. rw (inflate-Within B limit small r.decoder trailer r.output ht a).keeps.config v)
          (inflate-NoPanic B limit small r.decoder trailer r.output v ht))

  after_input-NoPanic :
      (final : Bool) (r : Inflated B limit) (a : Outcome CodecError Bool) {e : Decoded B limit}
      → ((b : Bool) → a ≡ ok b → IsBuildable r.decoder.config)
      → a ≢ panic
      → after_input B limit final r a ≡ some e
      → e.answer ≢ panic
  after_input-NoPanic false r (ok ended) v n =
      λ h q. returns (ap (λ x. x.answer) (some-injective h) ∙ q)
  after_input-NoPanic true r (ok ended) {e} v n =
      if-arms (λ x. x ≡ some e → e.answer ≢ panic) r.decoder.stream_open
        (λ o h. trailer-NoPanic r (v ended refl) h)
        (λ o h q. fails (ap (λ x. x.answer) (some-injective h) ∙ q))
  after_input-NoPanic false r (err e) v n = λ h q. fails (ap (λ x. x.answer) (some-injective h) ∙ q)
  after_input-NoPanic true r (err e) v n = λ h q. fails (ap (λ x. x.answer) (some-injective h) ∙ q)
  after_input-NoPanic false r panic v n = λ h q. n refl
  after_input-NoPanic true r panic v n = λ h q. n refl

  decode-NoPanic :
      (d : Decoder B) (input : Bytes) (final : Bool) {e : Decoded B limit}
      → IsBuildable d.config
      → decode B limit d input final ≡ some e
      → e.answer ≢ panic
  unfolding decode
  decode-NoPanic d input final {e} v h =
      let (r, hr, made) = and_then-eq-some (inflate B limit d input []) _ {b = e} h in
      after_input-NoPanic final r r.answer
        (λ b a. rw (inflate-Within B limit small d input [] hr a).keeps.config v)
        (inflate-NoPanic B limit small d input [] v hr) made

  conclude-NoPanic :
      (final : Bool) (m : Decoded B limit) (a : Outcome CodecError (Unit {0}))
      → a ≢ panic
      → (conclude B limit final m a).result ≢ panic
  conclude-NoPanic final m (ok u) n = returns
  conclude-NoPanic final m (err e) n = fails
  conclude-NoPanic final m panic n = λ q. n refl

  -- What a call leaves is no panic.
  pub ended-NoPanic :
      (d : Decoder B) (input : Bytes) (final : Bool) {r : Decompressed B limit}
      → IsBuildable d.config
      → decompress B limit d input final ≡ some r
      → r.result ≢ panic
  unfolding decompress
  ended-NoPanic d input final {r} v =
      if-arms (λ x. x ≡ some r → r.result ≢ panic) d.poisoned
        (λ p h q. fails (ap (λ x. x.result) (some-injective h) ∙ q))
        (λ p h.
          let (m, hm, made) = and_then-eq-some (decode B limit d input final) _ {b = r} h in
          let same = some-injective made in
          rw (← same) (conclude-NoPanic final m m.answer (decode-NoPanic d input final v hm)))

  -- With a limit below the largest `usize`, a call of a decoder with a width that `flate2` builds
  -- ends and does not panic: each slice that it takes of the scratch buffer and of the input is in
  -- range, and each reinitialisation builds again at a width that is accepted.
  pub decompress-NoPanic :
      (d : Decoder B) (input : Bytes) (final : Bool)
      → IsBuildable d.config
      → (r : Decompressed B limit) × (decompress B limit d input final ≡ some r)
        × (r.result ≢ panic)
  decompress-NoPanic d input final v =
      let (r, h) = decompress-total B limit small d input final in
      (r, h, ended-NoPanic d input final v h)

-- What a decoder starts with.
pub record Ready (B : Backend) (n : Negotiated) (d : Decoder B) : Type 0 where
  pub buildable : IsBuildable d.config
  pub wide_enough : peer_max_window_bits n ≤ d.config.window_bits
  pub resets : d.reset_between_messages ≡ peer_no_context_takeover n
  pub nothing_yet : d.delivered ≡ 0
  pub sound : d.poisoned ≡ false

pub peer_window-IsBuildable : (w : ℕ) → w ≤ 15 → IsBuildable (for_peer_window w)
unfolding for_peer_window
peer_window-IsBuildable w h = ground arith

pub le-for_peer_window : (w : ℕ) → w ≤ (for_peer_window w).window_bits
unfolding for_peer_window
le-for_peer_window w = ground arith

pub decoder_for-Ready :
    (B : Backend) (n : Negotiated)
    → 8 ≤ peer_max_window_bits n
    → peer_max_window_bits n ≤ 15
    → (d : Decoder B) × (decoder_for B n ≡ ok d) × Ready B n d
unfolding decoder_for
decoder_for-Ready B n lo hi =
    let valid = peer_window-IsBuildable (peer_max_window_bits n) hi in
    let (i, h) = build-total B (for_peer_window (peer_max_window_bits n)) valid in
    (
      record {
        config = for_peer_window (peer_max_window_bits n);
        inflater = i;
        reset_between_messages = peer_no_context_takeover n;
        stream_open = false;
        delivered = 0;
        poisoned = false;
      },
      rw h refl,
      record {
        buildable = valid;
        wide_enough = le-for_peer_window (peer_max_window_bits n);
        resets = refl;
        nothing_yet = refl;
        sound = refl;
      },
    )
