-- ===== src/Codec/Delivered.antt =====
-- Proofs about `Decoder::decompress` in src/codec.rs.
use ws_pmd_rs.Base.{
  ℕ, ◌+◌, ◌≤◌, ◌<◌, ◌≡◌, refl, ap, ◌∙◌, Bool, true, false, [], Bytes, some, some-injective,
  and_then-eq-some, length, if◌then◌else◌, arith, if-arms, Outcome, ok, err, panic, ok-injective,
}
use ws_pmd_rs.Error.{CodecError}
use ws_pmd_rs.Codec.Backend.{Backend}
use ws_pmd_rs.Codec.Numbers.{usize_max, saturating_add, trailer}
use ws_pmd_rs.Codec.Inflater.{Decoder, reinitialise}
use ws_pmd_rs.Codec.Inflate.{Inflated, inflate}
use ws_pmd_rs.Codec.Progress.{Keeps, reinitialise-Keeps}
use ws_pmd_rs.Codec.Bounded.{inflate-total, Within, inflate-Within}
use ws_pmd_rs.Codec.Decompress.{
  Decoded, closed, after_trailer, after_input, decode, Decompressed, conclude, decompress,
}

module _ (B : Backend) (limit : ℕ) where
  -- What a call that delivers bytes guarantees.
  pub record Returned (d : Decoder B) (final : Bool) (output : Bytes) (e : Decoder B) : Type 0 where
    pub was_sound : d.poisoned ≡ false
    pub still_sound : e.poisoned ≡ false
    -- The message so far is within the limit.
    pub fits : d.delivered + length output ≤ limit
    pub counted : e.delivered ≡ (if final then 0 else d.delivered + length output)
    pub config_kept : e.config ≡ d.config
    pub reset_kept : e.reset_between_messages ≡ d.reset_between_messages

module _ (B : Backend) (limit : ℕ) (small : limit < usize_max) where
  after_input-total :
      (final : Bool) (r : Inflated B limit) (a : Outcome CodecError Bool)
      → (e : Decoded B limit) × (after_input B limit final r a ≡ some e)
  after_input-total false r (ok ended) = (_, refl)
  after_input-total true r (ok ended) =
      let (t, h) = inflate-total B limit small r.decoder trailer r.output in
      if-arms (λ x. (e : Decoded B limit) × (x ≡ some e)) r.decoder.stream_open
        (λ e. rw h (_, refl)) (λ e. (_, refl))
  after_input-total false r (err e) = (_, refl)
  after_input-total true r (err e) = (_, refl)
  after_input-total false r panic = (_, refl)
  after_input-total true r panic = (_, refl)

  -- With a limit below the largest `usize`, the loops of `decompress` end, whatever the backend
  -- does.
  pub decompress-total :
      (d : Decoder B) (input : Bytes) (final : Bool)
      → (r : Decompressed B limit) × (decompress B limit d input final ≡ some r)
  unfolding decompress decode
  decompress-total d input final =
      let (i, hi) = inflate-total B limit small d input [] in
      let (r, hr) = after_input-total final i i.answer in
      if-arms (λ x. (r : Decompressed B limit) × (x ≡ some r)) d.poisoned (λ e. (_, refl))
        (λ e. rw (hi, hr) (_, refl))

  pub record DecodedWithin (d : Decoder B) (r : Decoded B limit) : Type 0 where
    pub keeps : Keeps B d r.decoder
    pub fits : d.delivered + length r.output ≤ limit

  Keeps-again : {c d e : Decoder B} → Keeps B c d → Keeps B d e → Keeps B c e
  Keeps-again p q = record {
    config = q.config ∙ p.config;
    reset_between_messages = q.reset_between_messages ∙ p.reset_between_messages;
    delivered = q.delivered ∙ p.delivered;
    poisoned = q.poisoned ∙ p.poisoned;
  }

  closed-Within :
      (d : Decoder B) (t : Inflated B limit) (o : Outcome CodecError (Decoder B))
      → Within B limit small d t
      → ((e : Decoder B) → o ≡ ok e → Keeps B t.decoder e)
      → (closed B limit t o).answer ≡ ok tt
      → DecodedWithin d (closed B limit t o)
  closed-Within d t (ok e) w k a = record {
    keeps = Keeps-again w.keeps (k e refl);
    fits = rw (← w.keeps.delivered) w.fits;
  }
  closed-Within d t (err e) w k a = cc
  closed-Within d t panic w k a = cc

  after_trailer-Within :
      (d : Decoder B) (t : Inflated B limit) (a : Outcome CodecError Bool)
      → (a ≡ ok false → Within B limit small d t)
      → (after_trailer B limit t a).answer ≡ ok tt
      → DecodedWithin d (after_trailer B limit t a)
  after_trailer-Within d t (ok true) w = λ h. cc
  after_trailer-Within d t (ok false) w =
      if-arms (λ x. x.answer ≡ ok tt → DecodedWithin d x) t.decoder.reset_between_messages
        (λ e.
          closed-Within d t (reinitialise B t.decoder) (w refl)
            (λ c k. reinitialise-Keeps B t.decoder k))
        (λ e h. record {
          keeps = (w refl).keeps;
          fits = rw (← (w refl).keeps.delivered) (w refl).fits;
        })
  after_trailer-Within d t (err e) w = λ h. cc
  after_trailer-Within d t panic w = λ h. cc

  decoded-Within :
      (d : Decoder B) (r : Inflated B limit) {a : Outcome CodecError (Unit {0})}
      → Within B limit small d r
      → DecodedWithin d (record { decoder = r.decoder; output = r.output; answer = a })
  decoded-Within d r w = record { keeps = w.keeps; fits = rw (← w.keeps.delivered) w.fits }

  after_input-Within :
      (d : Decoder B) (final : Bool) (r : Inflated B limit) (a : Outcome CodecError Bool)
      {e : Decoded B limit}
      → ((b : Bool) → a ≡ ok b → Within B limit small d r)
      → after_input B limit final r a ≡ some e
      → e.answer ≡ ok tt
      → DecodedWithin d e
  after_input-Within d false r (ok ended) w =
      λ h k. rw (← some-injective h) (decoded-Within d r (w ended refl))
  after_input-Within d true r (ok ended) {e} w =
      if-arms (λ x. x ≡ some e → e.answer ≡ ok tt → DecodedWithin d e) r.decoder.stream_open
        (λ open_stream h k.
          let (t, ht, made) =
            and_then-eq-some (inflate B limit r.decoder trailer r.output) _ {b = e} h in
          let same = some-injective made in
          rw (← same)
            (after_trailer-Within d t t.answer (λ f. through t ht f) (ap (λ x. x.answer) same ∙ k)))
        (λ closed_stream h k. cc (ap (λ x. x.answer) (some-injective h) ∙ k))
    where
      through :
          (t : Inflated B limit)
          → inflate B limit r.decoder trailer r.output ≡ some t
          → t.answer ≡ ok false
          → Within B limit small d t
      through t ht f =
          let after = inflate-Within B limit small r.decoder trailer r.output ht f in
          record { keeps = Keeps-again (w ended refl).keeps after.keeps; fits = after.fits }
  after_input-Within d false r (err e) w = λ h k. cc (ap (λ x. x.answer) (some-injective h) ∙ k)
  after_input-Within d true r (err e) w = λ h k. cc (ap (λ x. x.answer) (some-injective h) ∙ k)
  after_input-Within d false r panic w = λ h k. cc (ap (λ x. x.answer) (some-injective h) ∙ k)
  after_input-Within d true r panic w = λ h k. cc (ap (λ x. x.answer) (some-injective h) ∙ k)

  pub decode-Within :
      (d : Decoder B) (input : Bytes) (final : Bool) {e : Decoded B limit}
      → decode B limit d input final ≡ some e
      → e.answer ≡ ok tt
      → DecodedWithin d e
  unfolding decode
  decode-Within d input final {e} h k =
      let (r, hr, made) = and_then-eq-some (inflate B limit d input []) _ {b = e} h in
      after_input-Within d final r r.answer (λ b a. inflate-Within B limit small d input [] hr a)
        made k

  count_exact : (a n : ℕ) → a + n ≤ limit → saturating_add a n ≡ a + n
  count_exact a n h = ground (arith, small, h)

  pub conclude-Returned :
      (d : Decoder B) (final : Bool) (r : Decoded B limit) (a : Outcome CodecError (Unit {0}))
      {output : Bytes}
      → d.poisoned ≡ false
      → (a ≡ ok tt → DecodedWithin d r)
      → (conclude B limit final r a).result ≡ ok output
      → Returned B limit d final output (conclude B limit final r a).decoder
  conclude-Returned d final r (ok u) {output} sound w h =
      let q = w refl in
      let same : r.output ≡ output = ok-injective h in
      let fits = rw same at q.fits in
      record {
        was_sound = sound;
        still_sound = q.keeps.poisoned ∙ sound;
        fits = fits;
        counted =
            ap (λ n. if final then 0 else n)
              (rw (q.keeps.delivered, same) (count_exact d.delivered (length output) fits));
        config_kept = q.keeps.config;
        reset_kept = q.keeps.reset_between_messages;
      }
  conclude-Returned d final r (err e) sound w h = cc
  conclude-Returned d final r panic sound w h = cc
