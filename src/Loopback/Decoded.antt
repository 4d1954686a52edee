-- ===== src/Loopback/Decoded.antt =====
-- Proofs about `Decoder::decompress` of src/codec.rs, on the final fragment of a message that a
-- stream carries.
use ws_pmd_rs.Base.{
  ℕ, arith, ◌<◌, ◌≡◌, inl, inr, refl, ap, ◌∙◌, sym, Bool, true, false, [], ◌++◌, Bytes, some,
  if-false, Bool-cases, Outcome, ok, err, panic, if-arms, if-true, arith,
}
use ws_pmd_rs.Error.{CodecError}
use ws_pmd_rs.Codec.Backend.{Backend}
use ws_pmd_rs.Codec.Numbers.{usize_max, trailer}
use ws_pmd_rs.Codec.Inflater.{
  InflaterConfig, default_inflater_window_bits, build, Decoder, reinitialise_inflater,
  resets_in_place, reinitialise,
}
use ws_pmd_rs.Codec.Inflate.{Inflated, inflate}
use ws_pmd_rs.Codec.NoPanic.{IsBuildable}
use ws_pmd_rs.Codec.Decompress.{
  closed, after_trailer, after_input, decode, Decompressed, conclude, decompress,
}
use ws_pmd_rs.Loopback.Format.{Format, Inflates}
use ws_pmd_rs.Loopback.Read.{Sent, Read, first, second}

module _ (F : Format) (D : Backend) (law : Inflates F D) (limit : ℕ)
    (small : limit < usize_max) where
  module _ (d : Decoder D) (m payload : Bytes) (s : Sent F D law limit small d m payload) where
    -- Where the decoder is behind the message: its stream goes on, or a new one begins.
    pub data Follows (e : Decoder D) : Type 0 where
      goes_on :
          e.reset_between_messages ≡ false
          → law.fed e.inflater ≡ law.fed d.inflater ++ (m ++ trailer)
          → law.given e.inflater ≡ law.given d.inflater ++ payload
          → e.stream_open ≡ true
          → Follows e
      begins :
          e.reset_between_messages ≡ true
          → law.fed e.inflater ≡ []
          → law.given e.inflater ≡ []
          → Follows e

    pub record Delivers (r : Decompressed D limit) : Type 0 where
      pub result : r.result ≡ ok payload
      pub nothing_yet : r.decoder.delivered ≡ 0
      pub healthy : r.decoder.poisoned ≡ false
      pub config : r.decoder.config ≡ d.config
      pub reset_between_messages : r.decoder.reset_between_messages ≡ d.reset_between_messages
      pub window : law.window r.decoder.inflater ≡ r.decoder.config.window_bits
      pub follows : Follows r.decoder

    in_place :
        (c : InflaterConfig)
        → resets_in_place c ≡ true
        → c.window_bits ≡ default_inflater_window_bits
    unfolding resets_in_place
    in_place c h = ground (arith, h)

    restart :
        (t : Inflated D limit)
        → IsBuildable t.decoder.config
        → (i : D.Decompress) × (reinitialise_inflater D t.decoder.config t.decoder.inflater ≡ ok i)
          × (law.fed i ≡ [])
          × (law.given i ≡ [])
          × (law.window i ≡ t.decoder.config.window_bits)
    unfolding reinitialise_inflater build
    restart t v = elim (Bool-cases (resets_in_place t.decoder.config)) [
      | inl e ↦
          let (f, g, w) = law.restarted t.decoder.inflater t.decoder.config.zlib_header in
          (_, rw e refl, f, g, w ∙ sym (in_place t.decoder.config e))
      | inr e ↦
          let c = t.decoder.config in
          let (i, h) = D.builds c.zlib_header c.window_bits v.floor v.ceiling in
          let (f, g, w) = law.fresh c.zlib_header c.window_bits i h in (i, rw (e, h) refl, f, g, w)
    ]

    module _ (t : Inflated D limit) (q : Read F D law limit small d m payload s t) where
      still_wide : law.window t.decoder.inflater ≡ t.decoder.config.window_bits
      still_wide = q.same_window ∙ s.window ∙ ap (λ c. c.window_bits) (sym q.keeps.config)

      closed-Delivers :
          t.decoder.reset_between_messages ≡ true
          → (i : D.Decompress) → law.fed i ≡ []
          → law.given i ≡ []
          → law.window i ≡ t.decoder.config.window_bits
          → Delivers (
              conclude D limit true
                (closed D limit t (ok (record t.decoder { inflater = i; stream_open = false })))
                (ok tt))
      closed-Delivers e i f g w = record {
        result = ap ok q.output;
        nothing_yet = refl;
        healthy = q.keeps.poisoned ∙ s.healthy;
        config = q.keeps.config;
        reset_between_messages = q.keeps.reset_between_messages;
        window = w;
        follows = begins e f g;
      }

      kept-Delivers :
          t.decoder.reset_between_messages ≡ false
          → Delivers (
              conclude D limit true
                (record { decoder = t.decoder; output = t.output; answer = ok tt })
                (ok tt))
      kept-Delivers e = record {
        result = ap ok q.output;
        nothing_yet = refl;
        healthy = q.keeps.poisoned ∙ s.healthy;
        config = q.keeps.config;
        reset_between_messages = q.keeps.reset_between_messages;
        window = still_wide;
        follows = goes_on e q.fed_all q.given_all q.is_open;
      }

      reinitialised :
          (i : D.Decompress)
          → reinitialise_inflater D t.decoder.config t.decoder.inflater ≡ ok i
          → reinitialise D t.decoder ≡ ok (record t.decoder { inflater = i; stream_open = false })
      unfolding reinitialise
      reinitialised i h = rw h refl

      after_trailer-Delivers :
          (a : Outcome CodecError Bool)
          → a ≡ ok false
          → Delivers
              (conclude D limit true (after_trailer D limit t a) (after_trailer D limit t a).answer)
      after_trailer-Delivers (ok false) z =
          if-arms (λ x. Delivers (conclude D limit true x x.answer))
            t.decoder.reset_between_messages
            (λ e.
              let (i, h, f, g, w) = restart t (rw q.keeps.config s.buildable) in
              rw (reinitialised i h) (closed-Delivers e i f g w))
            kept-Delivers
      after_trailer-Delivers (ok true) z = cc
      after_trailer-Delivers (err e) z = cc
      after_trailer-Delivers panic z = cc

    after_input-open :
        (r : Inflated D limit) (a : Outcome CodecError Bool) {t : Inflated D limit}
        → a ≡ ok false
        → r.decoder.stream_open ≡ true
        → inflate D limit r.decoder trailer r.output ≡ some t
        → after_input D limit true r a ≡ some (after_trailer D limit t t.answer)
    after_input-open r (ok b) z o k = if-true r.decoder.stream_open _ o ∙ rw k refl
    after_input-open r (err e) z o k = cc
    after_input-open r panic z o k = cc

    pub decompress-Delivers :
        (r : Decompressed D limit) × (decompress D limit d m true ≡ some r) × Delivers r
    unfolding decompress decode
    decompress-Delivers =
        let (r, h, q) = first F D law limit small d m payload s in
        let (t, k, e) = second F D law limit small d m payload s r q in
        (
          _,
          if-false d.poisoned _ s.healthy
              ∙ rw h (rw (after_input-open r r.answer q.answer (q.opens s.opens) k) refl),
          after_trailer-Delivers t e t.answer e.answer,
        )
