-- ===== src/Loopback/Paired.antt =====
-- Proofs about `prepare_message` and `commit` of src/encoder.rs against `decompress` of
-- src/codec.rs.
use ws_pmd_rs.Base.{
  ℕ, append_assoc, ◌+◌, ◌≤◌, ◌<◌, ◌≡◌, ◌⊎◌, inl, inr, ap, ◌∙◌, sym, Bool, true, false, [], ◌++◌,
  Bytes, some, length, if◌then◌else◌, ok,
}
use ws_pmd_rs.Codec.Backend as Inflate
use ws_pmd_rs.Codec.Numbers.{usize_max, trailer}
use ws_pmd_rs.Codec.Inflater.{Decoder}
use ws_pmd_rs.Codec.NoPanic.{IsBuildable}
use ws_pmd_rs.Codec.Decompress.{Decompressed, decompress}
use ws_pmd_rs.Encoder.Backend as Deflate
use ws_pmd_rs.Encoder.Bounded.{Bounded}
use ws_pmd_rs.Encoder.Strip.{IsMessageOf}
use ws_pmd_rs.Encoder.Drive.Whole.{IsFragmentOf, Whole}
use ws_pmd_rs.Loopback.Format.{Format, Inflates, Deflates}
use ws_pmd_rs.Loopback.Decoded.{Follows, goes_on, begins, Delivers, decompress-Delivers}
use ws_pmd_rs.Loopback.Read.{Sent}
use ws_pmd_rs.Loopback.Passed.{Passing, Passes, decompress-Passes}
use ws_pmd_rs.Loopback.InStep.{
  InStep, InStep-settled, fresh-InStep, anew-InStep, Carried, message-Carried, message_opens,
  fragment-Carried, fragment_opens,
}

module _ (F : Format) (E : Deflate.Backend) (b : Bounded E) (out : Deflates F E b)
    (D : Inflate.Backend) (law : Inflates F D) where
  -- A compressor, whether it is reset between messages, and a decoder at the other end that has
  -- delivered `n` octets of a message.
  pub record Paired (reset : Bool) (c : E.Compress) (d : Decoder D) (n : ℕ) : Type 0 where
    pub in_step : InStep F E b out D law c d.inflater
    pub same_reset : d.reset_between_messages ≡ reset
    pub opens : (d.stream_open ≡ true) ⊎ (b.put_out c ≡ [])
    pub window : law.window d.inflater ≡ d.config.window_bits
    pub buildable : IsBuildable d.config
    pub healthy : d.poisoned ≡ false
    pub counted : d.delivered ≡ n

  -- `reset_to_plain`: the compressor starts anew, and the decoder at the other end sees nothing of
  -- it.
  pub plain-Paired :
      (reset : Bool) (c k : E.Compress) (d : Decoder D) (n : ℕ)
      → Paired reset c d n
      → b.window k ≡ b.window c
      → Paired reset (E.reset k) d n
  plain-Paired reset c k d n p w =
      let (taken, put, owed, same_window) = out.restarted k in
      record {
        in_step =
            anew-InStep F E b out D law c d.inflater (E.reset k) p.in_step (taken, put, owed)
              (same_window ∙ w);
        same_reset = p.same_reset;
        opens = inr put;
        window = p.window;
        buildable = p.buildable;
        healthy = p.healthy;
        counted = p.counted;
      }

  -- What the other end makes of what is committed: its payload, and the two are paired again.
  pub record Received (limit : ℕ) (last reset : Bool) (after : E.Compress) (d : Decoder D)
      (payload octets : Bytes) (n : ℕ) : Type 0 where
    pub received : Decompressed D limit
    pub returns : decompress D limit d octets last ≡ some received
    pub result : received.result ≡ ok payload
    pub paired : Paired reset after received.decoder n

  module _ (limit : ℕ) (small : limit < usize_max) (reset : Bool) (d : Decoder D) (n : ℕ)
      (before c : E.Compress) (p : Paired reset before d n) (payload output m : Bytes)
      (w : Whole E b before payload c output) (slice : length m ≤ usize_max)
      (fits : n + length payload ≤ limit) where
    narrow : b.window c ≤ law.window d.inflater
    narrow = rw w.same_window p.in_step.narrow

    fits_too : d.delivered + length payload ≤ limit
    fits_too = rw p.counted fits

    Carried-InStep :
        (octets : Bytes) (i : D.Decompress)
        → Carried F E b out D law p.in_step.earlier c d.inflater payload octets
        → law.fed i ≡ law.fed d.inflater ++ octets
        → law.given i ≡ law.given d.inflater ++ payload
        → b.window c ≤ law.window i
        → InStep F E b out D law c i
    Carried-InStep octets i k f g n = record {
      earlier = p.in_step.earlier;
      narrow = n;
      nothing_owed = w.nothing_owed;
      caught_up =
          g
          ∙ ap (λ t. t ++ payload) p.in_step.caught_up
          ∙ append_assoc p.in_step.earlier (b.taken_in before) payload
          ∙ ap (λ t. p.in_step.earlier ++ t) (sym w.took_whole);
      carries = λ more h. rw f (k.after more h).0;
      means = λ more h. rw f (k.after more h).1;
    }

    module _ (framed : IsMessageOf payload output m) where
      carried : Carried F E b out D law p.in_step.earlier c d.inflater payload (m ++ trailer)
      carried =
          message-Carried F E b out D law before c d.inflater p.in_step payload output w m framed

      sent : Sent F D law limit small d m payload
      sent = record {
        input_is_slice = slice;
        buildable = p.buildable;
        healthy = p.healthy;
        opens = by p.opens;
        settled = InStep-settled F E b out D law before d.inflater p.in_step;
        is_stream =
            F.IsStream-wider (b.window c) (law.window d.inflater) _ narrow carried.is_stream;
        window = p.window;
        means = carried.means;
        fits = fits_too;
      }
        where
          by :
              (d.stream_open ≡ true) ⊎ (b.put_out before ≡ [])
              → (d.stream_open ≡ true) ⊎ (0 < length m)
          by (inl o) = inl o
          by (inr z) = inr (
              message_opens F E b out D law before c d.inflater p.in_step payload output w m framed
                z)

      -- What is reset behind the message at one end is reset at the other.
      message-Paired :
          (r : Decompressed D limit)
          → Delivers F D law limit small d m payload sent r
          → Follows F D law limit small d m payload sent r.decoder
          → Paired reset (if reset then E.reset c else c) r.decoder 0
      message-Paired r q (goes_on kept f v o) =
          rw (sym p.same_reset ∙ sym q.reset_between_messages ∙ kept) (record {
            in_step =
                Carried-InStep (m ++ trailer) r.decoder.inflater carried f v
                  (rw (q.window, q.config, ← p.window) narrow);
            same_reset = kept;
            opens = inl o;
            window = q.window;
            buildable = rw q.config p.buildable;
            healthy = q.healthy;
            counted = q.nothing_yet;
          })
      message-Paired r q (begins reset_too f v) =
          let (taken, put, owed, same_window) = out.restarted c in
          rw (sym p.same_reset ∙ sym q.reset_between_messages ∙ reset_too) (record {
            in_step =
                fresh-InStep F E b out D law (E.reset c) r.decoder.inflater (taken, put, owed)
                  (f, v) (rw (same_window, q.window, q.config, ← p.window) narrow);
            same_reset = reset_too;
            opens = inr put;
            window = q.window;
            buildable = rw q.config p.buildable;
            healthy = q.healthy;
            counted = q.nothing_yet;
          })

      pub message-Received :
          Received limit true reset (if reset then E.reset c else c) d payload m 0
      message-Received =
          let (r, h, q) = decompress-Delivers F D law limit small d m payload sent in
          record {
            received = r;
            returns = h;
            result = q.result;
            paired = message-Paired r q q.follows;
          }

    module _ (framed : IsFragmentOf payload output m) where
      passed : Carried F E b out D law p.in_step.earlier c d.inflater payload m
      passed =
          fragment-Carried F E b out D law before c d.inflater p.in_step payload output w m framed

      passing : Passing F D law limit small d m payload
      passing = record {
        input_is_slice = slice;
        healthy = p.healthy;
        is_stream = F.IsStream-wider (b.window c) (law.window d.inflater) _ narrow passed.is_stream;
        means = passed.means;
        fits = fits_too;
      }

      fragment-Paired :
          (r : Decompressed D limit)
          → Passes F D law limit small d m payload passing r
          → Paired reset c r.decoder (n + length payload)
      fragment-Paired r q = record {
        in_step =
            Carried-InStep m r.decoder.inflater passed q.fed_all q.given_all
              (rw q.same_window narrow);
        same_reset = q.reset_between_messages ∙ p.same_reset;
        opens = by p.opens;
        window = q.same_window ∙ p.window ∙ ap (λ c. c.window_bits) (sym q.config);
        buildable = rw q.config p.buildable;
        healthy = q.healthy;
        counted = q.counted ∙ ap (λ t. t + length payload) p.counted;
      }
        where
          begun :
              (0 < length m) ⊎ (b.put_out c ≡ [])
              → (r.decoder.stream_open ≡ true) ⊎ (b.put_out c ≡ [])
          begun (inl o) = inl (q.opens (inr o))
          begun (inr z) = inr z

          by :
              (d.stream_open ≡ true) ⊎ (b.put_out before ≡ [])
              → (r.decoder.stream_open ≡ true) ⊎ (b.put_out c ≡ [])
          by (inl o) = inl (q.opens (inl o))
          by (inr z) = begun (
              fragment_opens F E b out D law before c d.inflater p.in_step payload output w m framed
                z)

      pub fragment-Received : Received limit false reset c d payload m (n + length payload)
      fragment-Received =
          let (r, h, q) = decompress-Passes F D law limit small d m payload passing in
          record { received = r; returns = h; result = q.result; paired = fragment-Paired r q }
