-- ===== src/Loopback/InStep.antt =====
-- Proofs about the messages of src/encoder.rs, as a part of the stream that the inflater at the
-- other end reads.
use ws_pmd_rs.Base.{
  ◌⊎◌, ◌≤◌, ◌<◌, ◌≡◌, inl, inr, refl, ap, ◌∙◌, sym, [], ◌∷◌, ◌++◌, append-nil, append_assoc, Bytes,
  length, arith,
}
use ws_pmd_rs.Codec.Backend as Inflate
use ws_pmd_rs.Codec.Numbers.{trailer}
use ws_pmd_rs.Encoder.Backend as Deflate
use ws_pmd_rs.Encoder.Bounded.{Bounded}
use ws_pmd_rs.Encoder.Frame.{empty_message}
use ws_pmd_rs.Encoder.Strip.{IsMessageOf}
use ws_pmd_rs.Encoder.Drive.Whole.{IsFragmentOf, Whole}
use ws_pmd_rs.Loopback.Format.{Format, Inflates, Deflates}

module _ (F : Format) (E : Deflate.Backend) (b : Bounded E) (out : Deflates F E b)
    (D : Inflate.Backend) (law : Inflates F D) where
  -- Behind what it put out earlier, the inflater has put out what the compressor took in, and more
  -- of the compressor's stream is more of its own.
  pub record InStep (c : E.Compress) (i : D.Decompress) : Type 0 where
    pub earlier : Bytes
    pub nothing_owed : b.owed c ≡ 0
    pub caught_up : law.given i ≡ earlier ++ b.taken_in c
    pub narrow : b.window c ≤ law.window i
    pub carries :
        (more : Bytes)
        → F.IsStream (b.window c) (b.put_out c ++ more)
        → F.IsStream (b.window c) (law.fed i ++ more)
    pub means :
        (more : Bytes)
        → F.IsStream (b.window c) (b.put_out c ++ more)
        → F.meaning (law.fed i ++ more) ≡ earlier ++ F.meaning (b.put_out c ++ more)

  pub fresh-InStep :
      (c : E.Compress) (i : D.Decompress)
      → (b.taken_in c ≡ []) × (b.put_out c ≡ []) × (b.owed c ≡ 0)
      → (law.fed i ≡ []) × (law.given i ≡ [])
      → b.window c ≤ law.window i
      → InStep c i
  fresh-InStep c i (t, p, o) (f, g) n = record {
    earlier = [];
    narrow = n;
    nothing_owed = o;
    caught_up = g ∙ sym t;
    carries = λ more h. rw f (rw p at h);
    means = λ more h. rw (f, p) refl;
  }

  pub InStep-settled :
      (c : E.Compress) (i : D.Decompress) → InStep c i → F.meaning (law.fed i) ≡ law.given i
  InStep-settled c i s =
      let (stream, same, blocks) = out.flushed c s.nothing_owed in
      ap F.meaning (sym (append-nil (law.fed i)))
      ∙ s.means [] (rw (append-nil (b.put_out c)) stream)
      ∙ ap (λ t. s.earlier ++ t) (ap F.meaning (append-nil (b.put_out c)) ∙ same)
      ∙ sym s.caught_up

  -- Where the compressor is reset and the inflater is not told: what it puts out anew goes on from
  -- there.
  pub anew-InStep :
      (c : E.Compress) (i : D.Decompress) (k : E.Compress)
      → InStep c i
      → (b.taken_in k ≡ []) × (b.put_out k ≡ []) × (b.owed k ≡ 0)
      → b.window k ≡ b.window c
      → InStep k i
  anew-InStep c i k s (t, p, o) w = record {
    earlier = law.given i;
    nothing_owed = o;
    caught_up = rw t (sym (append-nil (law.given i)));
    narrow = rw w s.narrow;
    carries = λ more h. rw w (s.carries more (out.anew c more s.nothing_owed (rw (w, p) at h)).0);
    means = λ more h.
        let (stream, split) = out.anew c more s.nothing_owed (rw (w, p) at h) in
        rw p (
          s.means more stream
          ∙ ap (λ t. s.earlier ++ t) split
          ∙ sym (append_assoc s.earlier (b.taken_in c) (F.meaning more))
          ∙ ap (λ t. t ++ F.meaning more) (sym s.caught_up));
  }

  -- What more octets of the stream are to the inflater, behind which the compressor is `d`.
  pub record Carried (earlier : Bytes) (d : E.Compress) (i : D.Decompress) (payload octets : Bytes)
      : Type 0 where
    pub is_stream : F.IsStream (b.window d) (law.fed i ++ octets)
    pub means : F.meaning (law.fed i ++ octets) ≡ law.given i ++ payload
    pub after :
        (more : Bytes)
        → F.IsStream (b.window d) (b.put_out d ++ more)
        → F.IsStream (b.window d) ((law.fed i ++ octets) ++ more)
          × (F.meaning ((law.fed i ++ octets) ++ more) ≡ earlier ++ F.meaning (b.put_out d ++ more))

  module _ (c d : E.Compress) (i : D.Decompress) (s : InStep c i) (payload output : Bytes)
      (w : Whole E b c payload d output) where
    written-Carried : Carried s.earlier d i payload output
    written-Carried =
        let (stream, same, blocks) = out.flushed d w.nothing_owed in
        record {
          is_stream =
              rw w.same_window (s.carries output (rw (w.same_window, w.streamed) at stream));
          means =
              s.means output (rw (w.same_window, w.streamed) at stream)
              ∙ ap (λ t. s.earlier ++ t) (ap F.meaning (sym w.streamed) ∙ same ∙ w.took_whole)
              ∙ sym (append_assoc s.earlier (b.taken_in c) payload)
              ∙ ap (λ t. t ++ payload) (sym s.caught_up);
          after = λ more h.
              let longer : b.put_out d ++ more ≡ b.put_out c ++ (output ++ more) =
                ap (λ t. t ++ more) w.streamed ∙ append_assoc (b.put_out c) output more in
              rw (w.same_window, append_assoc (law.fed i) output more)
                (
                  s.carries (output ++ more) (rw (w.same_window, longer) at h),
                  s.means (output ++ more) (rw (w.same_window, longer) at h)
                      ∙ ap (λ t. s.earlier ++ F.meaning t) (sym longer),
                );
        }

    -- The message that is made up for an empty payload.
    empty-Carried :
        payload ≡ [] → output ≡ [] → Carried s.earlier d i payload (empty_message ++ trailer)
    empty-Carried p o =
        let (stream, same, blocks) = out.flushed c s.nothing_owed in
        let put : b.put_out d ≡ b.put_out c =
          w.streamed ∙ ap (λ t. b.put_out c ++ t) o ∙ append-nil (b.put_out c) in
        let (longer, alike) =
          out.empty_block c [] s.nothing_owed (rw (append-nil (b.put_out c)) stream) in
        rw p (record {
          is_stream = rw w.same_window (s.carries (empty_message ++ trailer) longer);
          means =
              s.means (empty_message ++ trailer) longer
              ∙ ap (λ t. s.earlier ++ t) (alike ∙ ap F.meaning (append-nil (b.put_out c)) ∙ same)
              ∙ sym s.caught_up
              ∙ sym (append-nil (law.given i));
          after = λ more h.
              let (longer, so) =
                out.empty_block c more s.nothing_owed (rw (w.same_window, put) at h) in
              rw (w.same_window, append_assoc (law.fed i) (empty_message ++ trailer) more)
                (
                  s.carries ((empty_message ++ trailer) ++ more) longer,
                  s.means ((empty_message ++ trailer) ++ more) longer
                      ∙ ap (λ t. s.earlier ++ t) (so ∙ ap (λ t. F.meaning (t ++ more)) (sym put)),
                );
        })

    module _ (m : Bytes) where
      pub message-Carried :
          IsMessageOf payload output m → Carried s.earlier d i payload (m ++ trailer)
      message-Carried (inl e) = rw (← e) written-Carried
      message-Carried (inr (p, o, e)) = rw e (empty-Carried p o)

      pub fragment-Carried : IsFragmentOf payload output m → Carried s.earlier d i payload m
      fragment-Carried (e, ended) = rw (← e) written-Carried

      -- Where a stream begins, its first message is not empty.
      pub message_opens : IsMessageOf payload output m → b.put_out c ≡ [] → 0 < length m
      message_opens (inl e) z = by m e
        where
          by : (m : Bytes) → output ≡ m ++ trailer → 0 < length m
          by [] e =
              absurd (F.trailer_alone (rw (w.streamed, z, e) at (out.flushed d w.nothing_owed).2))
          by (x ∷ m) e = omega arith
      message_opens (inr (p, o, e)) z = rw e (omega arith)

      -- Where a stream begins, a fragment is not empty, or the stream is yet to begin.
      pub fragment_opens :
          IsFragmentOf payload output m → b.put_out c ≡ [] → (0 < length m) ⊎ (b.put_out d ≡ [])
      fragment_opens (e, ended) z = by m e
        where
          by : (m : Bytes) → output ≡ m → (0 < length m) ⊎ (b.put_out d ≡ [])
          by [] e = inr (w.streamed ∙ ap (λ t. t ++ output) z ∙ e)
          by (x ∷ m) e = inl (omega arith)
