-- ===== src/Loopback/Read.antt =====
-- Proofs about the two calls of `inflate` in `Decoder::decode` of src/codec.rs, on a message that a
-- stream carries.
use ws_pmd_rs.Base.{
  ℕ, ◌+◌, ◌≤◌, ◌<◌, ◌≡◌, ◌⊎◌, inl, refl, ap, ◌∙◌, sym, true, false, [], ◌∷◌, ◌++◌, append_assoc,
  Bytes, some, length, length-append, replicate, arith, ok,
}
use ws_pmd_rs.Codec.Backend.{Backend}
use ws_pmd_rs.Codec.Numbers.{usize_max, trailer, scratch_length}
use ws_pmd_rs.Codec.Inflater.{Decoder}
use ws_pmd_rs.Codec.Inflate.{Inflated, started, inflate}
use ws_pmd_rs.Codec.Progress.{Keeps, Keeps-trans}
use ws_pmd_rs.Codec.Bounded.{inflate-total}
use ws_pmd_rs.Codec.NoPanic.{IsBuildable}
use ws_pmd_rs.Loopback.Format.{Format, Inflates}
use ws_pmd_rs.Loopback.Rounds.{Midway}
use ws_pmd_rs.Loopback.Drained.{Drained, run-Drained}

append_cancel : (front xs ys : Bytes) → front ++ xs ≡ front ++ ys → xs ≡ ys
append_cancel [] xs ys h = h
append_cancel (x ∷ front) xs ys h = append_cancel front xs ys (tail_of h)
  where
    tail_of : {a b : ℕ} {xs ys : Bytes} → ◌≡◌ {A = Bytes} (a ∷ xs) (b ∷ ys) → xs ≡ ys
    tail_of h = cc

pub started_room : length {A = ℕ} (replicate scratch_length 0) ≡ scratch_length
started_room = refl

module _ (F : Format) (D : Backend) (law : Inflates F D) (limit : ℕ)
    (small : limit < usize_max) where
  -- A decoder that is in step with its stream, and the final fragment of a message.
  pub record Sent (d : Decoder D) (message payload : Bytes) : Type 0 where
    pub input_is_slice : length message ≤ usize_max
    pub buildable : IsBuildable d.config
    pub healthy : d.poisoned ≡ false
    pub opens : (d.stream_open ≡ true) ⊎ (0 < length message)
    pub settled : F.meaning (law.fed d.inflater) ≡ law.given d.inflater
    pub is_stream : F.IsStream (law.window d.inflater) (law.fed d.inflater ++ (message ++ trailer))
    pub means :
        F.meaning (law.fed d.inflater ++ (message ++ trailer)) ≡ law.given d.inflater ++ payload
    pub fits : d.delivered + length payload ≤ limit
    pub window : law.window d.inflater ≡ d.config.window_bits

  module _ (d : Decoder D) (m payload : Bytes) (s : Sent d m payload) where
    abbrev pub fed : Bytes
    fed = law.fed d.inflater

    pub whole_stream : F.IsStream (law.window d.inflater) ((fed ++ m) ++ trailer)
    whole_stream = rw (append_assoc fed m trailer) s.is_stream

    pub part_stream : F.IsStream (law.window d.inflater) (fed ++ m)
    part_stream = F.IsStream-front (law.window d.inflater) (fed ++ m) trailer whole_stream

    -- What the input stands for, and what the trailer adds to it.
    abbrev pub part : Bytes
    part = (F.meaning-append (law.window d.inflater) (law.fed d.inflater) m part_stream).0

    abbrev pub rest : Bytes
    rest =
        (F.meaning-append (law.window d.inflater) (law.fed d.inflater ++ m) trailer whole_stream).0

    part_means : F.meaning (fed ++ m) ≡ law.given d.inflater ++ part
    part_means =
        (F.meaning-append (law.window d.inflater) fed m part_stream).1
        ∙ ap (λ t. t ++ part) s.settled

    whole_means : F.meaning ((fed ++ m) ++ trailer) ≡ F.meaning (fed ++ m) ++ rest
    whole_means = (F.meaning-append (law.window d.inflater) (fed ++ m) trailer whole_stream).1

    payload_split : part ++ rest ≡ payload
    payload_split = append_cancel (law.given d.inflater) (part ++ rest) payload (
        sym (append_assoc (law.given d.inflater) part rest)
        ∙ ap (λ t. t ++ rest) (sym part_means)
        ∙ sym whole_means
        ∙ ap F.meaning (append_assoc fed m trailer)
        ∙ s.means)

    first_Midway : Midway F D law limit small (started D limit d m []) (fed ++ m) part
    first_Midway = record {
      input_is_slice = s.input_is_slice;
      room = rw started_room (omega arith);
      room-le = rw started_room (omega arith);
      streamed = refl;
      is_stream = part_stream;
      means = part_means;
      fits = omega (arith, s.fits, ap length payload_split, length-append part rest);
    }

    pub first :
        (r : Inflated D limit) × (inflate D limit d m [] ≡ some r)
        × Drained F D law limit small (started D limit d m []) (fed ++ m) part r
    unfolding inflate
    first =
        let (r, h) = inflate-total D limit small d m [] in
        (r, h, run-Drained F D law limit small _ _ _ _ first_Midway h)

    second_Midway :
        (r : Inflated D limit)
        → Drained F D law limit small (started D limit d m []) (fed ++ m) part r
        → Midway F D law limit small
            (started D limit r.decoder trailer r.output)
            ((fed ++ m) ++ trailer)
            rest
    second_Midway r q = record {
      input_is_slice = omega arith;
      room = rw started_room (omega arith);
      room-le = rw started_room (omega arith);
      streamed = ap (λ t. t ++ trailer) q.fed_all;
      is_stream = rw q.same_window whole_stream;
      means = whole_means ∙ ap (λ t. t ++ rest) (sym q.given_all);
      fits = omega (
        arith,
        q.keeps.delivered,
        s.fits,
        ap length q.output,
        ap length payload_split,
        length-append part rest,
      );
    }

    -- What both loops leave.
    pub record Read (r : Inflated D limit) : Type 0 where
      pub answer : r.answer ≡ ok false
      pub output : r.output ≡ payload
      pub fed_all : law.fed r.decoder.inflater ≡ fed ++ (m ++ trailer)
      pub given_all : law.given r.decoder.inflater ≡ law.given d.inflater ++ payload
      pub same_window : law.window r.decoder.inflater ≡ law.window d.inflater
      pub is_open : r.decoder.stream_open ≡ true
      pub keeps : Keeps D d r.decoder

    pub second :
        (r : Inflated D limit)
        → Drained F D law limit small (started D limit d m []) (fed ++ m) part r
        → (t : Inflated D limit) × (inflate D limit r.decoder trailer r.output ≡ some t) × Read t
    unfolding inflate
    second r q =
        let (t, h) = inflate-total D limit small r.decoder trailer r.output in
        let e = run-Drained F D law limit small _ _ _ _ (second_Midway r q) h in
        (
          t,
          h,
          record {
            answer = e.answer;
            output = e.output ∙ ap (λ t. t ++ rest) q.output ∙ payload_split;
            fed_all = e.fed_all ∙ append_assoc fed m trailer;
            given_all = e.given_all ∙ ap F.meaning (append_assoc fed m trailer) ∙ s.means;
            same_window = e.same_window ∙ q.same_window;
            is_open = e.opens (inl (q.opens s.opens));
            keeps = Keeps-trans D limit q.keeps e.keeps;
          },
        )
