-- ===== src/Loopback/Posted.antt =====
-- Proofs about one call of src/encoder.rs that produces and what is committed of it, against
-- `decompress` of src/codec.rs.
use ws_pmd_rs.Base.{
  ℕ, ◌+◌, ◌*◌, ◌≤◌, ◌<◌, ◌≡◌, ap, ◌∙◌, sym, Bool, true, false, Bytes, Option, some, some-injective,
  and_then, length, arith, if◌then◌else◌, Outcome, ok, err, panic,
}
use ws_pmd_rs.Error.{CodecError}
use ws_pmd_rs.Codec.Backend as Inflate
use ws_pmd_rs.Codec.Numbers.{usize_max}
use ws_pmd_rs.Codec.Inflater.{Decoder}
use ws_pmd_rs.Encoder.Backend as Deflate
use ws_pmd_rs.Encoder.Bounded.{Bounded}
use ws_pmd_rs.Encoder.Drive.{Produced, produce, produce_non_final}
use ws_pmd_rs.Encoder.Drive.Whole.{produce-Complete, produce_non_final-Complete}
use ws_pmd_rs.Encoder.Transaction.{Encoder, Phase, State, hold}
use ws_pmd_rs.Loopback.Format.{Format, Inflates, Deflates}
use ws_pmd_rs.Loopback.Paired.{Paired, Received, message-Received, fragment-Received}
use ws_pmd_rs.Loopback.Hosts.{Posted, confirm}

module _ (E : Deflate.Backend) (make : E.Compress → Bytes → Phase E) where
  -- A call that produces, and the commit of what it holds.
  abbrev pub posted : Encoder E → Option (Produced E) → Option (Posted E)
  posted g run =
      and_then (and_then run (λ p. some (hold E make g p.compressor p.message)))
        (λ q. confirm E q.state.encoder q.state.phase)

module _ (E : Deflate.Backend) (make : E.Compress → Bytes → Phase E)
    (next : Encoder E → E.Compress → State E)
    (posts : (g : Encoder E) (c : E.Compress) (m : Bytes)
      → confirm E g (make c m) ≡ some (record { octets = m; state = next g c })) where
  -- What goes out was produced, and the transaction that held it is over.
  held-posted :
      (g : Encoder E) (r : Produced E) (a : Outcome CodecError Bytes) {t : Posted E}
      → confirm E
          (hold E make g r.compressor a).state.encoder
          (hold E make g r.compressor a).state.phase
        ≡ some t
      → (a ≡ ok t.octets) × (t.state ≡ next g r.compressor)
  held-posted g r (ok m) h =
      let e = some-injective (sym (posts g r.compressor m) ∙ h) in
      (ap (λ t. ok t.octets) e, ap (λ t. t.state) (sym e))
  held-posted g r (err x) h = cc
  held-posted g r panic h = cc

module _ (F : Format) (E : Deflate.Backend) (b : Bounded E) (out : Deflates F E b)
    (D : Inflate.Backend) (law : Inflates F D) (limit fuel : ℕ) (small : limit < usize_max) where
  abbrev pub HasFuel : Bytes → Type 0
  HasFuel payload = length payload + b.growth * length payload < fuel

  module _ (make : E.Compress → Bytes → Phase E) (next : Encoder E → E.Compress → State E)
      (posts : (g : Encoder E) (c : E.Compress) (m : Bytes)
        → confirm E g (make c m) ≡ some (record { octets = m; state = next g c }))
      (g : Encoder E) (reset : Bool) (c : E.Compress) (d : Decoder D) (n : ℕ)
      (p : Paired F E b out D law reset c d n) (payload : Bytes) (enough : HasFuel payload)
      (fits : n + length payload ≤ limit) {t : Posted E} (slice : length t.octets ≤ usize_max) where
    pub last-Received :
        posted E make g (produce E fuel c payload) ≡ some t
        → (k : E.Compress) × (t.state ≡ next g k)
          × Received F E b out D law limit true reset
              (if reset then E.reset k else k)
              d
              payload
              t.octets
              0
    last-Received h =
        let (r, ran, complete) =
          produce-Complete E b fuel c payload (omega (arith, enough, p.in_step.nothing_owed)) in
        let (made, ended) = held-posted E make next posts g r r.message (rw ran at h) in
        let (output, framed, w) = complete.framed t.octets made in
        (
          r.compressor,
          ended,
          message-Received F E b out D law limit small reset d n c r.compressor p payload output
              t.octets w slice fits framed,
        )

    pub part-Received :
        posted E make g (produce_non_final E fuel c payload) ≡ some t
        → (k : E.Compress) × (t.state ≡ next g k)
          × Received F E b out D law limit false reset k d payload t.octets (n + length payload)
    part-Received h =
        let (r, ran, complete) =
          produce_non_final-Complete E b fuel c payload
            (omega (arith, enough, p.in_step.nothing_owed)) in
        let (made, ended) = held-posted E make next posts g r r.message (rw ran at h) in
        let (output, framed, w) = complete.framed t.octets made in
        (
          r.compressor,
          ended,
          fragment-Received F E b out D law limit small reset d n c r.compressor p payload output
              t.octets w slice fits framed,
        )
