-- ===== src/Loopback/Plain.antt =====
-- Proofs about `reset_to_plain` of src/encoder.rs: the decoder at the other end goes on without it.
use ws_pmd_rs.Base.{
  ℕ, ◌<◌, ◌≡◌, refl, sym, Bytes, none, some, some-injective, and_then, arith, Outcome, ok, err,
  panic,
}
use ws_pmd_rs.Codec.Backend as Inflate
use ws_pmd_rs.Codec.Numbers.{usize_max}
use ws_pmd_rs.Codec.Inflater.{Decoder}
use ws_pmd_rs.Encoder.Backend as Deflate
use ws_pmd_rs.Encoder.Bounded.{Bounded}
use ws_pmd_rs.Encoder.Transaction.{
  Encoder, prepared, final_fragment, State, hold, prepare_message, prepare_final_fragment,
  reset_to_plain,
}
use ws_pmd_rs.Encoder.Drive.Whole.{produce-Complete}
use ws_pmd_rs.Error.{CodecError}
use ws_pmd_rs.Loopback.Paired.{Paired, plain-Paired}
use ws_pmd_rs.Loopback.Format.{Format, Inflates, Deflates}
use ws_pmd_rs.Loopback.Hosts.{set_aside, send_plain}
use ws_pmd_rs.Loopback.Posted.{HasFuel}
use ws_pmd_rs.Loopback.Arrived.{Matched, at_rest, in_message}

module _ (E : Deflate.Backend) (g : Encoder E) (k : E.Compress) where
  prepared-set_aside :
      (a : Outcome CodecError Bytes) {s : State E}
      → set_aside E (hold E prepared g k a).state.encoder (hold E prepared g k a).state.phase
        ≡ some s
      → (m : Bytes) × (a ≡ ok m) × (s ≡ reset_to_plain E g k)
  prepared-set_aside (ok m) h = (m, refl, sym (some-injective h))
  prepared-set_aside (err e) h = cc
  prepared-set_aside panic h = cc

  -- A final fragment cannot be sent as it is.
  final-set_aside :
      (a : Outcome CodecError Bytes) {s : State E}
      → ¬ (
          set_aside E
            (hold E final_fragment g k a).state.encoder
            (hold E final_fragment g k a).state.phase
          ≡ some s)
  final-set_aside (ok m) h = cc
  final-set_aside (err e) h = cc
  final-set_aside panic h = cc

module _ (F : Format) (E : Deflate.Backend) (b : Bounded E) (out : Deflates F E b)
    (D : Inflate.Backend) (law : Inflates F D) (limit fuel : ℕ) (small : limit < usize_max) where
  module _ (e : Encoder E) (payload : Bytes) (c : E.Compress) (d : Decoder D) {t : State E}
      (enough : HasFuel F E b out D law limit fuel small payload) where
    free-plain :
        (n : ℕ)
        → e.compressor ≡ some c
        → n ≡ 0
        → Paired F E b out D law e.reset_between_messages c d 0
        → and_then
            (prepare_message E fuel e payload)
            (λ q. set_aside E q.state.encoder q.state.phase)
          ≡ some t
        → Matched F E b out D law limit fuel small t d n
    unfolding prepare_message reset_to_plain
    free-plain n there z p h =
        let (r, ran, complete) =
          produce-Complete E b fuel c payload (omega (arith, enough, p.in_step.nothing_owed)) in
        let (m, made, same) =
          prepared-set_aside E (record e { compressor = none }) r.compressor r.message
            (rw (there, ran) at h) in
        let (output, framed, w) = complete.framed m made in
        rw same (
          at_rest (E.reset r.compressor) refl refl z (
            plain-Paired F E b out D law e.reset_between_messages c r.compressor d 0 p
              w.same_window))

    not_streaming :
        {n : ℕ}
        → Paired F E b out D law e.reset_between_messages c d n
        → ¬ (
            and_then
              (prepare_final_fragment E fuel e c payload)
              (λ q. set_aside E q.state.encoder q.state.phase)
            ≡ some t)
    unfolding prepare_final_fragment
    not_streaming p h =
        let (r, ran, complete) =
          produce-Complete E b fuel c payload (omega (arith, enough, p.in_step.nothing_owed)) in
        final-set_aside E e r.compressor r.message (rw ran at h)

  -- A message that goes out as it is leaves the two ends matched.
  pub send_plain-Matched :
      (s : State E) (d : Decoder D) (n : ℕ) (payload : Bytes) {t : State E}
      → Matched F E b out D law limit fuel small s d n
      → HasFuel F E b out D law limit fuel small payload
      → send_plain E fuel s payload ≡ some t
      → Matched F E b out D law limit fuel small t d n
  unfolding send_plain
  send_plain-Matched s d n payload (at_rest c phase there z p) enough h =
      free-plain s.encoder payload c d enough n there z p (rw phase at h)
  send_plain-Matched s d n payload (in_message c phase p) enough h =
      absurd (not_streaming s.encoder payload c d enough p (rw phase at h))
