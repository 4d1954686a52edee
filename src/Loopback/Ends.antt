-- ===== src/Loopback/Ends.antt =====
-- Proofs about `into_codecs` of src/codec.rs at the two ends of an agreement.
use ws_pmd_rs.Base.{
  ℕ, ◌≤◌, ◌≡◌, inr, refl, ap, ◌∙◌, sym, Bool, true, false, Option, none, some, arith, within,
  if◌then◌else◌, expect, Outcome, ok, panic, >>=-eq-ok, ok-injective,
}
use ws_pmd_rs.Error.{CodecError}
use ws_pmd_rs.Config.{EncoderConfig}
use ws_pmd_rs.Negotiated.{
  Role, client, server, by_role, Negotiated, local_max_window_bits, peer_max_window_bits,
  local_no_context_takeover, peer_no_context_takeover,
}
use ws_pmd_rs.Codec.Backend as Inflate
use ws_pmd_rs.Codec.Inflater.{for_peer_window, Decoder, decoder_for}
use ws_pmd_rs.Codec.Inflater as Inflater
use ws_pmd_rs.Codec.Sound.{peer_window-IsBuildable, le-for_peer_window}
use ws_pmd_rs.Encoder.Backend as Deflate
use ws_pmd_rs.Encoder.Bounded.{Bounded}
use ws_pmd_rs.Encoder.Transaction.{
  Encoder, for_local, for_agreement, Phase, free, prepared, streaming, fragment, final_fragment,
  Called, prepare_message, commit,
}
use ws_pmd_rs.Encoder.Transaction as Transaction
use ws_pmd_rs.Handshake.Codecs.{Codecs, into_codecs}
use ws_pmd_rs.Loopback.Format.{Format, Inflates, Deflates}
use ws_pmd_rs.Loopback.InStep.{fresh-InStep}
use ws_pmd_rs.Loopback.Paired.{Paired}

-- The agreement as the other end holds it.
unfoldable pub opposite : Role → Role
opposite client = server
opposite server = client

unfoldable pub other_end : Negotiated → Negotiated
other_end n = record n { role = opposite n.role }

expect-eq-ok : {A : Type 0} (o : Option A) {a : A} → expect {E = CodecError} o ≡ ok a → o ≡ some a
expect-eq-ok (some x) h = ap some (ok-injective h)
expect-eq-ok none h = cc

by_role-opposite : {A : Type 0} (r : Role) (x y : A) → by_role (opposite r) x y ≡ by_role r y x
unfolding opposite
by_role-opposite client x y = refl
by_role-opposite server x y = refl

module _ (E : Deflate.Backend) (D : Inflate.Backend) (n : Negotiated) (config : EncoderConfig)
    (codecs : Codecs E D) where
  -- What `into_codecs` made, where it returned.
  record Made : Type 0 where
    compresses :
        codecs.encoder.compressor
        ≡ some (E.new_with_window_bits config.level false (local_max_window_bits n))
    encoder_resets : codecs.encoder.reset_between_messages ≡ local_no_context_takeover n
    in_range : within 9 15 (local_max_window_bits n) ≡ true
    inflater_made :
        D.new_with_window_bits codecs.decoder.config.zlib_header codecs.decoder.config.window_bits
        ≡ some codecs.decoder.inflater
    width : codecs.decoder.config ≡ for_peer_window (peer_max_window_bits n)
    decoder_resets : codecs.decoder.reset_between_messages ≡ peer_no_context_takeover n
    healthy : codecs.decoder.poisoned ≡ false
    nothing_yet : codecs.decoder.delivered ≡ 0

  into_codecs-Made : into_codecs E D n config ≡ ok codecs → Made
  unfolding into_codecs for_agreement decoder_for Inflater.build Transaction.build for_local
  into_codecs-Made h =
      let (e, he, h1) = >>=-eq-ok (for_agreement E n config) _ {result = codecs} h in
      let (d, hd, h2) = >>=-eq-ok (decoder_for D n) _ {result = codecs} h1 in
      let (c, hc, h3) = >>=-eq-ok (Transaction.build E (for_local n config)) _ {result = e} he in
      let (i, hi, h4) =
        >>=-eq-ok (Inflater.build D (for_peer_window (peer_max_window_bits n))) _ {result = d} hd in
      let (inside, new) = built (within 9 15 (local_max_window_bits n)) hc in
      rw (← ok-injective h2) (
        rw (← ok-injective h3, ← ok-injective h4)
          (record {
            compresses = ap some (sym new);
            encoder_resets = refl;
            in_range = inside;
            inflater_made = expect-eq-ok _ hi;
            width = refl;
            decoder_resets = refl;
            healthy = refl;
            nothing_yet = refl;
          }))
    where
      built :
          {A : Type 0} (x : Bool) {a c : A}
          → ◌≡◌ {A = Outcome CodecError A} (if x then ok a else panic) (ok c)
          → (x ≡ true) × (a ≡ c)
      built true h = (refl, ok-injective h)
      built false h = cc

module _ (F : Format) (E : Deflate.Backend) (b : Bounded E) (out : Deflates F E b)
    (D : Inflate.Backend) (law : Inflates F D) (n : Negotiated) where
  ends_meet : peer_no_context_takeover (other_end n) ≡ local_no_context_takeover n
  unfolding other_end local_no_context_takeover peer_no_context_takeover
  ends_meet = by_role-opposite n.role n.server_no_context_takeover n.client_no_context_takeover

  windows_meet : peer_max_window_bits (other_end n) ≡ local_max_window_bits n
  unfolding other_end local_max_window_bits peer_max_window_bits
  windows_meet = by_role-opposite n.role n.server_max_window_bits n.client_max_window_bits

  module _ (config config' : EncoderConfig) {near far : Codecs E D} where
    pub codecs-Paired :
        into_codecs E D n config ≡ ok near
        → into_codecs E D (other_end n) config' ≡ ok far
        → (c : E.Compress) × (near.encoder.compressor ≡ some c)
          × Paired F E b out D law near.encoder.reset_between_messages c far.decoder 0
    codecs-Paired h k =
        let m = into_codecs-Made E D n config near h in
        let o = into_codecs-Made E D (other_end n) config' far k in
        let (taken, put, owed, width) = out.fresh config.level (local_max_window_bits n) in
        let (fed, given, wide) =
          law.fresh far.decoder.config.zlib_header far.decoder.config.window_bits
            far.decoder.inflater o.inflater_made in
        (
          E.new_with_window_bits config.level false (local_max_window_bits n),
          m.compresses,
          record {
            in_step =
                fresh-InStep F E b out D law _ far.decoder.inflater (taken, put, owed) (fed, given)
                  (rw (width, wide, o.width, windows_meet)
                    (le-for_peer_window (local_max_window_bits n)));
            window = wide;
            same_reset = o.decoder_resets ∙ ends_meet ∙ sym m.encoder_resets;
            opens = inr put;
            buildable = rw o.width (
                peer_window-IsBuildable (peer_max_window_bits (other_end n))
                  (rw windows_meet (ceiling (local_max_window_bits n) m.in_range)));
            healthy = o.healthy;
            counted = o.nothing_yet;
          },
        )
      where
        ceiling : (w : ℕ) → within 9 15 w ≡ true → w ≤ 15
        ceiling w h = ground arith
