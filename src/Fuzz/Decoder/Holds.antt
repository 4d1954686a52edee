-- ===== src/Fuzz/Decoder/Holds.antt =====
-- Proofs about the decoder target of fuzz/: no assertion of it fails.
use ws_pmd_rs.Base.{
  ℕ, ◌+◌, ◌<◌, ◌≡◌, refl, ap, ◌∙◌, Bool, true, false, [], ◌∷◌, List, Bytes, some, le→leb, length,
  if◌then◌else◌, All, arith, Outcome, ok, err, panic,
}
use ws_pmd_rs.Error.{CodecError}
use ws_pmd_rs.Codec.Backend.{Backend}
use ws_pmd_rs.Codec.Numbers.{usize_max, saturating_add}
use ws_pmd_rs.Codec.Inflater.{Decoder}
use ws_pmd_rs.Codec.NoPanic.{IsBuildable}
use ws_pmd_rs.Codec.Decompress.{Decompressed, decompress}
use ws_pmd_rs.Codec.Delivered.{decompress-total}
use ws_pmd_rs.Codec.Message.{
  decompress-Returned, failed-poisoned, poisoned-refused, decompress-poisoned,
}
use ws_pmd_rs.Codec.Sound.{ended-NoPanic}
use ws_pmd_rs.Fuzz.Fragments.{Fragment}
use ws_pmd_rs.Fuzz.Fragments.Correct.{IsHeld}
use ws_pmd_rs.Fuzz.Decoder.{mirror, probe}

module _ (D : Backend) where
  -- The target's own accounting mirrors the decoder's.
  abbrev pub Mirrors : Decoder D → ℕ → Bool → Type 0
  Mirrors d delivered false =
      (d.poisoned ≡ false) × (d.delivered ≡ delivered) × IsBuildable d.config
  Mirrors d delivered true = d.poisoned ≡ true

  abbrev Holds : List Fragment → Type 0
  Holds fs =
      (d : Decoder D) (delivered : ℕ) (poisoned : Bool)
      → Mirrors d delivered poisoned
      → probe D fs d delivered poisoned ≡ some (ok tt)

  small_limit : (f : Fragment) → IsHeld f → f.limit < usize_max
  small_limit f h = omega arith

  mirror-Holds :
      (f : Fragment) (fs : List Fragment) (d : Decoder D) (delivered : ℕ)
      (r : Decompressed D f.limit) (a : Outcome CodecError Bytes)
      → IsHeld f
      → Holds fs
      → Mirrors d delivered false
      → decompress D f.limit d f.bytes f.final_fragment ≡ some r
      → r.result ≡ a
      → mirror D (probe D fs) f delivered r.decoder a ≡ some (ok tt)
  mirror-Holds f fs d delivered r (ok output) held rest (sound, counted, built) h k =
      let q = decompress-Returned D f.limit d f.bytes f.final_fragment (small_limit f held) h k in
      let exact : saturating_add delivered (length output) ≡ delivered + length output =
        omega (arith, q.fits, counted, held) in
      rw (exact, le→leb (delivered + length output) f.limit (omega (arith, q.fits, counted)))
        (rest r.decoder _ false (
          q.still_sound,
          q.counted ∙ ap (λ t. if f.final_fragment then 0 else t + length output) counted,
          rw q.config_kept built,
        ))
  mirror-Holds f fs d delivered r (err e) held rest m h k =
      rw (decompress-poisoned D f.limit f.limit d f.bytes [] f.final_fragment true h k)
        (rest r.decoder delivered true (failed-poisoned D f.limit d f.bytes f.final_fragment h k))
  mirror-Holds f fs d delivered r panic held rest (sound, counted, built) h k =
      absurd (ended-NoPanic D f.limit (small_limit f held) d f.bytes f.final_fragment built h k)

  -- From a decoder that the accounting mirrors, the loop ends with no assertion failed.
  pub probe-Holds : (fs : List Fragment) → All IsHeld fs → Holds fs
  unfolding probe
  probe-Holds [] held d delivered poisoned m = refl
  probe-Holds (f ∷ fs) (h, hs) d delivered false m =
      let (r, ran) = decompress-total D f.limit (small_limit f h) d f.bytes f.final_fragment in
      rw ran (mirror-Holds f fs d delivered r r.result h (probe-Holds fs hs) m ran refl)
  probe-Holds (f ∷ fs) (h, hs) d delivered true m =
      rw (poisoned-refused D f.limit d f.bytes f.final_fragment m)
        (probe-Holds fs hs d delivered true m)
