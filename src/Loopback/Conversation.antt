-- ===== src/Loopback/Conversation.antt =====
-- Proofs about conversations: what src/encoder.rs sends, src/codec.rs receives.
use ws_pmd_rs.Base.{ℕ, ◌+◌, ◌≤◌, ◌<◌, List, [], ◌∷◌, length}
use ws_pmd_rs.Negotiated.{Negotiated}
use ws_pmd_rs.Codec.Backend as Inflate
use ws_pmd_rs.Codec.Numbers.{usize_max}
use ws_pmd_rs.Encoder.Backend as Deflate
use ws_pmd_rs.Encoder.Bounded.{Bounded}
use ws_pmd_rs.Handshake.Codecs.{Codecs}
use ws_pmd_rs.Loopback.Format.{Format, Inflates, Deflates}
use ws_pmd_rs.Loopback.Hosts.{Frame, compressed, plain}
use ws_pmd_rs.Loopback.Posted.{HasFuel}
use ws_pmd_rs.Loopback.Arrived.{delivered_after}

module _ (F : Format) (E : Deflate.Backend) (b : Bounded E) (out : Deflates F E b)
    (D : Inflate.Backend) (law : Inflates F D) (limit fuel : ℕ) (small : limit < usize_max) where
  -- What a host's frames ask for, behind `n` octets of a message: that every compressed message
  -- stays within the limit, and fuel for the octets of each chunk, which is prepared before a
  -- message goes out as it is.
  abbrev pub Modest : ℕ → List Frame → Type 0
  Modest n [] = Unit
  Modest n (compressed k ∷ ks) =
      (n + length k.payload ≤ limit)
      × HasFuel F E b out D law limit fuel small k.payload
      × Modest (delivered_after F E b out D law limit fuel small n k) ks
  Modest n (plain payload ∷ ks) = HasFuel F E b out D law limit fuel small payload × Modest n ks

  -- Every compressed frame has a length that a slice can have.
  abbrev pub AreSlices : List Frame → Type 0
  AreSlices [] = Unit
  AreSlices (compressed f ∷ fs) = (length f.payload ≤ usize_max) × AreSlices fs
  AreSlices (plain payload ∷ fs) = AreSlices fs
