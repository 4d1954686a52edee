-- ===== src/Loopback/Arrived.antt =====
-- Proofs about one chunk: what src/encoder.rs prepares and commits for it, src/codec.rs
-- decompresses to it.
use ws_pmd_rs.Base.{
  ℕ, ◌+◌, ◌≤◌, ◌<◌, ◌≡◌, refl, Bool, true, false, Bytes, none, some, and_then, length,
  if◌then◌else◌, ok,
}
use ws_pmd_rs.Codec.Backend as Inflate
use ws_pmd_rs.Codec.Numbers.{usize_max}
use ws_pmd_rs.Codec.Inflater.{Decoder}
use ws_pmd_rs.Codec.Decompress.{Decompressed, decompress}
use ws_pmd_rs.Encoder.Backend as Deflate
use ws_pmd_rs.Encoder.Bounded.{Bounded}
use ws_pmd_rs.Encoder.Transaction.{
  Encoder, free, prepared, streaming, fragment, final_fragment, State, prepare_message,
  begin_streaming_message, prepare_non_final_fragment, prepare_final_fragment, commit,
  commit_fragment, commit_final,
}
use ws_pmd_rs.Encoder.History.{Chunk}
use ws_pmd_rs.Loopback.Format.{Format, Inflates, Deflates}
use ws_pmd_rs.Loopback.Paired.{Paired, Received}
use ws_pmd_rs.Loopback.Hosts.{Posted, confirm, submit, send_one}
use ws_pmd_rs.Loopback.Posted.{HasFuel, last-Received, part-Received}

module _ (F : Format) (E : Deflate.Backend) (b : Bounded E) (out : Deflates F E b)
    (D : Inflate.Backend) (law : Inflates F D) (limit fuel : ℕ) (small : limit < usize_max) where
  -- What a host's state is to the decoder at the other end, which has delivered `n` octets of a
  -- message.
  pub data Matched (s : State E) (d : Decoder D) (n : ℕ) : Type 0 where
    at_rest :
        (c : E.Compress)
        → s.phase ≡ free
        → s.encoder.compressor ≡ some c
        → n ≡ 0
        → Paired F E b out D law s.encoder.reset_between_messages c d 0
        → Matched s d n
    in_message :
        (c : E.Compress)
        → s.phase ≡ streaming c
        → Paired F E b out D law s.encoder.reset_between_messages c d n
        → Matched s d n

  -- The octets of its message that are delivered behind a chunk.
  abbrev pub delivered_after : ℕ → Chunk → ℕ
  delivered_after n k = if k.last then 0 else n + length k.payload

  -- What the other end makes of the octets of a chunk.
  pub record Arrived (s : State E) (d : Decoder D) (k : Chunk) (octets : Bytes) (n : ℕ)
      : Type 0 where
    pub received : Decompressed D limit
    pub returns : decompress D limit d octets k.last ≡ some received
    pub result : received.result ≡ ok k.payload
    pub matched : Matched s received.decoder n

  module _ (e : Encoder E) (c : E.Compress) (d : Decoder D) (n : ℕ) (payload octets : Bytes) where
    last-Arrived :
        {s : State E}
        → s ≡ record {
          encoder = record e {
            compressor = some (if e.reset_between_messages then E.reset c else c);
          };
          phase = free;
        }
        → Received F E b out D law limit true e.reset_between_messages
            (if e.reset_between_messages then E.reset c else c)
            d
            payload
            octets
            0
        → Arrived s d (record { payload = payload; last = true }) octets 0
    last-Arrived same r = record {
      received = r.received;
      returns = r.returns;
      result = r.result;
      matched = rw same (at_rest _ refl refl refl r.paired);
    }

    part-Arrived :
        {s : State E}
        → s ≡ record { encoder = e; phase = streaming c }
        → Received F E b out D law limit false e.reset_between_messages c d payload octets n
        → Arrived s d (record { payload = payload; last = false }) octets n
    part-Arrived same r = record {
      received = r.received;
      returns = r.returns;
      result = r.result;
      matched = rw same (in_message c refl r.paired);
    }

  module _ (e : Encoder E) (c : E.Compress) (d : Decoder D) (n : ℕ) (payload : Bytes)
      (p : Paired F E b out D law e.reset_between_messages c d n)
      (enough : HasFuel F E b out D law limit fuel small payload)
      (fits : n + length payload ≤ limit) {t : Posted E} (slice : length t.octets ≤ usize_max) where
    whole_sent :
        e.compressor ≡ some c
        → and_then (prepare_message E fuel e payload) (λ q. confirm E q.state.encoder q.state.phase)
          ≡ some t
        → Arrived t.state d (record { payload = payload; last = true }) t.octets 0
    unfolding prepare_message commit
    whole_sent there h =
        let (k, same, r) =
          last-Received F E b out D law limit fuel small prepared (commit E) (λ g c m. refl)
            (record e { compressor = none }) e.reset_between_messages c d n p payload enough fits
            slice (rw there at h) in
        last-Arrived e k d n payload t.octets same r

    last_sent :
        and_then
            (prepare_final_fragment E fuel e c payload)
            (λ q. confirm E q.state.encoder q.state.phase)
          ≡ some t
        → Arrived t.state d (record { payload = payload; last = true }) t.octets 0
    unfolding prepare_final_fragment commit_final
    last_sent h =
        let (k, same, r) =
          last-Received F E b out D law limit fuel small final_fragment (commit_final E)
            (λ g c m. refl) e e.reset_between_messages c d n p payload enough fits slice h in
        last-Arrived e k d n payload t.octets same r

    part_sent :
        and_then
            (prepare_non_final_fragment E fuel e c payload)
            (λ q. confirm E q.state.encoder q.state.phase)
          ≡ some t
        → Arrived t.state d
            (record { payload = payload; last = false })
            t.octets
            (n + length payload)
    unfolding prepare_non_final_fragment commit_fragment
    part_sent h =
        let (k, same, r) =
          part-Received F E b out D law limit fuel small fragment (commit_fragment E)
            (λ g c m. refl) e e.reset_between_messages c d n p payload enough fits slice h in
        part-Arrived e k d (n + length payload) payload t.octets same r

  module _ (e : Encoder E) (d : Decoder D) (payload : Bytes)
      (enough : HasFuel F E b out D law limit fuel small payload) {t : Posted E}
      (slice : length t.octets ≤ usize_max) where
    -- What goes out in a free encoder, and in a streaming message.
    free_sent :
        (last : Bool) (c : E.Compress) (n : ℕ)
        → e.compressor ≡ some c
        → n ≡ 0
        → Paired F E b out D law e.reset_between_messages c d 0
        → n + length payload ≤ limit
        → and_then
            (submit E fuel e free (record { payload = payload; last = last }))
            (λ q. confirm E q.state.encoder q.state.phase)
          ≡ some t
        → Arrived t.state d
            (record { payload = payload; last = last })
            t.octets
            (if last then 0 else n + length payload)
    unfolding begin_streaming_message
    free_sent true c n there z p fits h =
        whole_sent e c d 0 payload p enough (rw z at fits) slice there h
    free_sent false c n there z p fits h = rw z (
        part_sent (record e { compressor = none }) c d 0 payload p enough (rw z at fits) slice
          (rw there at h))

    streaming_sent :
        (last : Bool) (c : E.Compress) (n : ℕ)
        → Paired F E b out D law e.reset_between_messages c d n
        → n + length payload ≤ limit
        → and_then
            (submit E fuel e (streaming c) (record { payload = payload; last = last }))
            (λ q. confirm E q.state.encoder q.state.phase)
          ≡ some t
        → Arrived t.state d
            (record { payload = payload; last = last })
            t.octets
            (if last then 0 else n + length payload)
    streaming_sent true c n p fits h = last_sent e c d n payload p enough fits slice h
    streaming_sent false c n p fits h = part_sent e c d n payload p enough fits slice h

  pub chunk-Arrived :
      (s : State E) (d : Decoder D) (n : ℕ) (k : Chunk) {t : Posted E}
      → Matched s d n
      → HasFuel F E b out D law limit fuel small k.payload
      → n + length k.payload ≤ limit
      → send_one E fuel s k ≡ some t
      → length t.octets ≤ usize_max
      → Arrived t.state d k t.octets (delivered_after n k)
  unfolding send_one
  chunk-Arrived s d n k (at_rest c phase there z p) enough fits h slice =
      free_sent s.encoder d k.payload enough slice k.last c n there z p fits (rw phase at h)
  chunk-Arrived s d n k (in_message c phase p) enough fits h slice =
      streaming_sent s.encoder d k.payload enough slice k.last c n p fits (rw phase at h)
