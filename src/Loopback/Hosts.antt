-- ===== src/Loopback/Hosts.antt =====
-- A host that sends messages, whole, in fragments or as they are, through src/encoder.rs, and one
-- that receives them through `decompress` of src/codec.rs.
use ws_pmd_rs.Base.{
  true, ℕ, Bool, List, [], ◌∷◌, Bytes, Option, none, some, and_then, if◌then◌else◌, Outcome, ok,
  err, panic,
}
use ws_pmd_rs.Error.{CodecError}
use ws_pmd_rs.Codec.Backend as Inflate
use ws_pmd_rs.Codec.Inflater.{Decoder}
use ws_pmd_rs.Codec.Decompress.{decompress}
use ws_pmd_rs.Encoder.Backend as Deflate
use ws_pmd_rs.Encoder.Transaction.{
  Encoder, Phase, free, prepared, streaming, fragment, final_fragment, State, Called,
  prepare_message, begin_streaming_message, prepare_non_final_fragment, prepare_final_fragment,
  commit, commit_fragment, commit_final, reset_to_plain,
}
use ws_pmd_rs.Encoder.History.{Chunk}

-- What a host has to send, and a frame of the wire: a compressed chunk, or a message as it is.
pub data Frame : Type 0 where
  compressed : Chunk → Frame
  plain : Bytes → Frame

module _ (E : Deflate.Backend) where
  -- A fragment that is not the last, where the streaming message has the compressor.
  abbrev pub go_on : ℕ → Encoder E → Phase E → Bytes → Option (Called E)
  go_on fuel e (streaming c) payload = prepare_non_final_fragment E fuel e c payload
  go_on fuel e free payload = none
  go_on fuel e (prepared c m) payload = none
  go_on fuel e (fragment c m) payload = none
  go_on fuel e (final_fragment c m) payload = none

  -- What a host calls for a chunk: a message that is one chunk is prepared whole, and every other
  -- one is streamed.
  abbrev pub submit : ℕ → Encoder E → Phase E → Chunk → Option (Called E)
  submit fuel e free k =
      if k.last
      then prepare_message E fuel e k.payload
      else let begun = (begin_streaming_message E e).state in
        go_on fuel begun.encoder begun.phase k.payload
  submit fuel e (streaming c) k =
      if k.last
      then prepare_final_fragment E fuel e c k.payload
      else prepare_non_final_fragment E fuel e c k.payload
  submit fuel e (prepared c m) k = none
  submit fuel e (fragment c m) k = none
  submit fuel e (final_fragment c m) k = none

  pub record Posted : Type 0 where
    pub octets : Bytes
    pub state : State E

  -- The commit of what was prepared, whose bytes go out.
  abbrev pub confirm : Encoder E → Phase E → Option Posted
  confirm e (prepared c m) = some (record { octets = m; state = commit E e c })
  confirm e (fragment c m) = some (record { octets = m; state = commit_fragment E e c })
  confirm e (final_fragment c m) = some (record { octets = m; state = commit_final E e c })
  confirm e free = none
  confirm e (streaming c) = none

  unfoldable pub send_one : ℕ → State E → Chunk → Option Posted
  send_one fuel s k =
      and_then (submit fuel s.encoder s.phase k) (λ q. confirm q.state.encoder q.state.phase)

  -- What was prepared is dropped, and the message goes out as it is.
  abbrev pub set_aside : Encoder E → Phase E → Option (State E)
  set_aside e (prepared c m) = some (reset_to_plain E e c)
  set_aside e free = none
  set_aside e (streaming c) = none
  set_aside e (fragment c m) = none
  set_aside e (final_fragment c m) = none

  unfoldable pub send_plain : ℕ → State E → Bytes → Option (State E)
  send_plain fuel s payload =
      and_then (submit fuel s.encoder s.phase (record { payload = payload; last = true }))
        (λ q. set_aside q.state.encoder q.state.phase)

  -- The frames that a host puts on the wire.
  unfoldable pub send : ℕ → State E → List Frame → Option (List Frame)
  send fuel s [] = some []
  send fuel s (compressed k ∷ ks) = and_then (send_one fuel s k) (λ t.
      and_then (send fuel t.state ks)
        (λ frames. some (compressed (record { payload = t.octets; last = k.last }) ∷ frames)))
  send fuel s (plain payload ∷ ks) =
      and_then (send_plain fuel s payload)
        (λ next. and_then (send fuel next ks) (λ frames. some (plain payload ∷ frames)))

module _ (D : Inflate.Backend) (limit : ℕ) where
  abbrev pub heard : Bool → Option (List Frame) → Outcome CodecError Bytes → Option (List Frame)
  heard last later (ok payload) =
      and_then later (λ ks. some (compressed (record { payload = payload; last = last }) ∷ ks))
  heard last later (err e) = none
  heard last later panic = none

  -- What a host takes from the wire, where every compressed frame is decompressed.
  unfoldable pub receive : Decoder D → List Frame → Option (List Frame)
  receive d [] = some []
  receive d (compressed f ∷ fs) =
      and_then (decompress D limit d f.payload f.last)
        (λ r. heard f.last (receive r.decoder fs) r.result)
  receive d (plain payload ∷ fs) = and_then (receive d fs) (λ ks. some (plain payload ∷ ks))
