-- ===== src/Encoder/Frame.antt =====
-- src/encoder.rs: the room of a round, and the trailer.
use ws_pmd_rs.Base.{
  ℕ, ◌-◌, ◌^◌, Bool, ◌&&◌, [], ◌∷◌, Bytes, leb, min, length, take, drop, is_empty, bytes_eq,
  if◌then◌else◌, Outcome, ok, err,
}
use ws_pmd_rs.Error.{CodecError, compression_failed}
use ws_pmd_rs.Codec.Numbers.{saturating_add, trailer}

abbrev pub block_room : ℕ
block_room = 2 ^ 17

abbrev pub framing_margin : ℕ
framing_margin = 64

abbrev pub empty_message : Bytes
empty_message = 0 ∷ []

unfoldable pub room_for : ℕ → ℕ
room_for payload_len = min block_room (saturating_add payload_len framing_margin)

-- `ends_with`
unfoldable pub ends_with : Bytes → Bytes → Bool
ends_with xs tail =
    leb (length tail) (length xs) && bytes_eq (drop (length xs - length tail) xs) tail

unfoldable pub strip_or_synthesize : Bytes → Bytes → Outcome CodecError Bytes
strip_or_synthesize payload output =
    if ends_with output trailer
    then ok (take (length output - length trailer) output)
    else if is_empty payload && is_empty output
    then ok empty_message
    else err compression_failed
