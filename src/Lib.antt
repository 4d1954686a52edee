-- ===== src/Lib.antt =====
-- The permessage-deflate library (RFC 7692): the negotiation of the extension over the
-- `Sec-WebSocket-Extensions` field, and what both ends agree to.
--
-- Parts, and the files that model them (paths from the repository's root):
-- * Grammar, with its children, models src/grammar.rs. A field line is a list of byte values. `split`
--   keeps its indices and its slices (Grammar/Split), `parse_params` its four slots (Grammar/Params),
--   `validate` its two flags (Grammar/Validate). What `validate` is to accept is written out in
--   Grammar/Field by the grammars of RFC 6455 and RFC 2616, without the code.
-- * Config models the builders of src/config.rs, Negotiated the agreement and the rendering of
--   src/negotiated.rs, Error the enumerations of src/error.rs.
-- * Client models src/client.rs: `install`, `seal` and `finish` are functions of the same names, the
--   loops over the field are in Client/Scan, `SealedOffer::agree` is in Client/Agree. A request is
--   passed in and, where it is changed, returned.
-- * Server models src/server.rs: `accept` and `finish`, and `select` in Server/Select. The loop that
--   counts in `finish` is the one of the client's `seal` with another error, and is shared.
-- * Codec models src/codec.rs: `step` and its clamped counters (Codec/Step, Codec/Numbers), the
--   configuration and the state (Codec/Inflater), the loop of `inflate` (Codec/Inflate), `decode` and
--   `decompress` (Codec/Decompress). flate2's `Decompress` is the record of Codec/Backend; its laws are
--   that a slice keeps its length and that the widths 9 through 15 are built. The loop is on fuel: one
--   round for each byte of the input and of the limit, and one more. Each round consumes or produces a
--   byte, or is the last, so that is enough for every limit below the largest `usize`, which has 64 bits.
--   The slices `&scratch[..n]` and `&input[n..]` panic out of range (Base/Slices).
-- * Encoder models src/encoder.rs: the trailer (Encoder/Frame), `drive` and the loops over it
--   (Encoder/Drive), the transactions as functions on the encoder and what borrows it
--   (Encoder/Transaction), and their orders as a step relation (Encoder/Steps). flate2's `Compress` and
--   the growth of a `Vec` are the record of Encoder/Backend. The loops are on fuel; how much suffices is
--   stated over a compressor that is bounded (Encoder/Bounded): it counts what it moves, and what it
--   may still write is bounded by what it was given. The room that a compressor owes, the octets of the
--   payload and what they may grow by, and one round more, are then enough (Encoder/Drive/Whole).
--   Encoder/History follows what the compressor has in its history over the steps, edits of the bytes
--   through `as_bytes_mut` included.
-- * Loopback puts the encoder of one end and the decoder of the other together: Loopback/Format says
--   what is relied on of DEFLATE, of the inflater and of the compressor, which is what RFC 1951 and
--   flate2 say of streams of blocks, of which none is the last, and of windows of so many bits: the
--   trailer alone is not a run of whole blocks, and a reset gives the inflater back at its default
--   width, whatever it had.
--   Loopback/Rounds to Loopback/Passed are about the decoder, Loopback/InStep and Loopback/Paired
--   about one frame, Loopback/Ends about `into_codecs` at both ends. Loopback/Hosts has two hosts, one
--   that sends messages compressed, whole or in fragments, or as they are, and one that receives;
--   Loopback/Posted to Loopback/Conversation are about them, and Loopback/Connection puts the
--   handshake before them.
-- * Fuzz models fuzz: the records of fuzz/src/lib.rs (Fuzz/Fragments), `client_decoder` (Fuzz/Client)
--   and the three targets of fuzz/fuzz_targets (Fuzz/Decoder, Fuzz/Handshakes), in which an assertion
--   that fails is a panic. What they use of the `http` crate to make fields is the record of
--   Fuzz/Fields.
-- * Handshake puts the two halves together; Handshake/Codecs is `Negotiated::into_codecs` of
--   src/codec.rs, and Handshake/Minted says which agreements the two halves make.
-- * Http is the `http` crate: the field's values in order, `append`, and `from_str`, a parameter of the
--   model. Its two laws are that `append` adds a value at the end and that a value is made of visible
--   ASCII with its bytes kept.
-- * Base holds what the parts share. `Outcome` is what a function that returns a `Result` does: it
--   returns, it fails, or it panics (an `expect`). Loops are structural recursion on the list that is
--   left, but for those of `inflate` and of the encoder.
--
-- How they interact: `install` renders a `ClientConfig` and appends it to the request; `seal` checks that
-- the request still has it; `accept` validates the request and answers the first alternative that
-- `select` can serve; both `finish` calls read the final response, and the agreement is a `Negotiated`,
-- from which the decoder and the encoder are built.
--
-- Not modelled: a `Vec` that cannot grow, where `reserve` panics or the allocation fails;
-- `shrink_to_fit`, which changes no byte; the texts of the errors, and hiding (`Debug`,
-- `must_use`, private fields); the crates of validation, which pin the bytes of a concrete backend, and
-- the tests.
pub mod Base
pub mod Error
pub mod Http
pub mod Grammar
pub mod Config
pub mod Negotiated
pub mod Client
pub mod Server
pub mod Codec
pub mod Encoder
pub mod Handshake
pub mod Loopback
pub mod Fuzz
pub mod Tests
