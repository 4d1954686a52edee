-- ===== src/Negotiated/Render/Ends.antt =====
-- Proofs about `render` of src/negotiated.rs and `trim` of src/grammar.rs.
use ws_pmd_rs.Base.{
  ℕ, ◌+◌, ◌/◌, ◌%◌, ◌≡◌, refl, ap, ◌∙◌, sym, Bool, true, false, List, [], ◌∷◌, ◌++◌, append_assoc,
  Bytes, Option, none, some, codes, u8_to_string, ltb, arith, All, All-append, Bool-cases, inl, inr,
  is_ascii_whitespace,
}
use ws_pmd_rs.Grammar.Params.{name}
use ws_pmd_rs.Grammar.Split.Pieces.{join}
use ws_pmd_rs.Grammar.Trim.{trim}
use ws_pmd_rs.Grammar.Trim.Correct.{trim_ends}
use ws_pmd_rs.Negotiated.Render.{ClientBits, omit, valueless, bits, render_string}
use ws_pmd_rs.Negotiated.Render.Segments.{
  server_takeover_segment, client_takeover_segment, flag_segments, server_segments, client_segments,
  render_string-join,
}

record EndsKept (x : Bytes) : Type 0 where
  front : Bytes
  last : ℕ
  joined : x ≡ front ++ last ∷ []
  kept : is_ascii_whitespace last ≡ false

EndsKept-append : (xs : Bytes) {ys : Bytes} → EndsKept ys → EndsKept (xs ++ ys)
EndsKept-append xs {ys} e = record {
  front = xs ++ e.front;
  last = e.last;
  joined = ap (◌++◌ xs) e.joined ∙ sym (append_assoc xs e.front (e.last ∷ []));
  kept = e.kept;
}

join-EndsKept :
    (d : ℕ) (p : Bytes) (ps : List Bytes) → All EndsKept (p ∷ ps) → EndsKept (join d (p ∷ ps))
unfolding join
join-EndsKept d p [] h = h.0
join-EndsKept d p (q ∷ ps) h =
    EndsKept-append p (EndsKept-append (d ∷ []) (join-EndsKept d q ps h.1))

digit-kept : (k : ℕ) → is_ascii_whitespace (48 + k) ≡ false
unfolding is_ascii_whitespace
digit-kept k = ground arith

u8_to_string-EndsKept : (n : ℕ) → EndsKept (u8_to_string n)
u8_to_string-EndsKept n = elim (Bool-cases (ltb n 10)) [
  | inl one ↦ rw one (record { front = []; last = 48 + n; joined = refl; kept = digit-kept n })
  | inr more ↦ elim (Bool-cases (ltb n 100)) [
    | inl two ↦
        rw (more, two)
          (record {
            front = (48 + n / 10) ∷ [];
            last = 48 + n % 10;
            joined = refl;
            kept = digit-kept (n % 10);
          })
    | inr three ↦
        rw (more, three)
          (record {
            front = (48 + n / 100) ∷ (48 + n / 10 % 10) ∷ [];
            last = 48 + n % 10;
            joined = refl;
            kept = digit-kept (n % 10);
          })
  ]
]

letter : (front : Bytes) (c : ℕ) → is_ascii_whitespace c ≡ false → EndsKept (front ++ c ∷ [])
letter front c h = record { front = front; last = c; joined = refl; kept = h }

server_takeover-EndsKept : (b : Bool) → All EndsKept (flag_segments b server_takeover_segment)
unfolding is_ascii_whitespace
server_takeover-EndsKept true = (letter (codes " server_no_context_takeove") b'r' refl, tt)
server_takeover-EndsKept false = tt

client_takeover-EndsKept : (b : Bool) → All EndsKept (flag_segments b client_takeover_segment)
unfolding is_ascii_whitespace
client_takeover-EndsKept true = (letter (codes " client_no_context_takeove") b'r' refl, tt)
client_takeover-EndsKept false = tt

server_bits-EndsKept : (sb : Option ℕ) → All EndsKept (server_segments sb)
server_bits-EndsKept none = tt
server_bits-EndsKept (some n) =
    (EndsKept-append (codes " server_max_window_bits=") (u8_to_string-EndsKept n), tt)

client_bits-EndsKept : (cb : ClientBits) → All EndsKept (client_segments cb)
unfolding is_ascii_whitespace
client_bits-EndsKept omit = tt
client_bits-EndsKept valueless = (letter (codes " client_max_window_bit") b's' refl, tt)
client_bits-EndsKept (bits n) =
    (EndsKept-append (codes " client_max_window_bits=") (u8_to_string-EndsKept n), tt)

render_string-EndsKept :
    (st ct : Bool) (sb : Option ℕ) (cb : ClientBits) → EndsKept (render_string st ct sb cb)
unfolding is_ascii_whitespace
render_string-EndsKept st ct sb cb = rw render_string-join (
    join-EndsKept b';' name _ (
      letter (codes "permessage-deflat") b'e' refl,
      All-append _ (flag_segments st server_takeover_segment) _ (server_takeover-EndsKept st) (
          All-append _ (flag_segments ct client_takeover_segment) _ (client_takeover-EndsKept ct) (
            All-append _ (server_segments sb) _ (server_bits-EndsKept sb)
              (client_bits-EndsKept cb))),
    ))

-- The front of every rendering.
render_string-cons :
    (st ct : Bool) (sb : Option ℕ) (cb : ClientBits)
    → (rest : Bytes) × (render_string st ct sb cb ≡ b'p' ∷ rest)
unfolding render_string
render_string-cons st ct sb cb = (_, refl)

pub trim-render_string :
    (st ct : Bool) (sb : Option ℕ) (cb : ClientBits)
    → trim (render_string st ct sb cb) ≡ render_string st ct sb cb
unfolding is_ascii_whitespace
trim-render_string st ct sb cb =
    let (rest, e) = render_string-cons st ct sb cb in
    let ends = render_string-EndsKept st ct sb cb in
    rw e (trim_ends b'p' rest ends.front ends.last (sym e ∙ ends.joined) refl ends.kept)
