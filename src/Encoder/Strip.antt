-- ===== src/Encoder/Strip.antt =====
-- Proofs about `strip_or_synthesize` of src/encoder.rs.
use ws_pmd_rs.Base.{
  ◌-◌, ◌≡◌, ◌↔◌, ◌⊎◌, refl, ap, ◌∙◌, sym, Bool, true, ◌&&◌, [], ◌∷◌, ◌++◌, Bytes, leb, le→leb,
  length, take, drop, length-append, is_empty, bytes_eq, bytes_eq_iff, take-append-drop,
  take-append_length, drop-append_length, Bool-cases, inl, inr, arith, ok, ok-injective,
}
use ws_pmd_rs.Codec.Numbers.{trailer}
use ws_pmd_rs.Encoder.Frame.{empty_message, ends_with, strip_or_synthesize}

pub ends_with-split :
    (xs tail : Bytes) → ends_with xs tail ≡ true → xs ≡ take (length xs - length tail) xs ++ tail
unfolding ends_with
ends_with-split xs tail h =
    let (fits, same) =
      both (leb (length tail) (length xs)) (bytes_eq (drop (length xs - length tail) xs) tail) h in
    sym (take-append-drop (length xs - length tail) xs)
    ∙ ap (λ t. take (length xs - length tail) xs ++ t)
        ((bytes_eq_iff (drop (length xs - length tail) xs) tail).0 same)
  where
    both : (a b : Bool) → a && b ≡ true → (a ≡ true) × (b ≡ true)
    both a b h = ground arith

pub append-ends_with : (xs tail : Bytes) → ends_with (xs ++ tail) tail ≡ true
unfolding ends_with
append-ends_with xs tail =
    let long = length-append xs tail in
    let cut : length (xs ++ tail) - length tail ≡ length xs = omega (arith, long) in
    rw (le→leb (length tail) (length (xs ++ tail)) (omega (arith, long)), cut, drop-append_length)
      ((bytes_eq_iff tail tail).1 refl)

-- What a message of the wire is, by what the compressor wrote.
abbrev pub IsMessageOf : Bytes → Bytes → Bytes → Type 0
IsMessageOf payload output message =
    (output ≡ message ++ trailer) ⊎ ((payload ≡ []) × (output ≡ []) × (message ≡ empty_message))

take-append_trailer : (m : Bytes) → take (length (m ++ trailer) - length trailer) (m ++ trailer) ≡ m
take-append_trailer m =
    let cut : length (m ++ trailer) - length trailer ≡ length m =
      omega (arith, length-append m trailer) in
    rw cut (take-append_length m trailer)

pub both_empty : (p o : Bytes) → (is_empty p && is_empty o) ≡ true → (p ≡ []) × (o ≡ [])
both_empty [] [] h = (refl, refl)
both_empty [] (x ∷ xs) h = cc
both_empty (x ∷ xs) o h = cc

strip-IsMessageOf :
    (payload output : Bytes) {m : Bytes}
    → strip_or_synthesize payload output ≡ ok m
    → IsMessageOf payload output m
unfolding strip_or_synthesize
strip-IsMessageOf payload output {m} h = elim (Bool-cases (ends_with output trailer)) [
  | inl e ↦
      inl (ends_with-split output trailer e ∙ ap (λ t. t ++ trailer) (ok-injective (rw e at h)))
  | inr e ↦ elim (Bool-cases (is_empty payload && is_empty output)) [
    | inl z ↦
        let (p, o) = both_empty payload output z in inr (p, o, sym (ok-injective (rw (e, z) at h)))
    | inr z ↦ cc (rw (e, z) at h)
  ]
]

IsMessageOf-strip :
    (payload output : Bytes) {m : Bytes}
    → IsMessageOf payload output m
    → strip_or_synthesize payload output ≡ ok m
unfolding strip_or_synthesize ends_with
IsMessageOf-strip payload output {m} (inl e) =
    rw e (rw (append-ends_with m trailer) (ap ok (take-append_trailer m)))
IsMessageOf-strip payload output {m} (inr (p, o, e)) = rw (p, o, e) (nothing_written)
  where
    nothing_written : strip_or_synthesize [] [] ≡ ok empty_message
    nothing_written = refl

-- `strip_or_synthesize` returns a message exactly where what the compressor wrote is that message
-- with one trailer behind it, or where nothing was to be written and nothing was, and the message
-- is the single octet of the RFC; in all other cases it does not return.
pub strip_or_synthesize_iff :
    (payload output m : Bytes)
    → (strip_or_synthesize payload output ≡ ok m) ↔ IsMessageOf payload output m
strip_or_synthesize_iff payload output m =
    (strip-IsMessageOf payload output, IsMessageOf-strip payload output)
