-- ===== src/Fuzz/Fragments/Correct.antt =====
-- Proofs about `fragments` of fuzz/src/lib.rs.
use ws_pmd_rs.Base.{
  ℕ, zero, suc, ◌/◌, ◌^◌, ◌%◌, ◌≤◌, ◌<◌, ◌≡◌, refl, Bool, true, false, ◌==◌, [], ◌∷◌, ◌++◌, List,
  append_assoc, Bytes, some, length, length-append, length-drop, drop, take-append_length,
  drop-append_length, min, and_then-eq-some, some-injective, All, if◌then◌else◌, arith,
}
use ws_pmd_rs.Fuzz.Fragments.{
  max_limit, header, Fragment, ceiling, from_be_bytes, fragment_of, records, fragments,
}

-- A fragment that a record can hold: its ceiling is one that an input can ask for, and its payload
-- is as long as two octets can say.
pub record CanHold (f : Fragment) : Type 0 where
  pub bounded : f.limit ≤ max_limit
  pub short : length f.bytes < 2 ^ 16

-- The record of a fragment.
unfoldable pub encode : Fragment → Bytes
encode f =
    (if f.final_fragment then 1 else 0)
    ∷ f.limit / 2 ^ 16
    ∷ f.limit / 2 ^ 8 % 2 ^ 8
    ∷ f.limit % 2 ^ 8
    ∷ length f.bytes / 2 ^ 8
    ∷ length f.bytes % 2 ^ 8
    ∷ f.bytes

unfoldable pub encode_all : List Fragment → Bytes
encode_all [] = []
encode_all (f ∷ fs) = encode f ++ encode_all fs

ceiling-encode : (n : ℕ) → n ≤ max_limit → ceiling (n / 2 ^ 16) (n / 2 ^ 8 % 2 ^ 8) (n % 2 ^ 8) ≡ n
unfolding ceiling
ceiling-encode n h = omega arith

length-encode : (n : ℕ) → from_be_bytes (n / 2 ^ 8) (n % 2 ^ 8) ≡ n
length-encode n = omega arith

flag-encode : (b : Bool) → ((if b then 1 else 0) % 2 == 1) ≡ b
flag-encode true = refl
flag-encode false = refl

-- The payload is all there.
whole :
    (f : Fragment) (rest : Bytes)
    → min
        (from_be_bytes (length f.bytes / 2 ^ 8) (length f.bytes % 2 ^ 8))
        (length (f.bytes ++ rest))
      ≡ length f.bytes
whole f rest = omega (arith, length-append f.bytes rest)

fragment_of-encode :
    (f : Fragment) (rest : Bytes)
    → CanHold f
    → fragment_of
        (if f.final_fragment then 1 else 0)
        (f.limit / 2 ^ 16)
        (f.limit / 2 ^ 8 % 2 ^ 8)
        (f.limit % 2 ^ 8)
        (length f.bytes / 2 ^ 8)
        (length f.bytes % 2 ^ 8)
        (f.bytes ++ rest)
      ≡ f
unfolding fragment_of
fragment_of-encode f rest h =
    rw
      (
        whole f rest,
        take-append_length f.bytes rest,
        flag-encode f.final_fragment,
        ceiling-encode f.limit h.bounded,
      )
      refl

-- With a round for each octet and one more, the loop ends, and more rounds change nothing.
records-total :
    (fuel : ℕ) (input : Bytes)
    → length input < fuel
    → (fs : List Fragment) × (records fuel input ≡ some fs)
unfolding records
records-total zero input h = absurd (omega arith)
records-total (suc fuel) (flags ∷ a ∷ b ∷ c ∷ d ∷ e ∷ body) h =
    let n : ℕ = min (from_be_bytes d e) (length body) in
    let (fs, more) = records-total fuel (drop n body) (omega (arith, length-drop n body, h)) in
    (fragment_of flags a b c d e body ∷ fs, rw more refl)
records-total (suc fuel) [] h = ([], refl)
records-total (suc fuel) (x0 ∷ []) h = ([], refl)
records-total (suc fuel) (x0 ∷ x1 ∷ []) h = ([], refl)
records-total (suc fuel) (x0 ∷ x1 ∷ x2 ∷ []) h = ([], refl)
records-total (suc fuel) (x0 ∷ x1 ∷ x2 ∷ x3 ∷ []) h = ([], refl)
records-total (suc fuel) (x0 ∷ x1 ∷ x2 ∷ x3 ∷ x4 ∷ []) h = ([], refl)

records-short :
    (fuel : ℕ) (input : Bytes) → 0 < fuel → length input < header → records fuel input ≡ some []
unfolding records
records-short zero input p h = absurd (omega arith)
records-short (suc fuel) [] p h = refl
records-short (suc fuel) (x0 ∷ []) p h = refl
records-short (suc fuel) (x0 ∷ x1 ∷ []) p h = refl
records-short (suc fuel) (x0 ∷ x1 ∷ x2 ∷ []) p h = refl
records-short (suc fuel) (x0 ∷ x1 ∷ x2 ∷ x3 ∷ []) p h = refl
records-short (suc fuel) (x0 ∷ x1 ∷ x2 ∷ x3 ∷ x4 ∷ []) p h = refl
records-short (suc fuel) (x0 ∷ x1 ∷ x2 ∷ x3 ∷ x4 ∷ x5 ∷ body) p h = absurd (omega arith)

records-encode :
    (fuel : ℕ) (fs : List Fragment) (short : Bytes)
    → All CanHold fs
    → length short < header
    → length (encode_all fs ++ short) < fuel
    → records fuel (encode_all fs ++ short) ≡ some fs
unfolding records encode_all encode
records-encode zero fs short h s f = absurd (omega arith)
records-encode (suc fuel) [] short h s f = records-short (suc fuel) short (omega arith) s
records-encode (suc fuel) (f ∷ fs) short (h, hs) s enough =
    let less : length (encode_all fs ++ short) < fuel = omega (
      arith,
      enough,
      length-append (f.bytes ++ encode_all fs) short,
      length-append f.bytes (encode_all fs),
      length-append (encode_all fs) short,
    ) in
    rw (append_assoc f.bytes (encode_all fs) short) (
      rw
        (
          whole f (encode_all fs ++ short),
          drop-append_length f.bytes (encode_all fs ++ short),
          records-encode fuel fs short hs s less,
          fragment_of-encode f (encode_all fs ++ short) h,
        )
        refl)

-- What every record of an input is held to.
abbrev pub IsHeld : Fragment → Type 0
IsHeld f = f.limit ≤ max_limit

records-IsHeld :
    (fuel : ℕ) (input : Bytes) {fs : List Fragment} → records fuel input ≡ some fs → All IsHeld fs
unfolding records fragment_of ceiling
records-IsHeld zero input h = cc
records-IsHeld (suc fuel) (flags ∷ a ∷ b ∷ c ∷ d ∷ e ∷ body) {fs} h =
    let (more, rest, made) =
      and_then-eq-some (records fuel (drop (min (from_be_bytes d e) (length body)) body)) _ {b = fs}
        h in
    rw (← some-injective made) (omega arith, records-IsHeld fuel _ rest)
records-IsHeld (suc fuel) [] h = rw (← some-injective h) tt
records-IsHeld (suc fuel) (x0 ∷ []) h = rw (← some-injective h) tt
records-IsHeld (suc fuel) (x0 ∷ x1 ∷ []) h = rw (← some-injective h) tt
records-IsHeld (suc fuel) (x0 ∷ x1 ∷ x2 ∷ []) h = rw (← some-injective h) tt
records-IsHeld (suc fuel) (x0 ∷ x1 ∷ x2 ∷ x3 ∷ []) h = rw (← some-injective h) tt
records-IsHeld (suc fuel) (x0 ∷ x1 ∷ x2 ∷ x3 ∷ x4 ∷ []) h = rw (← some-injective h) tt

-- Any input is read to the end, into records whose ceilings are in range.
pub fragments-total :
    (input : Bytes) → (fs : List Fragment) × (fragments input ≡ some fs) × All IsHeld fs
unfolding fragments
fragments-total input =
    let (fs, h) = records-total (suc (length input)) input (omega arith) in
    (fs, h, records-IsHeld (suc (length input)) input h)

-- The records of fragments, one after another, with fewer octets behind them than a header has, are
-- read back to those fragments.
pub fragments-encode :
    (fs : List Fragment) (short : Bytes)
    → All CanHold fs
    → length short < header
    → fragments (encode_all fs ++ short) ≡ some fs
unfolding fragments
fragments-encode fs short h s =
    records-encode (suc (length (encode_all fs ++ short))) fs short h s (omega arith)
