-- ===== src/Grammar/WindowBits/Correct.antt =====
-- Proofs about `parse_bits` of src/grammar.rs.
use ws_pmd_rs.Base.{
  ℕ, ◌+◌, ◌-◌, ◌*◌, ◌≤◌, ◌≡◌, ◌↔◌, refl, [], ◌∷◌, Bytes, arith, ok, ◌>>=◌, >>=-eq-ok, some,
  u8_to_string, and_then-eq-some, width_cases,
}
use ws_pmd_rs.Grammar.Trim.{trim}
use ws_pmd_rs.Grammar.Unquote.{unquote}
use ws_pmd_rs.Grammar.Unquote.Correct.{Means, unquote_iff}
use ws_pmd_rs.Grammar.WindowBits.{push_digit, fold_digits, parse_digits, parse_bits}

parse_bits_lem : (v : Bytes) → parse_bits v ≡ (unquote (trim v) >>= parse_digits)
unfolding parse_bits
parse_bits_lem v = refl

-- The one spelling of each width is read back.
pub parse_digits-u8_to_string : (n : ℕ) → 8 ≤ n → n ≤ 15 → parse_digits (u8_to_string n) ≡ ok n
unfolding parse_digits fold_digits
parse_digits-u8_to_string =
    width_cases (λ n. parse_digits (u8_to_string n) ≡ ok n) refl refl refl refl refl refl refl refl

push_digit-le : (total d next : ℕ) → push_digit total d ≡ some next → total * 10 + (d - 48) ≤ next
push_digit-le total d next h = ground arith

fold_digits-cons :
    (d : ℕ) (ds : Bytes) (total : ℕ) {r : ℕ}
    → fold_digits total (d ∷ ds) ≡ some r
    → (next : ℕ) × (total * 10 + (d - 48) ≤ next) × (fold_digits next ds ≡ some r)
unfolding fold_digits
fold_digits-cons d ds total {r} h =
    let (next, e, f) = and_then-eq-some (push_digit total d) (λ n. fold_digits n ds) {b = r} h in
    (next, push_digit-le total d next e, f)

fold_digits-le : (ds : Bytes) (total : ℕ) {r : ℕ} → fold_digits total ds ≡ some r → total ≤ r
fold_digits-le [] total h = unfold fold_digits in ground arith
fold_digits-le (d ∷ ds) total h =
    let (next, e, f) = fold_digits-cons d ds total h in omega (arith, fold_digits-le ds next f)

-- Three digits, the first of which is not 0, are no width.
fold_digits_three :
    (a b c : ℕ) (ds : Bytes) {r : ℕ} → 49 ≤ a → fold_digits 0 (a ∷ b ∷ c ∷ ds) ≡ some r → 100 ≤ r
fold_digits_three a b c ds h e =
    let (x, ex, fx) = fold_digits-cons a (b ∷ c ∷ ds) 0 e in
    let (y, ey, fy) = fold_digits-cons b (c ∷ ds) x fx in
    let (z, ez, fz) = fold_digits-cons c ds y fy in omega (arith, fold_digits-le ds z fz)

record Digits (ds : Bytes) (n : ℕ) : Type 0 where
  spelled : ds ≡ u8_to_string n
  lower : 8 ≤ n
  upper : n ≤ 15

fold_of :
    (a b : ℕ) (ds : Bytes) {n : ℕ}
    → parse_digits (a ∷ b ∷ ds) ≡ ok n
    → (49 ≤ a) × (fold_digits 0 (a ∷ b ∷ ds) ≡ some n) × (n ≤ 15)
unfolding parse_digits
fold_of a b ds h = ground arith

parse_digits-Digits : (ds : Bytes) {n : ℕ} → parse_digits ds ≡ ok n → Digits ds n
unfolding parse_digits
parse_digits-Digits [] h = cc
parse_digits-Digits (a ∷ []) h = unfold fold_digits in ground arith
parse_digits-Digits (a ∷ b ∷ []) h = unfold fold_digits in ground arith
parse_digits-Digits (a ∷ b ∷ c ∷ ds) h =
    let (lo, e, hi) = fold_of a b (c ∷ ds) h in
    absurd (omega (arith, fold_digits_three a b c ds lo e))

-- `parse_bits` returns a width exactly where the trimmed value, unquoted, is the decimal spelling
-- of a number from 8 through 15, and then returns that number: no leading zero, no sign, no other
-- spelling.
pub parse_bits_iff :
    (v : Bytes) (n : ℕ)
    → (parse_bits v ≡ ok n) ↔ (Means (trim v) (u8_to_string n) × (8 ≤ n) × (n ≤ 15))
parse_bits_iff v n = (to, from)
  where
    to : parse_bits v ≡ ok n → Means (trim v) (u8_to_string n) × (8 ≤ n) × (n ≤ 15)
    to h =
        let (ds, e, f) = >>=-eq-ok (unquote (trim v)) parse_digits (rw parse_bits_lem at h) in
        let d = parse_digits-Digits ds f in
        (rw d.spelled at ((unquote_iff (trim v) ds).0 e), d.lower, d.upper)

    from : Means (trim v) (u8_to_string n) × (8 ≤ n) × (n ≤ 15) → parse_bits v ≡ ok n
    from (m, lo, hi) =
        rw (parse_bits_lem, (unquote_iff (trim v) (u8_to_string n)).1 m)
          (parse_digits-u8_to_string n lo hi)
