-- ===== src/Grammar/Trim/Strip.antt =====
-- `trim` of src/grammar.rs by recursion: what is not kept is dropped byte by byte at each end.
use ws_pmd_rs.Base.{
  ℕ, suc, ◌≤◌, ◌<◌, ◌-◌, le→leb, ◌≡◌, ◌⊎◌, refl, ◌∙◌, sym, Bool, true, false, [], ◌∷◌, Bytes, none,
  some, if◌then◌else◌, Bool-cases, inl, inr, arith, length, take, drop, position, rposition,
  get_range,
}
use ws_pmd_rs.Grammar.Trim.{trim_by}

module _ (keep : ℕ → Bool) where
  unfoldable pub strip_start : Bytes → Bytes
  strip_start [] = []
  strip_start (c ∷ cs) = if keep c then c ∷ cs else strip_start cs

  abbrev pub put_front : ℕ → Bytes → Bytes
  put_front c [] = if keep c then c ∷ [] else []
  put_front c (x ∷ xs) = c ∷ x ∷ xs

  unfoldable pub strip_end : Bytes → Bytes
  strip_end [] = []
  strip_end (c ∷ cs) = put_front c (strip_end cs)

  record Nothing (v : Bytes) : Type 0 where
    first : position keep v ≡ none
    last : rposition keep v ≡ none
    stripped : strip_end v ≡ []

  record Range (v : Bytes) : Type 0 where
    i : ℕ
    j : ℕ
    first : position keep v ≡ some i
    last : rposition keep v ≡ some j
    ordered : i ≤ j
    inside : j < length v
    stripped : take (suc j) v ≡ strip_end v

  put_front-take :
      (c j : ℕ) (cs stripped : Bytes)
      → j < length cs
      → take (suc j) cs ≡ stripped
      → c ∷ take (suc j) cs ≡ put_front c stripped
  put_front-take c j [] stripped h e = absurd (omega arith)
  put_front-take c j (x ∷ xs) stripped h e = rw (← e)

  Range-cons :
      (c : ℕ) (cs : Bytes) (r : Range cs) (i : ℕ)
      → position keep (c ∷ cs) ≡ some i
      → i ≤ suc r.j
      → Range (c ∷ cs)
  unfolding strip_end
  Range-cons c cs r i first ordered = record {
    i = i;
    j = suc r.j;
    first = first;
    last = rw r.last;
    ordered = ordered;
    inside = omega (arith, r.inside);
    stripped = put_front-take c r.j cs (strip_end cs) r.inside r.stripped;
  }

  Nothing-cons : (c : ℕ) (cs : Bytes) → Nothing cs → keep c ≡ false → Nothing (c ∷ cs)
  unfolding strip_end
  Nothing-cons c cs n dropped = record {
    first = rw (dropped, n.first);
    last = rw (n.last, dropped);
    stripped = rw (n.stripped, dropped);
  }

  ranges : (v : Bytes) → Nothing v ⊎ Range v
  unfolding strip_end
  ranges [] = inl (record { first = refl; last = refl; stripped = refl })
  ranges (c ∷ cs) = elim (ranges cs) [
    | inl n ↦ elim (Bool-cases (keep c)) [
      | inl kept ↦ inr (record {
        i = 0;
        j = 0;
        first = rw kept;
        last = rw (n.last, kept);
        ordered = omega arith;
        inside = omega arith;
        stripped = rw (n.stripped, kept);
      })
      | inr dropped ↦ inl (Nothing-cons c cs n dropped)
    ]
    | inr r ↦ elim (Bool-cases (keep c)) [
      | inl kept ↦ inr (Range-cons c cs r 0 (rw kept) (omega arith))
      | inr dropped ↦
          inr (Range-cons c cs r (suc r.i) (rw (dropped, r.first)) (omega (arith, r.ordered)))
    ]
  ]

  get_range-some :
      (v : Bytes) (i j : ℕ)
      → i ≤ j
      → j ≤ length v
      → get_range v i j ≡ some (take (j - i) (drop i v))
  unfolding get_range
  get_range-some v i j h k = rw (le→leb i j h, le→leb j _ k)

  trim_by-Nothing : (v : Bytes) → Nothing v → trim_by keep v ≡ []
  unfolding trim_by
  trim_by-Nothing v n =
      let empty : length v - length v ≡ 0 = omega arith in
      rw
        (n.last, n.first, get_range-some v (length v) (length v) (omega arith) (omega arith), empty)

  trim_by-Range : (v : Bytes) (r : Range v) → trim_by keep v ≡ take (suc r.j - r.i) (drop r.i v)
  unfolding trim_by
  trim_by-Range v r = rw (
    r.first,
    r.last,
    get_range-some v r.i (suc r.j) (omega (arith, r.ordered)) (omega (arith, r.inside)),
  )

  trim_by-dropped : (c : ℕ) (cs : Bytes) → keep c ≡ false → trim_by keep (c ∷ cs) ≡ trim_by keep cs
  unfolding Range-cons
  trim_by-dropped c cs w = elim (ranges cs) [
    | inl n ↦ trim_by-Nothing (c ∷ cs) (Nothing-cons c cs n w) ∙ sym (trim_by-Nothing cs n)
    | inr r ↦
        let longer = Range-cons c cs r (suc r.i) (rw (w, r.first)) (omega (arith, r.ordered)) in
        let same : suc (suc r.j) - suc r.i ≡ suc r.j - r.i = omega arith in
        trim_by-Range (c ∷ cs) longer ∙ rw same (sym (trim_by-Range cs r))
  ]

  trim_by-kept : (c : ℕ) (cs : Bytes) → keep c ≡ true → trim_by keep (c ∷ cs) ≡ strip_end (c ∷ cs)
  trim_by-kept c cs w = elim (ranges (c ∷ cs)) [
    | inl n ↦ cc (rw w at n.first)
    | inr r ↦
        let at_start : r.i ≡ 0 = ground (arith, r.first) in
        let whole : suc r.j - 0 ≡ suc r.j = omega arith in
        trim_by-Range (c ∷ cs) r ∙ rw (at_start, whole) r.stripped
  ]

  -- The slice that `trim` takes, with nothing that is not kept at either end.
  pub trim_by_lem : (v : Bytes) → trim_by keep v ≡ strip_end (strip_start v)
  unfolding strip_start strip_end
  trim_by_lem [] = trim_by-Nothing [] (record { first = refl; last = refl; stripped = refl })
  trim_by_lem (c ∷ cs) = elim (Bool-cases (keep c)) [
    | inl kept ↦ rw kept (trim_by-kept c cs kept)
    | inr dropped ↦ rw dropped (trim_by-dropped c cs dropped ∙ trim_by_lem cs)
  ]
