-- ===== src/Grammar/Trim/Correct.antt =====
-- Proofs about `trim` of src/grammar.rs.
use ws_pmd_rs.Base.{
  ℕ, ◌≡◌, refl, ap, ◌∙◌, sym, Bool, true, false, [], ◌∷◌, ◌++◌, append_assoc, Bytes, Bool-cases,
  inl, inr, arith, All, is_ascii_whitespace,
}
use ws_pmd_rs.Grammar.Trim.{trim_by, not_whitespace, trim}
use ws_pmd_rs.Grammar.Trim.Strip.{strip_start, strip_end, trim_by_lem}

module _ (keep : ℕ → Bool) where
  abbrev pub Dropped : Bytes → Type 0
  Dropped = All (λ c. keep c ≡ false)

  -- `middle` is `whole` without what is not kept at either end: its own ends are kept.
  pub record IsTrimOf (whole middle : Bytes) : Type 0 where
    pub before : Bytes
    pub after : Bytes
    pub joined : whole ≡ before ++ (middle ++ after)
    pub before_dropped : Dropped before
    pub after_dropped : Dropped after
    pub first_kept : (c : ℕ) (cs : Bytes) → middle ≡ c ∷ cs → keep c ≡ true
    pub last_kept : (cs : Bytes) (c : ℕ) → middle ≡ cs ++ c ∷ [] → keep c ≡ true

  strip_start-Dropped :
      (xs ys : Bytes) → Dropped xs → strip_start keep (xs ++ ys) ≡ strip_start keep ys
  unfolding strip_start
  strip_start-Dropped [] ys h = refl
  strip_start-Dropped (x ∷ xs) ys h = rw h.0 (strip_start-Dropped xs ys h.1)

  strip_end-Dropped : (xs : Bytes) → Dropped xs → strip_end keep xs ≡ []
  unfolding strip_end
  strip_end-Dropped [] h = refl
  strip_end-Dropped (x ∷ xs) h = rw (strip_end-Dropped xs h.1, h.0)

  -- What stands behind a kept byte does not matter to the bytes in front of it.
  strip_end-kept :
      (xs : Bytes) (c : ℕ) (ys : Bytes)
      → keep c ≡ true
      → Dropped ys
      → strip_end keep (xs ++ c ∷ ys) ≡ xs ++ c ∷ []
  unfolding strip_end
  strip_end-kept [] c ys k h = rw (strip_end-Dropped ys h, k)
  strip_end-kept (x ∷ []) c ys k h = rw (strip_end-kept [] c ys k h)
  strip_end-kept (x ∷ y ∷ xs) c ys k h = rw (strip_end-kept (y ∷ xs) c ys k h)

  snoc_view : (c : ℕ) (cs : Bytes) → (xs : Bytes) × (l : ℕ) × (c ∷ cs ≡ xs ++ l ∷ [])
  snoc_view c [] = ([], c, refl)
  snoc_view c (d ∷ ds) = let (xs, l, e) = snoc_view d ds in (c ∷ xs, l, ap (◌∷◌ c) e)

  strip_Dropped : (xs : Bytes) → Dropped xs → strip_end keep (strip_start keep xs) ≡ []
  unfolding strip_start strip_end
  strip_Dropped [] h = refl
  strip_Dropped (x ∷ xs) h = rw h.0 (strip_Dropped xs h.1)

  strip_start-kept : (c : ℕ) (cs : Bytes) → keep c ≡ true → strip_start keep (c ∷ cs) ≡ c ∷ cs
  unfolding strip_start
  strip_start-kept c cs k = rw k

  strip-middle :
      (before middle after : Bytes)
      → Dropped before
      → Dropped after
      → ((c : ℕ) (cs : Bytes) → middle ≡ c ∷ cs → keep c ≡ true)
      → ((cs : Bytes) (c : ℕ) → middle ≡ cs ++ c ∷ [] → keep c ≡ true)
      → strip_end keep (strip_start keep (before ++ (middle ++ after))) ≡ middle
  strip-middle before [] after hb ha first last =
      rw (strip_start-Dropped before after hb) (strip_Dropped after ha)
  strip-middle before (c ∷ cs) after hb ha first last =
      let (xs, l, e) = snoc_view c cs in
      rw
        (
          strip_start-Dropped before (c ∷ cs ++ after) hb,
          strip_start-kept c (cs ++ after) (first c cs refl),
        )
        (ap (λ t. strip_end keep (t ++ after)) e
          ∙ rw append_assoc (strip_end-kept xs l after (last xs l e) ha)
          ∙ sym e)

  -- Nothing else is: the trimmed middle of a value is unique.
  pub IsTrimOf-trim_by :
      {whole middle : Bytes} → IsTrimOf whole middle → middle ≡ trim_by keep whole
  IsTrimOf-trim_by {whole} {middle} t =
      rw (trim_by_lem, t.joined)
        (sym (
          strip-middle t.before middle t.after t.before_dropped t.after_dropped t.first_kept
            t.last_kept))

  record StartOf (v : Bytes) : Type 0 where
    before : Bytes
    joined : v ≡ before ++ strip_start keep v
    dropped : Dropped before
    kept : (c : ℕ) (cs : Bytes) → strip_start keep v ≡ c ∷ cs → keep c ≡ true

  start_of : (v : Bytes) → StartOf v
  unfolding strip_start
  start_of [] = record { before = []; joined = refl; dropped = tt; kept = λ c cs e. cc }
  start_of (c ∷ cs) = elim (Bool-cases (keep c)) [
    | inl k ↦ record {
      before = [];
      joined = rw k;
      dropped = tt;
      kept = λ d ds e. ground (arith, k, rw k at e);
    }
    | inr n ↦
        let rest = start_of cs in
        record {
          before = c ∷ rest.before;
          joined = rw n (ap (◌∷◌ c) rest.joined);
          dropped = (n, rest.dropped);
          kept = λ d ds e. rest.kept d ds (rw n at e);
        }
  ]

  record EndOf (v : Bytes) : Type 0 where
    after : Bytes
    joined : v ≡ strip_end keep v ++ after
    dropped : Dropped after
    kept : (cs : Bytes) (c : ℕ) → strip_end keep v ≡ cs ++ c ∷ [] → keep c ≡ true

  kept_behind : (c : ℕ) (ds : Bytes) (d : ℕ) → keep c ≡ true → c ∷ [] ≡ ds ++ d ∷ [] → keep d ≡ true
  kept_behind c [] d k e = ground arith
  kept_behind c (x ∷ []) d k e = cc
  kept_behind c (x ∷ y ∷ ys) d k e = cc

  not-nil-snoc : (ds : Bytes) (d : ℕ) → ¬ (◌≡◌ {A = Bytes} [] (ds ++ d ∷ []))
  not-nil-snoc [] d e = cc
  not-nil-snoc (x ∷ xs) d e = cc

  snoc_tail :
      (c x : ℕ) (xs ds : Bytes) (d : ℕ)
      → c ∷ x ∷ xs ≡ ds ++ d ∷ []
      → (es : Bytes) × (x ∷ xs ≡ es ++ d ∷ [])
  snoc_tail c x xs [] d e = cc
  snoc_tail c x xs (y ∷ ys) d e = (ys, cc)

  EndOf-cons : (c : ℕ) (cs s : Bytes) → strip_end keep cs ≡ s → EndOf cs → EndOf (c ∷ cs)
  unfolding strip_end
  EndOf-cons c cs [] e rest = elim (Bool-cases (keep c)) [
    | inl k ↦ record {
      after = rest.after;
      joined = rw (e, k) (ap (◌∷◌ c) (rw e at rest.joined));
      dropped = rest.dropped;
      kept = λ ds d h. kept_behind c ds d k (rw (e, k) at h);
    }
    | inr n ↦ record {
      after = c ∷ rest.after;
      joined = rw (e, n) (ap (◌∷◌ c) (rw e at rest.joined));
      dropped = (n, rest.dropped);
      kept = λ ds d h. absurd (not-nil-snoc ds d (rw (e, n) at h));
    }
  ]
  EndOf-cons c cs (x ∷ xs) e rest = record {
    after = rest.after;
    joined = rw e (ap (◌∷◌ c) (rw e at rest.joined));
    dropped = rest.dropped;
    kept = λ ds d h. let (es, t) = snoc_tail c x xs ds d (rw e at h) in rest.kept es d (e ∙ t);
  }

  end_of : (v : Bytes) → EndOf v
  unfolding strip_end
  end_of [] = record {
    after = [];
    joined = refl;
    dropped = tt;
    kept = λ ds d h. absurd (not-nil-snoc ds d h);
  }
  end_of (c ∷ cs) = EndOf-cons c cs (strip_end keep cs) refl (end_of cs)

  -- What `trim` returns is a trimmed middle of the value.
  pub trim_by-IsTrimOf : (v : Bytes) → IsTrimOf v (trim_by keep v)
  trim_by-IsTrimOf v =
      let a = start_of v in
      let b = end_of (strip_start keep v) in
      rw trim_by_lem (record {
        before = a.before;
        after = b.after;
        joined = a.joined ∙ ap (◌++◌ a.before) b.joined;
        before_dropped = a.dropped;
        after_dropped = b.dropped;
        first_kept = λ c cs e. a.kept c (cs ++ b.after) (b.joined ∙ ap (λ t. t ++ b.after) e);
        last_kept = b.kept;
      })

-- `trim` returns the one middle of the value with white space only on its two sides and none at
-- its own ends.
pub trim-IsTrimOf :
    (v : Bytes)
    → IsTrimOf not_whitespace v (trim v) × ((m : Bytes) → IsTrimOf not_whitespace v m → m ≡ trim v)
unfolding trim
trim-IsTrimOf v = (trim_by-IsTrimOf not_whitespace v, λ m t. IsTrimOf-trim_by not_whitespace t)

-- A value that begins and ends with a byte other than white space is its own trimming.
pub trim_ends :
    (c : ℕ) (cs xs : Bytes) (l : ℕ)
    → c ∷ cs ≡ xs ++ l ∷ []
    → is_ascii_whitespace c ≡ false
    → is_ascii_whitespace l ≡ false
    → trim (c ∷ cs) ≡ c ∷ cs
unfolding trim
trim_ends c cs xs l e hc hl =
    trim_by_lem not_whitespace (c ∷ cs)
    ∙ ap (strip_end not_whitespace) (strip_start-kept not_whitespace c cs (rw hc))
    ∙ ap (strip_end not_whitespace) e
    ∙ strip_end-kept not_whitespace xs l [] (rw hl) tt
    ∙ sym e
