-- ===== src/Client/Scan/Correct.antt =====
-- Proofs about the loops of src/client.rs and src/server.rs over the field.
use ws_pmd_rs.Base.{
  ℕ, ◌+◌, ◌≡◌, refl, ap, ◌∙◌, sym, Bool, true, false, not, ◌||◌, List, [], ◌∷◌, ◌++◌, Bytes,
  if◌then◌else◌, length, length-append, All, All-append, bytes_eq, bytes_eq_iff, arith, guard-eq-ok,
  ok-injective, All-split, Outcome, ok, guard, >>=-eq-ok,
}
use ws_pmd_rs.Error.{NegotiationError}
use ws_pmd_rs.Grammar.Split.{elements}
use ws_pmd_rs.Grammar.Trim.{trim}
use ws_pmd_rs.Grammar.Params.{is_deflate}
use ws_pmd_rs.Grammar.Deflate.{deflate_in, deflate_elements}
use ws_pmd_rs.Client.Scan.{count_in, count_written}
use ws_pmd_rs.Client.Scan.Contains.{deflate_in-cons, deflate_elements-cons}

module _ (altered : NegotiationError) (written : Bytes) where
  abbrev pub AllWritten : List Bytes → Type 0
  AllWritten = All (λ e. trim e ≡ written)

  pub record Counted (found : Outcome NegotiationError (List Bytes)) (n m : ℕ) : Type 0 where
    pub ds : List Bytes
    pub listed : found ≡ ok ds
    pub same : AllWritten ds
    pub total : m ≡ n + length ds

  count_in-Counted :
      (es : List Bytes) (n : ℕ) {m : ℕ}
      → count_in altered written es n ≡ ok m
      → Counted (deflate_in es) n m
  unfolding count_in
  count_in-Counted [] n h = record {
    ds = [];
    listed = unfold deflate_in in refl;
    same = tt;
    total = ground arith;
  }
  count_in-Counted (e ∷ es) n {m} h =
      let (d, hd, r) = >>=-eq-ok (is_deflate e) _ h in
      let (u, hu, rest) = >>=-eq-ok (guard (not d || bytes_eq (trim e) written) altered) _ r in
      go d hd hu rest (λ k. count_in-Counted es k)
    where
      go :
          (d : Bool) {u : Unit {0}}
          → is_deflate e ≡ ok d
          → guard (not d || bytes_eq (trim e) written) altered ≡ ok u
          → count_in altered written es (if d then n + 1 else n) ≡ ok m
          → ((k : ℕ) → count_in altered written es k ≡ ok m → Counted (deflate_in es) k m)
          → Counted (deflate_in (e ∷ es)) n m
      go true hd hu r ih =
          let c = ih (n + 1) r in
          let equal = guard-eq-ok (bytes_eq (trim e) written) altered hu in
          record {
            ds = e ∷ c.ds;
            listed = deflate_in-cons e es true hd c.listed;
            same = ((bytes_eq_iff (trim e) written).0 equal, c.same);
            total = omega (arith, c.total);
          }
      go false hd hu r ih =
          let c = ih n r in
          record {
            ds = c.ds;
            listed = deflate_in-cons e es false hd c.listed;
            same = c.same;
            total = c.total;
          }

  -- The count of a scan that returns is the number of `permessage-deflate` elements of the field,
  -- each of which is, trimmed, what was written.
  pub count_written-Counted :
      (ls : List Bytes) (n : ℕ) {m : ℕ}
      → count_written altered written ls n ≡ ok m
      → Counted (deflate_elements ls) n m
  unfolding count_written
  count_written-Counted [] n h = record {
    ds = [];
    listed = unfold deflate_elements in refl;
    same = tt;
    total = ground arith;
  }
  count_written-Counted (l ∷ ls) n h =
      let (es, he, r) = >>=-eq-ok (elements l) _ h in
      let (k, hk, rest) = >>=-eq-ok (count_in altered written es n) _ r in
      let here = count_in-Counted es n hk in
      let later = count_written-Counted ls k rest in
      record {
        ds = here.ds ++ later.ds;
        listed = deflate_elements-cons l ls he here.listed later.listed;
        same = All-append _ here.ds later.ds here.same later.same;
        total = omega (arith, here.total, later.total, length-append here.ds later.ds);
      }

  count_in-AllWritten :
      (es : List Bytes) (n : ℕ) {ds : List Bytes}
      → deflate_in es ≡ ok ds
      → AllWritten ds
      → count_in altered written es n ≡ ok (n + length ds)
  unfolding count_in deflate_in
  count_in-AllWritten [] n {ds} h a =
      let none_here : ds ≡ [] = ok-injective (sym h) in rw none_here (ap ok (omega arith))
  count_in-AllWritten (e ∷ es) n {ds} h a =
      let (d, hd, r) = >>=-eq-ok (is_deflate e) _ {result = ds} h in
      let (later, hl, rest) = >>=-eq-ok (deflate_in es) _ {result = ds} r in
      go d hd later rest a (λ k. count_in-AllWritten es k hl)
    where
      go :
          (d : Bool)
          → is_deflate e ≡ ok d
          → (later : List Bytes)
          → ◌≡◌ {A = Outcome NegotiationError (List Bytes)}
              (ok (if d then e ∷ later else later))
              (ok ds)
          → AllWritten ds
          → ((k : ℕ) → AllWritten later → count_in altered written es k ≡ ok (k + length later))
          → count_in altered written (e ∷ es) n ≡ ok (n + length ds)
      go true hd later r b ih =
          let b' = rw (← ok-injective r) at b in
          rw (hd, (bytes_eq_iff (trim e) written).1 b'.0, ← ok-injective r)
            (ih (n + 1) b'.1 ∙ ap ok (omega arith))
      go false hd later r b ih = rw (hd, ← ok-injective r) (ih n (rw (← ok-injective r) at b))

  -- The other way round: where every `permessage-deflate` element of the field is what was
  -- written, the scan returns and counts them.
  pub count_written-AllWritten :
      (ls : List Bytes) (n : ℕ) {ds : List Bytes}
      → deflate_elements ls ≡ ok ds
      → AllWritten ds
      → count_written altered written ls n ≡ ok (n + length ds)
  unfolding count_written deflate_elements
  count_written-AllWritten [] n {ds} h a =
      let none_here : ds ≡ [] = ok-injective (sym h) in rw none_here (ap ok (omega arith))
  count_written-AllWritten (l ∷ ls) n {ds} h a =
      let (es, he, r) = >>=-eq-ok (elements l) _ {result = ds} h in
      let (here, hh, s) = >>=-eq-ok (deflate_in es) _ {result = ds} r in
      let (later, hl, joined) = >>=-eq-ok (deflate_elements ls) _ {result = ds} s in
      let both = rw (← ok-injective joined) at a in
      let (left, right) = All-split _ here later both in
      rw (he, count_in-AllWritten es n hh left, ← ok-injective joined, length-append)
        (count_written-AllWritten ls (n + length here) hl right ∙ ap ok (omega arith))
