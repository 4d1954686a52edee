-- ===== src/Client/Scan/Sole.antt =====
-- Proofs about `sole_deflate` of src/client.rs.
use ws_pmd_rs.Base.{
  ◌≡◌, refl, ap, ◌∙◌, sym, Bool, true, false, List, [], ◌∷◌, ◌++◌, Bytes, Option, none, some,
  Bool-cases, inl, inr, All, Outcome, ok, err, ◌>>=◌, >>=-cong, >>=_assoc, ok-injective,
}
use ws_pmd_rs.Error.{NegotiationError, duplicate_extension}
use ws_pmd_rs.Grammar.Split.Join.{HasSegments, HasElements, elements-segments}
use ws_pmd_rs.Grammar.Trim.{is_blank}
use ws_pmd_rs.Grammar.Params.{Params, is_deflate, parse_params}
use ws_pmd_rs.Grammar.Params.Blank.{is_blank-is_deflate, is_deflate-total}
use ws_pmd_rs.Grammar.Deflate.{deflate_in, deflate_elements}
use ws_pmd_rs.Client.Scan.{select_once, is_candidate, sole_in, sole_deflate}

-- The parameters of the elements, read one after another into the one place there is.
unfoldable fold_select : List Bytes → Option Params → Outcome NegotiationError (Option Params)
fold_select [] selected = ok selected
fold_select (e ∷ es) selected = do
  p ← parse_params e
  next ← select_once selected p
  fold_select es next

fold_select-append :
    (xs ys : List Bytes) (s : Option Params)
    → fold_select (xs ++ ys) s ≡ (fold_select xs s >>= fold_select ys)
unfolding fold_select
fold_select-append [] ys s = refl
fold_select-append (x ∷ xs) ys s =
    >>=-cong (parse_params x) (λ p.
      >>=-cong (select_once s p) (λ n. fold_select-append xs ys n)
      ∙ sym (>>=_assoc (select_once s p) (fold_select xs) (fold_select ys)))
    ∙ sym (>>=_assoc (parse_params x) (λ p. select_once s p >>= fold_select xs) (fold_select ys))

pub is_candidate-is_deflate : (e : Bytes) {d : Bool} → is_deflate e ≡ ok d → is_candidate e ≡ ok d
unfolding is_candidate
is_candidate-is_deflate e h = elim (Bool-cases (is_blank e)) [
  | inl b ↦ rw b (sym (is_blank-is_deflate e b) ∙ h)
  | inr n ↦ rw n h
]

record Settled (found : Outcome NegotiationError (List Bytes)) (s : Option Params)
    (answer : Outcome NegotiationError (Option Params)) : Type 0 where
  ds : List Bytes
  listed : found ≡ ok ds
  answered : answer ≡ fold_select ds s

sole_in-Settled :
    (es : List Bytes) (s : Option Params)
    → All HasSegments es
    → Settled (deflate_in es) s (sole_in es s)
unfolding sole_in deflate_in fold_select
sole_in-Settled [] s h = record { ds = []; listed = refl; answered = refl }
sole_in-Settled (e ∷ es) s h =
    let (d, hd) = is_deflate-total e h.0 in go d hd (λ t. sole_in-Settled es t h.1)
  where
    go :
        (d : Bool)
        → is_deflate e ≡ ok d
        → ((t : Option Params) → Settled (deflate_in es) t (sole_in es t))
        → Settled (deflate_in (e ∷ es)) s (sole_in (e ∷ es) s)
    go true hd ih =
        let r = ih s in
        record {
          ds = e ∷ r.ds;
          listed = rw (hd, r.listed);
          answered = rw (is_candidate-is_deflate e hd) (
              >>=_assoc (parse_params e) (select_once s) (sole_in es)
              ∙ >>=-cong (parse_params e) (λ p. >>=-cong (select_once s p) (λ n.
                (ih n).answered
                ∙ ap (λ l. fold_select l n) (ok-injective (sym (ih n).listed ∙ r.listed)))));
        }
    go false hd ih =
        let r = ih s in
        record {
          ds = r.ds;
          listed = rw (hd, r.listed);
          answered = rw (is_candidate-is_deflate e hd) r.answered;
        }

sole_deflate-Settled :
    (ls : List Bytes) (s : Option Params)
    → All HasElements ls
    → Settled (deflate_elements ls) s (sole_deflate ls s)
unfolding sole_deflate deflate_elements fold_select
sole_deflate-Settled [] s h = record { ds = []; listed = refl; answered = refl }
sole_deflate-Settled (l ∷ ls) s ((es, he), hs) =
    let here = sole_in-Settled es s (elements-segments l he) in
    let later = sole_deflate-Settled ls s hs in
    record {
      ds = here.ds ++ later.ds;
      listed = rw (he, here.listed, later.listed);
      answered =
          rw (he, here.answered, fold_select-append)
            (>>=-cong (fold_select here.ds s) (λ n.
              let r = sole_deflate-Settled ls n hs in
              r.answered ∙ ap (λ d. fold_select d n) (ok-injective (sym r.listed ∙ later.listed))));
    }

-- The parameters of the one element there may be.
abbrev pub sole_of : List Bytes → Outcome NegotiationError (Option Params)
sole_of [] = ok none
sole_of (e ∷ []) = do p ← parse_params e; ok (some p)
sole_of (e ∷ f ∷ es) = do p ← parse_params e; q ← parse_params f; err duplicate_extension

fold_select-sole_of : (ds : List Bytes) → fold_select ds none ≡ sole_of ds
unfolding fold_select
fold_select-sole_of [] = refl
fold_select-sole_of (e ∷ []) = refl
fold_select-sole_of (e ∷ f ∷ es) = refl

-- On a field whose lines all split, the scan of the response answers by the list of its
-- `permessage-deflate` elements, whatever line each stands on: nothing where there is none, the
-- parameters of the one that there is or the error of reading it, and, for two or more, the error
-- of reading the first, or else that of reading the second, and the error for a duplicate only
-- where both can be read.
pub sole_deflate-sole_of :
    (ls : List Bytes)
    → All HasElements ls
    → (ds : List Bytes) × (deflate_elements ls ≡ ok ds) × (sole_deflate ls none ≡ sole_of ds)
sole_deflate-sole_of ls h =
    let r = sole_deflate-Settled ls none h in
    (r.ds, r.listed, r.answered ∙ fold_select-sole_of r.ds)
