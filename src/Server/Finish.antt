-- ===== src/Server/Finish.antt =====
-- Proofs about `ServerHandshake::finish` of src/server.rs.
use ws_pmd_rs.Base.{
  ◌+◌, ◌≡◌, ◌↔◌, refl, ap, ◌∙◌, sym, List, [], ◌∷◌, Bytes, Option, none, some, length, arith, ok,
  >>=-eq-ok, ok-injective, some-injective,
}
use ws_pmd_rs.Error.{response_altered}
use ws_pmd_rs.Http.{Http, lines}
use ws_pmd_rs.Negotiated.{Negotiated, PmdComposition, compatible, conflict}
use ws_pmd_rs.Grammar.Trim.{trim}
use ws_pmd_rs.Grammar.Validate.{validate}
use ws_pmd_rs.Grammar.Deflate.{deflate_elements}
use ws_pmd_rs.Client.Scan.{count_written}
use ws_pmd_rs.Client.Scan.Correct.{AllWritten, count_written-Counted, count_written-AllWritten}
use ws_pmd_rs.Server.{resolve, finish}
use ws_pmd_rs.Server.Select.{ServerHandshake}

module _ (H : Http) (h : ServerHandshake H) where
  -- What a response settles, by its `permessage-deflate` elements: the host removed the proposal,
  -- or sends it once, as it was written, with nothing that conflicts.
  abbrev pub Settles : List Bytes → PmdComposition → Option Negotiated → Type 0
  Settles ds composition none = ds ≡ []
  Settles ds composition (some n) =
      (composition ≡ compatible)
      × (n ≡ h.agreement)
      × (e : Bytes) × (ds ≡ e ∷ [])
      × (trim e ≡ H.as_bytes h.proposed)

  resolve-Settles :
      (ds : List Bytes) (composition : PmdComposition) (o : Option Negotiated)
      → AllWritten response_altered (H.as_bytes h.proposed) ds
      → resolve H h.agreement (length ds) composition ≡ ok o
      → Settles ds composition o
  unfolding resolve
  resolve-Settles [] composition none a k = refl
  resolve-Settles [] composition (some n) a k = cc
  resolve-Settles (e ∷ []) compatible none a k = cc
  resolve-Settles (e ∷ []) compatible (some n) a k =
      (refl, sym (some-injective (ok-injective k)), e, refl, a.0)
  resolve-Settles (e ∷ []) conflict o a k = cc
  resolve-Settles (e ∷ f ∷ ds) composition o a k = cc

  Settles-resolve :
      (ds : List Bytes) (composition : PmdComposition) (o : Option Negotiated)
      → Settles ds composition o
      → AllWritten response_altered (H.as_bytes h.proposed) ds
        × (resolve H h.agreement (length ds) composition ≡ ok o)
  unfolding resolve
  Settles-resolve ds composition none s = rw s (tt, refl)
  Settles-resolve ds composition (some n) (c, a, e, one, same) = rw (c, a, one) ((same, tt), refl)

  -- On a field that the grammar accepts, `finish` returns nothing exactly where the response has no
  -- `permessage-deflate` element, and the agreement exactly where it has one, which trimmed is the
  -- proposal, and nothing conflicts; in all other cases it does not return.
  pub finish_iff :
      (headers : H.HeaderMap) (composition : PmdComposition) (ds : List Bytes)
      (o : Option Negotiated)
      → validate (lines H headers) ≡ ok tt
      → deflate_elements (lines H headers) ≡ ok ds
      → (finish H h headers composition ≡ ok o) ↔ Settles ds composition o
  unfolding finish
  finish_iff headers composition ds o valid listed = (to, from)
    where
      to : finish H h headers composition ≡ ok o → Settles ds composition o
      to k =
          let (u, hu, j) = >>=-eq-ok (validate (lines H headers)) _ {result = o} k in
          let (m, hm, r) =
            >>=-eq-ok (count_written response_altered (H.as_bytes h.proposed) (lines H headers) 0) _
              {result = o} j in
          let c =
            count_written-Counted response_altered (H.as_bytes h.proposed) (lines H headers) 0 hm in
          let same : c.ds ≡ ds = ok-injective (sym c.listed ∙ listed) in
          let count : m ≡ length ds = omega (arith, c.total, ap length same) in
          resolve-Settles ds composition o (rw same at c.same) (rw count at r)

      from : Settles ds composition o → finish H h headers composition ≡ ok o
      from s =
          let (all_written, answer) = Settles-resolve ds composition o s in
          let whole : 0 + length ds ≡ length ds = omega arith in
          rw
            (
              valid,
              count_written-AllWritten response_altered (H.as_bytes h.proposed) (lines H headers) 0
                  listed all_written,
              whole,
            )
            answer
