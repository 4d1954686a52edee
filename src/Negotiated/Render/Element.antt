-- ===== src/Negotiated/Render/Element.antt =====
-- Proofs about `render` of src/negotiated.rs, its renderings as elements of a line of
-- src/grammar.rs.
use ws_pmd_rs.Base.{
  ℕ, ◌≡◌, refl, ap, ◌∙◌, Bool, true, ◌&&◌, List, [], ◌∷◌, Bytes, Option, arith, all, all-append,
  All, All-of_all, ok, ◌>>=◌, within, bytes_eq,
}
use ws_pmd_rs.Grammar.Trim.{trim}
use ws_pmd_rs.Http.{IsVisible}
use ws_pmd_rs.Grammar.Running.{running}
use ws_pmd_rs.Grammar.Params.{name, first_or_default, is_deflate}
use ws_pmd_rs.Grammar.Split.{segments, elements}
use ws_pmd_rs.Grammar.Split.Pieces.{join, is_plain, IsPiece, all_plain-IsPiece}
use ws_pmd_rs.Grammar.Split.Join.{split-join_pieces}
use ws_pmd_rs.Negotiated.Render.{ClientBits, render_string}
use ws_pmd_rs.Negotiated.Render.Segments.{
  parameter_segments, render_string-join, ServerInRange, ClientInRange, is_clean, AllClean,
  segments-AllClean,
}

all_clean :
    (p : ℕ → Bool)
    → ((c : ℕ) → is_clean c ≡ true → p c ≡ true)
    → (x : Bytes) → all is_clean x ≡ true
    → all p x ≡ true
all_clean p f [] h = refl
all_clean p f (c ∷ cs) h =
    let (hc, hs) = split_and c (all is_clean cs) h in rw (f c hc) (all_clean p f cs hs)
  where
    split_and : (b : ℕ) (r : Bool) → is_clean b && r ≡ true → (is_clean b ≡ true) × (r ≡ true)
    split_and b r e = ground arith

join-all :
    (p : ℕ → Bool) (d : ℕ) (ss : List Bytes)
    → ((c : ℕ) → is_clean c ≡ true → p c ≡ true)
    → p d ≡ true
    → AllClean ss
    → all p (join d ss) ≡ true
unfolding join
join-all p d [] f hd h = refl
join-all p d (s ∷ []) f hd h = all_clean p f s h.0
join-all p d (s ∷ t ∷ ss) f hd h =
    all-append p s (d ∷ join d (t ∷ ss)) (all_clean p f s h.0)
      (rw hd (join-all p d (t ∷ ss) f hd h.1))

AllClean-IsPiece : (ss : List Bytes) → AllClean ss → All (IsPiece b';') ss
AllClean-IsPiece [] h = tt
AllClean-IsPiece (s ∷ ss) h = (
  all_plain-IsPiece b';' s (all_clean (is_plain b';') (λ c e. ground arith) s h.0),
  AllClean-IsPiece ss h.1,
)

is_deflate_lem :
    (element : Bytes)
    → is_deflate element
      ≡ (segments element >>= λ parts. ok (bytes_eq (trim (first_or_default parts)) name))
unfolding is_deflate
is_deflate_lem element = refl

name_is_name : bytes_eq (trim name) name ≡ true
unfolding running
name_is_name = refl

module _ (st ct : Bool) (sb : Option ℕ) (cb : ClientBits) (hs : ServerInRange sb)
    (hc : ClientInRange cb) where
  clean : AllClean (name ∷ parameter_segments st ct sb cb)
  clean = segments-AllClean st ct sb cb hs hc

  pub segments-render_string :
      segments (render_string st ct sb cb) ≡ ok (name ∷ parameter_segments st ct sb cb)
  unfolding segments
  segments-render_string = rw render_string-join (
      split-join_pieces b';' name (parameter_segments st ct sb cb) (omega arith)
        (AllClean-IsPiece (name ∷ parameter_segments st ct sb cb) clean))

  all-render_string :
      (p : ℕ → Bool)
      → ((c : ℕ) → is_clean c ≡ true → p c ≡ true)
      → p b';' ≡ true
      → all p (render_string st ct sb cb) ≡ true
  all-render_string p f hd =
      rw render_string-join (join-all p b';' (name ∷ parameter_segments st ct sb cb) f hd clean)

  pub elements-render_string :
      elements (render_string st ct sb cb) ≡ ok (render_string st ct sb cb ∷ [])
  unfolding elements join
  elements-render_string = split-join_pieces b',' (render_string st ct sb cb) [] (omega arith) (
    all_plain-IsPiece b',' (render_string st ct sb cb)
        (all-render_string (is_plain b',') (λ c e. ground arith) refl),
    tt,
  )

  pub render_string-IsVisible : All IsVisible (render_string st ct sb cb)
  render_string-IsVisible =
      All-of_all IsVisible (within 32 126) (render_string st ct sb cb) (λ c e. ground arith)
        (all-render_string (within 32 126) (λ c e. ground arith) refl)

  pub is_deflate-render_string : is_deflate (render_string st ct sb cb) ≡ ok true
  is_deflate-render_string =
      is_deflate_lem (render_string st ct sb cb) ∙ rw segments-render_string (ap ok name_is_name)
