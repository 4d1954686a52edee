-- ===== src/Grammar/Unquote/Correct.antt =====
-- Proofs about `unquote` of src/grammar.rs.
use ws_pmd_rs.Base.{
  ℕ, ◌≡◌, ◌≢◌, ◌↔◌, ◌⊎◌, refl, ap, ◌∙◌, sym, Bool, false, ◌||◌, [], ◌∷◌, ◌++◌, append-nil,
  append_assoc, Bytes, ◌==◌, any, Bool-cases, inl, inr, arith, ok,
}
use ws_pmd_rs.Grammar.Unquote.{unquote_loop, unquote}

abbrev is_special : ℕ → Bool
is_special c = c == b'\\' || c == b'"'

-- What may stand behind an opening quote, and the bytes that it means: single bytes, quoted pairs,
-- and the closing quote at the very end.
pub data QuotedBody : Bytes → Bytes → Type 0 where
  close : {body meant : Bytes} → body ≡ b'"' ∷ [] → meant ≡ [] → QuotedBody body meant
  pair :
      {rest meant : Bytes} (c : ℕ)
      → QuotedBody rest meant
      → QuotedBody (b'\\' ∷ c ∷ rest) (c ∷ meant)
  single :
      {rest meant : Bytes} (c : ℕ)
      → is_special c ≡ false
      → QuotedBody rest meant
      → QuotedBody (c ∷ rest) (c ∷ meant)

-- The value as it is where it has no quote, and the meaning of the quoted string where it is one.
abbrev pub Means : Bytes → Bytes → Type 0
Means value meant =
    ((any (λ c. c == b'"') value ≡ false) × (value ≡ meant))
    ⊎ ((body : Bytes) × (value ≡ b'"' ∷ body) × QuotedBody body meant)

loop-single :
    (output : Bytes) (c n : ℕ) (rest : Bytes)
    → is_special c ≡ false
    → unquote_loop output (c ∷ n ∷ rest) ≡ unquote_loop (output ++ c ∷ []) (n ∷ rest)
unfolding unquote_loop
loop-single output c n rest h = elim (Bool-cases (c == b'\\')) [
  | inl e ↦ cc (rw e at h)
  | inr a ↦ elim (Bool-cases (c == b'"')) [ inl e ↦ cc (rw (a, e) at h) | inr b ↦ rw (a, b) ]
]

loop-pair :
    (output : Bytes) (c : ℕ) (rest : Bytes)
    → unquote_loop output (b'\\' ∷ c ∷ rest) ≡ unquote_loop (output ++ c ∷ []) rest
unfolding unquote_loop
loop-pair output c rest = refl

loop-nil : (output : Bytes) {result : Bytes} → unquote_loop output [] ≢ ok result
unfolding unquote_loop
loop-nil output h = cc

QuotedBody-cons :
    {body meant : Bytes} → QuotedBody body meant → (n : ℕ) × (rest : Bytes) × (body ≡ n ∷ rest)
QuotedBody-cons (close e f) = (b'"', [], e)
QuotedBody-cons (pair {rest} c q) = (b'\\', c ∷ rest, refl)
QuotedBody-cons (single {rest} c h q) = (c, rest, refl)

QuotedBody-loop :
    {body meant : Bytes} (output : Bytes)
    → QuotedBody body meant
    → unquote_loop output body ≡ ok (output ++ meant)
QuotedBody-loop output (close e f) = rw (e, f, append-nil) (unfold unquote_loop in refl)
QuotedBody-loop output (pair {rest} {meant} c q) =
    loop-pair output c rest ∙ QuotedBody-loop (output ++ c ∷ []) q ∙ rw append_assoc
QuotedBody-loop output (single {rest} {meant} c h q) =
    let (n, r, e) = QuotedBody-cons q in
    let ih = QuotedBody-loop (output ++ c ∷ []) q in
    ap (λ t. unquote_loop output (c ∷ t)) e
    ∙ loop-single output c n r h
    ∙ (rw e at ih)
    ∙ rw append_assoc

last_byte :
    (output : Bytes) (c : ℕ) {result : Bytes}
    → unquote_loop output (c ∷ []) ≡ ok result
    → (c ≡ b'"') × (output ≡ result)
unfolding unquote_loop
last_byte output c h = ground arith

-- One round of the loop that does not fail: a quoted pair, or a single byte.
loop_round :
    (output : Bytes) (c n : ℕ) (rest : Bytes) {result : Bytes}
    → unquote_loop output (c ∷ n ∷ rest) ≡ ok result
    → ((c ≡ b'\\') × (unquote_loop (output ++ n ∷ []) rest ≡ ok result))
      ⊎ ((is_special c ≡ false) × (unquote_loop (output ++ c ∷ []) (n ∷ rest) ≡ ok result))
unfolding unquote_loop
loop_round output c n rest h = elim (Bool-cases (c == b'\\')) [
  | inl e ↦ inl (ground (arith, e), rw e at h)
  | inr a ↦ elim (Bool-cases (c == b'"')) [
    | inl e ↦ cc (rw (a, e) at h)
    | inr b ↦ inr (rw (a, b), rw (a, b) at h)
  ]
]

loop-QuotedBody :
    (output body : Bytes) {result : Bytes}
    → unquote_loop output body ≡ ok result
    → (meant : Bytes) × (result ≡ output ++ meant) × QuotedBody body meant
loop-QuotedBody output [] h = absurd (loop-nil output h)
loop-QuotedBody output (c ∷ []) h =
    let (e, f) = last_byte output c h in
    ([], sym f ∙ sym (append-nil output), close (ap (λ t. t ∷ []) e) refl)
loop-QuotedBody output (c ∷ n ∷ rest) h = elim (loop_round output c n rest h) [
  | inl (e, p) ↦
      let (meant, f, q) = loop-QuotedBody (output ++ n ∷ []) rest p in
      (n ∷ meant, f ∙ append_assoc output (n ∷ []) meant, rw e (pair n q))
  | inr (e, p) ↦
      let (meant, f, q) = loop-QuotedBody (output ++ c ∷ []) (n ∷ rest) p in
      (c ∷ meant, f ∙ append_assoc output (c ∷ []) meant, single c e q)
]

Means-unquote : (value : Bytes) {meant : Bytes} → Means value meant → unquote value ≡ ok meant
unfolding unquote
Means-unquote [] (inl (n, e)) = ap ok e
Means-unquote [] (inr (body, e, q)) = cc
Means-unquote (c ∷ cs) (inl (n, e)) = ground arith
Means-unquote (c ∷ cs) (inr (body, e, q)) = ap unquote e ∙ QuotedBody-loop [] q

unquoted :
    (c : ℕ) (cs : Bytes) {meant : Bytes}
    → (c == b'"') ≡ false
    → unquote (c ∷ cs) ≡ ok meant
    → (any (λ d. d == b'"') (c ∷ cs) ≡ false) × (c ∷ cs ≡ meant)
unfolding unquote
unquoted c cs n h = ground arith

unquote-Means : (value : Bytes) {meant : Bytes} → unquote value ≡ ok meant → Means value meant
unfolding unquote
unquote-Means [] h = inl (refl, ground (arith, h))
unquote-Means (c ∷ cs) {meant} h = elim (Bool-cases (c == b'"')) [
  | inl e ↦
      let (m, f, q) = loop-QuotedBody [] cs (rw e at h) in
      let quote : c ≡ b'"' = ground (arith, e) in inr (cs, rw quote, rw f q)
  | inr n ↦ inl (unquoted c cs n h)
]

-- `unquote` returns exactly the meaning of its value: the value itself where no quote stands in it,
-- the bytes of the one quoted string that it is otherwise, and does not return in all other cases.
pub unquote_iff : (value meant : Bytes) → (unquote value ≡ ok meant) ↔ Means value meant
unquote_iff value meant = (unquote-Means value, Means-unquote value)
