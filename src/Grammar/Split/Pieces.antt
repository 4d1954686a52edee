-- ===== src/Grammar/Split/Pieces.antt =====
-- What `split` of src/grammar.rs means: quoting as a three-state automaton, and the pieces
-- between the delimiters that stand outside every quoted string. No indices and no slices.
use ws_pmd_rs.Base.{
  ℕ, ◌≡◌, refl, ap, ◌∙◌, sym, Bool, true, false, not, ◌&&◌, List, [], ◌∷◌, ◌++◌, append-nil,
  append_assoc, Bytes, ◌==◌, if◌then◌else◌, All, all, arith, Bool-cases, inl, inr,
}

pub data Quoting : Type 0 where
  outside inside after_backslash : Quoting

abbrev pub step_quoting : Quoting → ℕ → Quoting
step_quoting outside byte = if byte == b'"' then inside else outside
step_quoting inside byte =
    if byte == b'\\' then after_backslash else if byte == b'"' then outside else inside
step_quoting after_backslash byte = inside

abbrev pub end_quoting : Quoting → Bytes → Quoting
end_quoting m [] = m
end_quoting m (byte ∷ rest) = end_quoting (step_quoting m byte) rest

-- Every quoted string that `v` opens is closed in it.
abbrev pub IsBalanced : Bytes → Type 0
IsBalanced v = end_quoting outside v ≡ outside

abbrev pub is_outside : Quoting → Bool
is_outside outside = true
is_outside inside = false
is_outside after_backslash = false

-- A delimiter outside the quoted strings. A quote is never one.
abbrev pub cuts : ℕ → Quoting → ℕ → Bool
cuts d m byte = is_outside m && (not (byte == b'"') && byte == d)

-- The pieces of `rest`, the first of which has begun with `piece`.
unfoldable pub pieces : ℕ → Bytes → Quoting → Bytes → List Bytes
pieces d piece m [] = piece ∷ []
pieces d piece m (byte ∷ rest) =
    let here = pieces d [] m rest in
    let on = pieces d (piece ++ byte ∷ []) (step_quoting m byte) rest in
    if cuts d m byte then piece ∷ here else on

-- The pieces with the delimiter between them.
unfoldable pub join : ℕ → List Bytes → Bytes
join d [] = []
join d (p ∷ []) = p
join d (p ∷ q ∷ ps) = p ++ (d ∷ join d (q ∷ ps))

-- No delimiter of `v` stands outside its quoted strings, read from state `m`.
abbrev pub IsUncut : ℕ → Quoting → Bytes → Type 0
IsUncut d m [] = Unit
IsUncut d m (byte ∷ rest) = (cuts d m byte ≡ false) × IsUncut d (step_quoting m byte) rest

abbrev pub IsPiece : ℕ → Bytes → Type 0
IsPiece d p = IsBalanced p × IsUncut d outside p

-- A byte that neither opens a quoted string nor is the delimiter.
abbrev pub is_plain : ℕ → ℕ → Bool
is_plain d c = not (c == b'"') && not (c == d)

pub all_plain-IsPiece : (d : ℕ) (x : Bytes) → all (is_plain d) x ≡ true → IsPiece d x
all_plain-IsPiece d [] h = (refl, tt)
all_plain-IsPiece d (c ∷ cs) h =
    let (stays, uncut, rest) = plain_byte c (all (is_plain d) cs) h in
    let ih = all_plain-IsPiece d cs rest in (rw stays ih.0, (uncut, rw stays ih.1))
  where
    plain_byte :
        (b : ℕ) (r : Bool)
        → is_plain d b && r ≡ true
        → (step_quoting outside b ≡ outside) × (cuts d outside b ≡ false) × (r ≡ true)
    plain_byte b r e = ground arith

pub end_quoting-append :
    (m : Quoting) (xs ys : Bytes) → end_quoting m (xs ++ ys) ≡ end_quoting (end_quoting m xs) ys
end_quoting-append m [] ys = refl
end_quoting-append m (x ∷ xs) ys = end_quoting-append (step_quoting m x) xs ys

pub IsUncut-append :
    (d : ℕ) (m : Quoting) (xs ys : Bytes)
    → IsUncut d m xs
    → IsUncut d (end_quoting m xs) ys
    → IsUncut d m (xs ++ ys)
IsUncut-append d m [] ys hx hy = hy
IsUncut-append d m (x ∷ xs) ys hx hy = (hx.0, IsUncut-append d (step_quoting m x) xs ys hx.1 hy)

-- Bytes with no cut in them go to the piece that has begun.
pub pieces-IsUncut :
    (d : ℕ) (m : Quoting) (piece xs ys : Bytes)
    → IsUncut d m xs
    → pieces d piece m (xs ++ ys) ≡ pieces d (piece ++ xs) (end_quoting m xs) ys
unfolding pieces
pieces-IsUncut d m piece [] ys h = rw append-nil
pieces-IsUncut d m piece (x ∷ xs) ys h =
    rw h.0 (pieces-IsUncut d (step_quoting m x) (piece ++ x ∷ []) xs ys h.1 ∙ rw append_assoc)

-- The pieces are never none.
pub pieces-cons :
    (d : ℕ) (piece : Bytes) (m : Quoting) (rest : Bytes)
    → (p : Bytes) × (ps : List Bytes) × (pieces d piece m rest ≡ p ∷ ps)
unfolding pieces
pieces-cons d piece m [] = (piece, [], refl)
pieces-cons d piece m (byte ∷ rest) = elim (Bool-cases (cuts d m byte)) [
  | inl cut ↦ rw cut (piece, pieces d [] m rest, refl)
  | inr on ↦ rw on (pieces-cons d (piece ++ byte ∷ []) (step_quoting m byte) rest)
]

-- Joining the pieces gives back the bytes.
pub join-pieces :
    (d : ℕ) (piece : Bytes) (m : Quoting) (rest : Bytes)
    → join d (pieces d piece m rest) ≡ piece ++ rest
unfolding pieces join
join-pieces d piece m [] = sym (append-nil piece)
join-pieces d piece m (byte ∷ rest) = elim (Bool-cases (cuts d m byte)) [
  | inl cut ↦
      let (p, ps, e) = pieces-cons d [] m rest in
      let ih = join-pieces d [] m rest in
      rw (cut, e) (ap (λ t. piece ++ (d ∷ t)) (rw e at ih) ∙ rw (cut_byte d m byte cut))
  | inr on ↦ rw on (join-pieces d (piece ++ byte ∷ []) (step_quoting m byte) rest ∙ rw append_assoc)
]
  where
    cut_byte : (e : ℕ) (n : Quoting) (b : ℕ) → cuts e n b ≡ true → b ≡ e
    cut_byte e n b h = ground arith

module _ (d : ℕ) where
  -- Where `piece` brings the automaton from outside to `m` uncut, and the whole is balanced,
  -- each piece is balanced and uncut.
  pub pieces-IsPiece :
      (piece : Bytes) (m : Quoting) (rest : Bytes)
      → end_quoting outside piece ≡ m
      → IsUncut d outside piece
      → end_quoting m rest ≡ outside
      → All (IsPiece d) (pieces d piece m rest)
  unfolding pieces
  pieces-IsPiece piece m [] e u b = ((e ∙ b, u), tt)
  pieces-IsPiece piece m (byte ∷ rest) e u b = elim (Bool-cases (cuts d m byte)) [
    | inl cut ↦
        let out = cut_outside m byte cut in
        rw cut ((e ∙ out.0, u), pieces-IsPiece [] m rest (sym out.0) tt (rw out.1 at b))
    | inr on ↦ rw on (
        pieces-IsPiece (piece ++ byte ∷ []) (step_quoting m byte) rest
          (end_quoting-append outside piece (byte ∷ []) ∙ rw e)
          (IsUncut-append d outside piece (byte ∷ []) u (rw e (on, tt))) b)
  ]
    where
      cut_outside :
          (n : Quoting) (c : ℕ) → cuts d n c ≡ true → (n ≡ outside) × (step_quoting n c ≡ n)
      cut_outside n c h = ground arith
