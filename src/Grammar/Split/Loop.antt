-- ===== src/Grammar/Split/Loop.antt =====
-- Proofs about `split` of src/grammar.rs.
use ws_pmd_rs.Base.{
  ℕ, ◌+◌, ◌-◌, ◌≤◌, ◌≡◌, refl, ap, ◌∙◌, sym, Bool, true, false, List, [], ◌∷◌, ◌++◌, append-nil,
  append_assoc, Bytes, if◌then◌else◌, arith, Bool-cases, inl, inr, length, length-append,
  take-append_length, drop-append_length, get_range, le→leb, some, Outcome, ok, err,
}
use ws_pmd_rs.Error.{NegotiationError, malformed_header}
use ws_pmd_rs.Grammar.Split.{Scan, scan_byte, scan, close, split, initial_scan}
use ws_pmd_rs.Grammar.Split.Pieces.{
  Quoting, outside, inside, after_backslash, step_quoting, end_quoting, is_outside, cuts, pieces,
}

-- The two flags of the loop hold the state of the automaton.
abbrev Flags : Quoting → Bool → Bool → Type 0
Flags outside q e = (q ≡ false) × (e ≡ false)
Flags inside q e = (q ≡ true) × (e ≡ false)
Flags after_backslash q e = (q ≡ true) × (e ≡ true)

pub get_range-middle :
    (before piece after value : Bytes)
    → value ≡ before ++ (piece ++ after)
    → get_range value (length before) (length before + length piece) ≡ some piece
unfolding get_range
get_range-middle before piece after value e =
    let fits : length before + length piece ≤ length value =
      omega
        (arith, ap length e, length-append before (piece ++ after), length-append piece after) in
    let cut : length before + length piece - length before ≡ length piece = omega arith in
    rw (le→leb (length before) (length before + length piece) (omega arith), le→leb _ _ fits)
      (rw (cut, e) (rw drop-append_length (rw take-append_length)))

-- What `split` answers, by the automaton.
abbrev pub cut_at : ℕ → Quoting → List Bytes → Bytes → Bytes → Outcome NegotiationError (List Bytes)
cut_at d m parts piece rest =
    if is_outside (end_quoting m rest)
    then ok (parts ++ pieces d piece m rest)
    else err malformed_header

close_lem :
    (value before piece : Bytes) (m : Quoting) (s : Scan) (d : ℕ)
    → value ≡ before ++ piece
    → s.start ≡ length before
    → Flags m s.quoted s.escaped
    → close value s ≡ cut_at d m s.parts piece []
unfolding close pieces
close_lem value before piece outside s d e st f =
    let range = get_range-middle before piece [] value (e ∙ rw append-nil) in
    let last : length value ≡ length before + length piece =
      ap length e ∙ length-append before piece in
    rw (f.0, f.1, st, last, range)
close_lem value before piece inside s d e st f = rw f.0
close_lem value before piece after_backslash s d e st f = rw f.0

-- One byte of the loop: either a piece ends before it, or it joins the piece.
scan_byte-cut :
    (value before piece rest : Bytes) (m : Quoting) (s : Scan) (d byte : ℕ)
    → value ≡ before ++ (piece ++ byte ∷ rest)
    → s.start ≡ length before
    → Flags m s.quoted s.escaped
    → cuts d m byte ≡ true
    → scan_byte value d (length before + length piece) byte s
      ≡ record s { parts = s.parts ++ piece ∷ []; start = length before + length piece + 1 }
unfolding scan_byte
scan_byte-cut value before piece rest outside s d byte e st f c =
    let range = get_range-middle before piece (byte ∷ rest) value e in rw (st, range) (ground arith)
scan_byte-cut value before piece rest inside s d byte e st f c = cc
scan_byte-cut value before piece rest after_backslash s d byte e st f c = cc

record Continues (m : Quoting) (s t : Scan) : Type 0 where
  parts_same : t.parts ≡ s.parts
  start_same : t.start ≡ s.start
  flags : Flags m t.quoted t.escaped

scan_byte-Continues :
    (value : Bytes) (m : Quoting) (s : Scan) (d index byte : ℕ)
    → Flags m s.quoted s.escaped
    → cuts d m byte ≡ false
    → Continues (step_quoting m byte) s (scan_byte value d index byte s)
unfolding scan_byte
scan_byte-Continues value outside s d index byte f c = ground arith
scan_byte-Continues value inside s d index byte f c = ground arith
scan_byte-Continues value after_backslash s d index byte f c = ground arith

cut_at-cut :
    (d : ℕ) (m : Quoting) (parts : List Bytes) (piece rest : Bytes) (byte : ℕ)
    → cuts d m byte ≡ true
    → cut_at d m (parts ++ piece ∷ []) [] rest ≡ cut_at d m parts piece (byte ∷ rest)
unfolding pieces
cut_at-cut d m parts piece rest byte cut = rw (cut, cut_outside m byte cut, append_assoc)
  where
    cut_outside : (n : Quoting) (c : ℕ) → cuts d n c ≡ true → step_quoting n c ≡ n
    cut_outside n c h = ground arith

cut_at-on :
    (d : ℕ) (m : Quoting) (parts : List Bytes) (piece rest : Bytes) (byte : ℕ)
    → cuts d m byte ≡ false
    → cut_at d (step_quoting m byte) parts (piece ++ byte ∷ []) rest
      ≡ cut_at d m parts piece (byte ∷ rest)
unfolding pieces
cut_at-on d m parts piece rest byte on = rw on

-- The loop and what follows it, from any point of the value.
scan-cut_at :
    (value before piece rest : Bytes) (m : Quoting) (s : Scan) (d index : ℕ)
    → value ≡ before ++ (piece ++ rest)
    → s.start ≡ length before
    → index ≡ length before + length piece
    → Flags m s.quoted s.escaped
    → close value (scan value d index rest s) ≡ cut_at d m s.parts piece rest
unfolding scan
scan-cut_at value before piece [] m s d index e st ix f =
    close_lem value before piece m s d (e ∙ rw append-nil) st f
scan-cut_at value before piece (byte ∷ rest) m s d index e st ix f =
    elim (Bool-cases (cuts d m byte)) [
      | inl cut ↦
          let step = scan_byte-cut value before piece rest m s d byte e st f cut in
          let longer : length (before ++ piece ++ byte ∷ []) ≡ length before + length piece + 1 =
            omega
              (arith, length-append (before ++ piece) (byte ∷ []), length-append before piece) in
          rw (ix, step)
            (scan-cut_at value (before ++ piece ++ byte ∷ []) [] rest m _ d _
                (e ∙ simp append_assoc) (sym longer) (rw longer (omega arith)) f
              ∙ cut_at-cut d m s.parts piece rest byte cut)
      | inr on ↦
          let step = scan_byte-Continues value m s d index byte f on in
          scan-cut_at value before (piece ++ byte ∷ []) rest (step_quoting m byte)
            (scan_byte value d index byte s) d (index + 1) (e ∙ simp append_assoc)
            (step.start_same ∙ st) (omega (arith, length-append piece (byte ∷ []))) step.flags
          ∙ rw step.parts_same (cut_at-on d m s.parts piece rest byte on)
    ]

-- `split` over indices and slices answers what the automaton says: an error where the quoting is
-- left open, and the pieces between the delimiters outside it otherwise.
pub split-cut_at : (value : Bytes) (d : ℕ) → split value d ≡ cut_at d outside [] [] value
unfolding split
split-cut_at value d =
    scan-cut_at value [] [] value outside initial_scan d 0 refl refl refl (refl, refl)
