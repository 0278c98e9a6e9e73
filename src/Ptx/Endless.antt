-- ===== src/Ptx/Endless.antt =====
-- A PTX file that is cut off inside the parameters of a kernel.
use fan_master_thesis.Base.{
  Bool-cases, inl, inr, ℕ, zero, suc, ◌≡◌, refl, none, List, [], ◌∷◌, ◌==◌, if◌then◌else◌, arith,
  All,
}
use fan_master_thesis.Ptx.Input.{text_eq, Stream, cut_line, getline, newline}
use fan_master_thesis.Ptx.{Protos, note_param, convert_loop, convert}
use fan_master_thesis.Ptx.Convert.{IsOpen}

abbrev cons_first : ℕ → List (List ℕ) → List (List ℕ)
cons_first c [] = (c ∷ []) ∷ []
cons_first c (l ∷ ls) = (c ∷ l) ∷ ls

-- The lines of a text.
unfoldable pub lines : List ℕ → List (List ℕ)
lines [] = []
lines (c ∷ cs) = let ls = lines cs in if c == newline then [] ∷ ls else cons_first c ls

lines-cut_line :
    (c : ℕ) (cs : List ℕ) → lines (c ∷ cs) ≡ (cut_line (c ∷ cs)).0 ∷ lines (cut_line (c ∷ cs)).1
unfolding lines cut_line
lines-cut_line c [] = ground arith
lines-cut_line c (d ∷ ds) = ground (arith, lines-cut_line d ds)

-- No line that is still to be read is `)`.
abbrev NeverCloses : Stream → Type 0
NeverCloses s = All IsOpen (lines s.unread)

getline-NeverCloses :
    (old : List ℕ) (s : Stream)
    → IsOpen old
    → NeverCloses s
    → IsOpen (getline old s).0 × NeverCloses (getline old s).1
unfolding getline text_eq
getline-NeverCloses old s o h = elim (Bool-cases s.eof) [
  | inl ended ↦ rw ended (o, h)
  | inr more ↦ rw more (go s.unread h)
]
  where
    go :
        (bs : List ℕ)
        → All IsOpen (lines bs)
        → IsOpen (cut_line bs).0 × All IsOpen (lines (cut_line bs).1)
    go [] h = unfold cut_line lines in (refl, tt)
    go (c ∷ cs) h = rw (lines-cut_line c cs) at h

convert_loop-endless :
    (fuel : ℕ) (kernel line : List ℕ) (s : Stream) (m : Protos)
    → IsOpen line
    → NeverCloses s
    → convert_loop fuel kernel line s m ≡ none
unfolding convert_loop
convert_loop-endless zero kernel line s m o h = refl
convert_loop-endless (suc fuel) kernel line s m o h =
    let (line', s', _) = getline line s in
    let (o', h') = getline-NeverCloses line s o h in
    rw o (convert_loop-endless fuel kernel line' s' (note_param kernel line' m) o' h')

-- If no line that is left is `)`, `convert` never ends: it is still running after any number of
-- rounds, whether or not the end of the file has been met.
pub convert-endless :
    (fuel : ℕ) (entry : List ℕ) (s : Stream) (m : Protos)
    → All IsOpen (lines s.unread)
    → convert fuel entry s m ≡ none
unfolding convert text_eq
convert-endless fuel entry s m h = convert_loop-endless fuel _ [] s m refl h
