-- ===== src/Ptx/File.antt =====
-- `initialize` on a whole PTX file.
use fan_master_thesis.Base.{
  ℕ, zero, suc, ◌+◌, ◌≤◌, ◌≡◌, refl, true, false, none, some, List, [], ◌∷◌, arith, length, All,
}
use fan_master_thesis.Ptx.Input.{getline, cut_line, IsLine, line_then, getline-line}
use fan_master_thesis.Ptx.Pattern.{search_entry, contains_entry}
use fan_master_thesis.Ptx.{Protos, initialize}
use fan_master_thesis.Ptx.Convert.{IsOpen, closing, note_all, lines_then, unread_is, convert-lines}

-- A file as `initialize` takes it apart: lines without `.entry`, and kernels, each an entry line and
-- the lines up to `)`.
pub data Part : Type 0 where
  other : List ℕ → Part
  kernel : List ℕ → List (List ℕ) → Part

unfoldable pub render : List Part → List ℕ
render [] = []
render (other l ∷ ps) = line_then l (render ps)
render (kernel entry ls ∷ ps) = line_then entry (lines_then ls (line_then closing (render ps)))

abbrev pub IsPart : Part → Type 0
IsPart (other l) = IsLine l × (contains_entry l ≡ false)
IsPart (kernel entry ls) =
    IsLine entry × (contains_entry entry ≡ true) × All IsLine ls × All IsOpen ls

-- The name that an entry line gives, which is empty if the pattern does not match.
abbrev pub name_of : List ℕ → List ℕ
name_of entry = elim (search_entry entry) [ none ↦ [] | some name ↦ name ]

-- The prototypes of the kernels, added in the order of the file.
unfoldable pub prototypes : List Part → Protos → Protos
prototypes [] m = m
prototypes (other l ∷ ps) m = prototypes ps m
prototypes (kernel entry ls ∷ ps) m = prototypes ps (note_all (name_of entry) ls m)

-- Rounds that are enough for a file.
abbrev pub rounds : List Part → ℕ
rounds [] = 1
rounds (other l ∷ ps) = suc (rounds ps)
rounds (kernel entry ls ∷ ps) = suc (length ls + 2 + rounds ps)

-- `initialize` with a round for each line.
pub initialize-parts :
    (fuel : ℕ) (line : List ℕ) (ps : List Part) (m : Protos)
    → All IsPart ps
    → rounds ps ≤ fuel
    → initialize fuel line (unread_is (render ps)) m
      ≡ some (record { unread = []; eof = true }, prototypes ps m)
unfolding initialize render prototypes
initialize-parts zero line [] m h f = absurd (omega arith)
initialize-parts (suc fuel) line [] m h f = unfold getline cut_line in refl
initialize-parts zero line (p ∷ ps) m h f = absurd (go p f)
  where
    go : (p : Part) → rounds (p ∷ ps) ≤ 0 → ⊥
    go (other l) f = omega arith
    go (kernel e ls) f = omega arith
initialize-parts (suc fuel) line (other l ∷ ps) m h f =
    rw (getline-line line l (render ps) h.0.0, h.0.1)
      (initialize-parts fuel l ps m h.1 (omega arith))
initialize-parts (suc fuel) line (kernel entry ls ∷ ps) m h f =
    let (is_line, has_entry, are_lines, are_open) = h.0 in
    let body : List ℕ = lines_then ls (line_then closing (render ps)) in
    rw
      (
        getline-line line entry body is_line,
        has_entry,
        convert-lines fuel entry ls (render ps) m are_lines are_open (omega arith),
      )
      (initialize-parts fuel entry ps (note_all (name_of entry) ls m) h.1 (omega arith))
