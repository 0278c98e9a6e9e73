-- ===== src/Ptx/Convert.antt =====
-- What `convert` and `initialize` read out of a PTX file, and when they end.
use fan_master_thesis.Base.{
  ℕ, zero, suc, ◌+◌, ◌≤◌, ◌≡◌, refl, false, none, some, List, [], ◌∷◌, arith, length, All,
}
use fan_master_thesis.Ptx.Input.{Stream, text_eq, text_eq_refl, IsLine, line_then, getline-line}
use fan_master_thesis.Ptx.Pattern.{search_entry, search_param, after}
use fan_master_thesis.Ptx.{Protos, note_param, convert_loop, convert}

-- `)` on a line of its own, which ends the parameters of a kernel.
abbrev pub closing : List ℕ
closing = b')' ∷ []

abbrev pub IsOpen : List ℕ → Type 0
IsOpen line = text_eq line closing ≡ false

-- The types that the lines declare, in order.
unfoldable pub note_all : List ℕ → List (List ℕ) → Protos → Protos
note_all kernel [] m = m
note_all kernel (l ∷ ls) m = note_all kernel ls (note_param kernel l m)

-- The lines in front of the rest of a stream.
unfoldable pub lines_then : List (List ℕ) → List ℕ → List ℕ
lines_then [] rest = rest
lines_then (l ∷ ls) rest = line_then l (lines_then ls rest)

abbrev pub unread_is : List ℕ → Stream
unread_is bytes = record { unread = bytes; eof = false }

closing-IsLine : IsLine closing
closing-IsLine = omega arith

closing-notes : (kernel : List ℕ) (m : Protos) → note_param kernel closing m ≡ m
unfolding note_param search_param after
closing-notes kernel m = refl

convert_loop-lines :
    (fuel : ℕ) (kernel line : List ℕ) (ls : List (List ℕ)) (rest : List ℕ) (m : Protos)
    → IsOpen line
    → All IsLine ls
    → All IsOpen ls
    → length ls + 2 ≤ fuel
    → convert_loop fuel kernel line (unread_is (lines_then ls (line_then closing rest))) m
      ≡ some (unread_is rest, note_all kernel ls m)
unfolding convert_loop lines_then note_all
convert_loop-lines zero kernel line ls rest m o h k f = absurd (omega arith)
convert_loop-lines (suc zero) kernel line ls rest m o h k f = absurd (omega arith)
convert_loop-lines (suc (suc fuel)) kernel line [] rest m o h k f =
    rw (
      o,
      getline-line line closing rest closing-IsLine,
      text_eq_refl closing,
      closing-notes kernel m,
    )
convert_loop-lines (suc (suc fuel)) kernel line (l ∷ ls) rest m o h k f =
    rw (o, getline-line line l (lines_then ls (line_then closing rest)) h.0)
      (convert_loop-lines (suc fuel) kernel l ls rest (note_param kernel l m) k.0 h.1 k.1
        (omega arith))

-- From a stream in which a line `)` is still to come, `convert` ends, given a round for each line:
-- it has appended the types that the lines before `)` declare, in order, to the kernel that the
-- entry line names (to the empty name if it names none), and has read up to and with `)`.
pub convert-lines :
    (fuel : ℕ) (entry : List ℕ) (ls : List (List ℕ)) (rest : List ℕ) (m : Protos)
    → All IsLine ls
    → All IsOpen ls
    → length ls + 2 ≤ fuel
    → convert fuel entry (unread_is (lines_then ls (line_then closing rest))) m
      ≡ some (
        unread_is rest,
        note_all (elim (search_entry entry) [ none ↦ [] | some name ↦ name ]) ls m,
      )
unfolding convert text_eq
convert-lines fuel entry ls rest m h k f = convert_loop-lines fuel _ [] ls rest m refl h k f
