-- ===== src/Ptx/Input.antt =====
-- The parts of the standard library's text streams that compiler.h uses.
use fan_master_thesis.Base.{
  ℕ, ◌≡◌, ◌≢◌, refl, Bool, true, false, ◌&&◌, List, [], ◌∷◌, ◌++◌, ◌==◌, if◌then◌else◌, arith, All,
}

-- std::string's operator==
unfoldable pub text_eq : List ℕ → List ℕ → Bool
text_eq [] [] = true
text_eq (a ∷ s) (b ∷ t) = (a == b) && text_eq s t
text_eq _ _ = false

pub text_eq_refl : (s : List ℕ) → text_eq s s ≡ true
unfolding text_eq
text_eq_refl [] = refl
text_eq_refl (a ∷ s) = ground (arith, text_eq_refl s)

pub text_eq_sound : (s t : List ℕ) → text_eq s t ≡ true → s ≡ t
unfolding text_eq
text_eq_sound [] [] h = refl
text_eq_sound [] (b ∷ t) h = cc
text_eq_sound (a ∷ s) [] h = cc
text_eq_sound (a ∷ s) (b ∷ t) h = ground (arith, text_eq_sound s t)

-- An input stream: what has not been read, and whether the end has been met.
pub record Stream : Type 0 where
  pub unread : List ℕ
  pub eof : Bool

abbrev pub newline : ℕ
newline = 10

-- A line up to its newline, what follows it, and whether the input ended first.
unfoldable pub cut_line : List ℕ → List ℕ × List ℕ × Bool
cut_line [] = ([], [], true)
cut_line (c ∷ cs) =
    let (line, rest, ended) = cut_line cs in
    if c == newline then ([], cs, false) else (c ∷ line, rest, ended)

-- std::getline: the line, the stream, and whether the stream is still good. Once the end has been
-- met the line is left as it was.
unfoldable pub getline : List ℕ → Stream → List ℕ × Stream × Bool
unfolding cut_line
getline old s =
    if s.eof
    then (old, s, false)
    else let (line, rest, ended) = cut_line s.unread in
      (line, record { unread = rest; eof = ended }, elim s.unread [ [] ↦ false | c ∷ cs ↦ true ])

-- A line with its newline in front of the rest of a stream.
abbrev pub line_then : List ℕ → List ℕ → List ℕ
line_then line rest = line ++ (newline ∷ rest)

abbrev pub IsLine : List ℕ → Type 0
IsLine line = All (λ c. c ≢ newline) line

cut_line-line :
    (line rest : List ℕ) → IsLine line → cut_line (line_then line rest) ≡ (line, rest, false)
unfolding cut_line
cut_line-line [] rest h = refl
cut_line-line (c ∷ line) rest h = ground (arith, cut_line-line line rest h.1)

-- A line that stands in the stream is the one that is read.
pub getline-line :
    (old line rest : List ℕ)
    → IsLine line
    → getline old (record { unread = line_then line rest; eof = false })
      ≡ (line, record { unread = rest; eof = false }, true)
unfolding getline
getline-line old [] rest h = refl
getline-line old (c ∷ line) rest h = rw (cut_line-line (c ∷ line) rest h)
