-- ===== src/Ptx/Source.antt =====
-- `initialize` on a PTX file as the CUDA compiler prints it: which types it collects for which kernel.
use fan_master_thesis.Base.{ℕ, ◌≡◌, false, none, List, [], ◌∷◌, ◌++◌, ◌==◌, All, if◌then◌else◌}
use fan_master_thesis.Ptx.Input.{text_eq, IsLine}
use fan_master_thesis.Ptx.Pattern.{
  dot_entry, dot_param, is_word, is_space, search_param, contains_entry,
}
use fan_master_thesis.Ptx.Match.{Every, Stops}
use fan_master_thesis.Ptx.Convert.{IsOpen}
use fan_master_thesis.Ptx.File.{Part, other, kernel}

-- A line of a kernel's parameters: one with `.param`, white space, and a dot with a type, between
-- other text, or one that declares nothing.
pub data Body : Type 0 where
  declares : List ℕ → ℕ → List ℕ → ℕ → List ℕ → List ℕ → Body
  silent : List ℕ → Body

unfoldable pub body_text : Body → List ℕ
body_text (declares front s spaces t type behind) =
    front ++ (dot_param ++ ((s ∷ spaces) ++ (b'.' ∷ ((t ∷ type) ++ behind))))
body_text (silent l) = l

unfoldable pub body_texts : List Body → List (List ℕ)
unfolding body_text
body_texts [] = []
body_texts (b ∷ bs) = body_text b ∷ body_texts bs

abbrev pub NoDot : List ℕ → Type 0
NoDot = All (λ c. (c == b'.') ≡ false)

unfoldable pub IsBody : Body → Type 0
IsBody (declares front s spaces t type behind) =
    NoDot front × Every is_space (s ∷ spaces) × Every is_word (t ∷ type) × Stops is_word behind
IsBody (silent l) = search_param l ≡ none

-- A part of the file: a line without `.entry`, or a kernel, which is an entry line with its name
-- between other text, and the lines up to `)`.
pub data Section : Type 0 where
  line : List ℕ → Section
  entry : List ℕ → ℕ → List ℕ → List ℕ → List Body → Section

abbrev pub entry_text : List ℕ → ℕ → List ℕ → List ℕ → List ℕ
entry_text front n name behind = front ++ (dot_entry ++ (32 ∷ ((n ∷ name) ++ (b'(' ∷ behind))))

abbrev pub part : Section → Part
part (line l) = other l
part (entry front n name behind bs) = kernel (entry_text front n name behind) (body_texts bs)

abbrev pub parts : List Section → List Part
parts [] = []
parts (s ∷ ss) = part s ∷ parts ss

unfoldable pub IsSection : Section → Type 0
IsSection (line l) = IsLine l × (contains_entry l ≡ false)
IsSection (entry front n name behind bs) =
    NoDot front
    × Every is_word (n ∷ name)
    × IsLine (entry_text front n name behind)
    × All IsLine (body_texts bs)
    × All IsOpen (body_texts bs)
    × All IsBody bs

-- The specification: the types that the file declares for a name, in order.
unfoldable pub types : List Body → List (List ℕ)
types [] = []
types (declares front s spaces t type behind ∷ bs) = (b'.' ∷ t ∷ type) ∷ types bs
types (silent l ∷ bs) = types bs

unfoldable pub declared : List ℕ → List Section → List (List ℕ)
unfolding types
declared key [] = []
declared key (line l ∷ ss) = declared key ss
declared key (entry front n name behind bs ∷ ss) =
    (if text_eq (n ∷ name) key then types bs else []) ++ declared key ss
