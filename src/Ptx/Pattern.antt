-- ===== src/Ptx/Pattern.antt =====
-- The three searches of compiler.h: `\.entry (\w+)\(`, `\.param\s+(\.\w+)` and find(".entry").
use fan_master_thesis.Base.{
  ℕ, Bool, true, false, ◌&&◌, ◌||◌, Option, none, some, List, [], ◌∷◌, ◌++◌, ◌==◌, leb,
  if◌then◌else◌, ◌>>=◌,
}

-- \w
unfoldable pub is_word : ℕ → Bool
is_word c =
    leb b'a' c && leb c b'z' || leb b'A' c && leb c b'Z' || leb b'0' c && leb c b'9' || c == b'_'

-- \s
unfoldable pub is_space : ℕ → Bool
is_space c = c == 32 || leb 9 c && leb c 13

-- A greedy run of characters of a class, and what follows it.
unfoldable pub span : (ℕ → Bool) → List ℕ → List ℕ × List ℕ
span p [] = ([], [])
span p (c ∷ cs) = let (run, rest) = span p cs in if p c then (c ∷ run, rest) else ([], c ∷ cs)

-- The text behind a literal.
unfoldable pub after : List ℕ → List ℕ → Option (List ℕ)
after [] s = some s
after (l ∷ ls) [] = none
after (l ∷ ls) (c ∷ cs) = if l == c then after ls cs else none

-- .entry
abbrev pub dot_entry : List ℕ
dot_entry = b'.' ∷ b'e' ∷ b'n' ∷ b't' ∷ b'r' ∷ b'y' ∷ []

-- .param
abbrev pub dot_param : List ℕ
dot_param = b'.' ∷ b'p' ∷ b'a' ∷ b'r' ∷ b'a' ∷ b'm' ∷ []

-- The name that was spanned, if `(` follows it.
unfoldable pub entry_name : List ℕ × List ℕ → Option (List ℕ)
entry_name (c ∷ cs, d ∷ ds) = if d == b'(' then some (c ∷ cs) else none
entry_name _ = none

-- A match of `\.entry (\w+)\(` at the start: no other split of the run can match, since `(` is no
-- word character.
unfoldable pub entry_here : List ℕ → Option (List ℕ)
entry_here s = after (dot_entry ++ (32 ∷ [])) s >>= λ rest. entry_name (span is_word rest)

-- The type whose name was spanned.
unfoldable pub type_name : List ℕ × List ℕ → Option (List ℕ)
type_name (t ∷ ts, _) = some (b'.' ∷ t ∷ ts)
type_name _ = none

-- What follows the white space that was spanned: a dot and a name.
unfoldable pub param_type : List ℕ × List ℕ → Option (List ℕ)
param_type (c ∷ cs, d ∷ ds) = if d == b'.' then type_name (span is_word ds) else none
param_type _ = none

-- A match of `\.param\s+(\.\w+)` at the start.
unfoldable pub param_here : List ℕ → Option (List ℕ)
param_here s = after dot_param s >>= λ rest. param_type (span is_space rest)

-- std::regex_search: the leftmost position with a match, and its first group.
unfoldable pub search : (List ℕ → Option (List ℕ)) → List ℕ → Option (List ℕ)
search here [] = here []
search here (c ∷ cs) =
    let later = search here cs in elim (here (c ∷ cs)) [ none ↦ later | some g ↦ some g ]

unfoldable pub search_entry : List ℕ → Option (List ℕ)
unfolding search entry_here
search_entry = search entry_here

unfoldable pub search_param : List ℕ → Option (List ℕ)
unfolding search param_here
search_param = search param_here

-- line.find(".entry") != npos
unfoldable pub contains_entry : List ℕ → Bool
unfolding search
contains_entry line = elim (search (after dot_entry) line) [ none ↦ false | some g ↦ true ]
