-- ===== src/Ptx/Match.antt =====
-- The regular expressions of compiler.h on the lines that the CUDA compiler prints.
use fan_master_thesis.Base.{
  ℕ, ◌≡◌, refl, Bool, true, false, Option, none, some, List, [], ◌∷◌, ◌++◌, ◌==◌, arith, All,
}
use fan_master_thesis.Ptx.Pattern.{
  is_word, is_space, span, after, dot_entry, dot_param, entry_here, param_here, entry_name,
  param_type, type_name, search, search_entry, search_param,
}

-- Every character is of the class.
abbrev pub Every : (ℕ → Bool) → List ℕ → Type 0
Every p = All (λ c. p c ≡ true)

-- The text does not begin with a character of the class.
abbrev pub Stops : (ℕ → Bool) → List ℕ → Type 0
Stops p [] = Unit
Stops p (c ∷ cs) = p c ≡ false

span-run :
    (p : ℕ → Bool) (run rest : List ℕ)
    → Every p run
    → Stops p rest
    → span p (run ++ rest) ≡ (run, rest)
unfolding span
span-run p [] [] h k = refl
span-run p [] (c ∷ cs) h k = rw k
span-run p (c ∷ run) rest h k = rw (span-run p run rest h.1 k, h.0)

pub after-append : (ls s : List ℕ) → after ls (ls ++ s) ≡ some s
unfolding after
after-append [] s = refl
after-append (l ∷ ls) s = ground (arith, after-append ls s)

-- Characters in front that cannot begin a match are skipped.
pub search-skip :
    (here : List ℕ → Option (List ℕ))
    → ((c : ℕ) (cs : List ℕ) → (c == b'.') ≡ false → here (c ∷ cs) ≡ none)
    → (front s g : List ℕ) → All (λ c. (c == b'.') ≡ false) front
    → here s ≡ some g
    → search here (front ++ s) ≡ some g
unfolding search
search-skip here starts [] [] g h e = e
search-skip here starts [] (c ∷ cs) g h e = rw e
search-skip here starts (c ∷ front) s g h e =
    rw (starts c (front ++ s) h.0) (search-skip here starts front s g h.1 e)

param_here-none : (c : ℕ) (cs : List ℕ) → (c == b'.') ≡ false → param_here (c ∷ cs) ≡ none
unfolding param_here after
param_here-none c cs h = ground arith

entry_here-none : (c : ℕ) (cs : List ℕ) → (c == b'.') ≡ false → entry_here (c ∷ cs) ≡ none
unfolding entry_here after
entry_here-none c cs h = ground arith

param_match :
    (s : ℕ) (spaces : List ℕ) (t : ℕ) (type behind : List ℕ)
    → Every is_space (s ∷ spaces)
    → Every is_word (t ∷ type)
    → Stops is_word behind
    → param_here (dot_param ++ ((s ∷ spaces) ++ (b'.' ∷ ((t ∷ type) ++ behind))))
      ≡ some (b'.' ∷ t ∷ type)
unfolding param_here param_type type_name
param_match s spaces t type behind hs ht hb =
    let word : List ℕ = t ∷ type in
    let rest : List ℕ = b'.' ∷ (word ++ behind) in
    let dot_stops : Stops is_space rest = unfold is_space in refl in
    rw (
      after-append dot_param ((s ∷ spaces) ++ rest),
      span-run is_space (s ∷ spaces) rest hs dot_stops,
      span-run is_word word behind ht hb,
    )

entry_match :
    (n : ℕ) (name behind : List ℕ)
    → Every is_word (n ∷ name)
    → entry_here (dot_entry ++ (32 ∷ ((n ∷ name) ++ (b'(' ∷ behind)))) ≡ some (n ∷ name)
unfolding entry_here entry_name
entry_match n name behind hn =
    let stops : Stops is_word (b'(' ∷ behind) = unfold is_word in refl in
    rw (
      after-append (dot_entry ++ (32 ∷ [])) ((n ∷ name) ++ (b'(' ∷ behind)),
      span-run is_word (n ∷ name) (b'(' ∷ behind) hn stops,
    )

-- On a line with `.param`, white space and `.` with a type's name, and no dot before them,
-- the pattern for parameters finds exactly the type, dot included.
pub search_param-line :
    (front : List ℕ) (s : ℕ) (spaces : List ℕ) (t : ℕ) (type behind : List ℕ)
    → All (λ c. (c == b'.') ≡ false) front
    → Every is_space (s ∷ spaces)
    → Every is_word (t ∷ type)
    → Stops is_word behind
    → search_param (front ++ (dot_param ++ ((s ∷ spaces) ++ (b'.' ∷ ((t ∷ type) ++ behind)))))
      ≡ some (b'.' ∷ t ∷ type)
unfolding search_param
search_param-line front s spaces t type behind hf hs ht hb =
    search-skip param_here param_here-none front _ _ hf
      (param_match s spaces t type behind hs ht hb)

-- On a line with `.entry `, a name and `(`, and no dot before them, the pattern for kernels finds
-- exactly the name.
pub search_entry-line :
    (front : List ℕ) (n : ℕ) (name behind : List ℕ)
    → All (λ c. (c == b'.') ≡ false) front
    → Every is_word (n ∷ name)
    → search_entry (front ++ (dot_entry ++ (32 ∷ ((n ∷ name) ++ (b'(' ∷ behind)))))
      ≡ some (n ∷ name)
unfolding search_entry
search_entry-line front n name behind hf hn =
    search-skip entry_here entry_here-none front _ _ hf (entry_match n name behind hn)
