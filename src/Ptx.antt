-- ===== src/Ptx.antt =====
-- class CUFuncProto of interception/compiler.h: the parameter types of the kernels of a PTX file.
-- Text is a list of bytes.
pub mod Input
pub mod Pattern
pub mod Match
pub mod Convert
pub mod Endless
pub mod File
pub mod Types
pub mod Source
pub mod Reload
use fan_master_thesis.Base.{
  ℕ, zero, suc, ◌+◌, ◌≡◌, Bool, true, false, Option, none, some, List, [], ◌∷◌, ◌++◌, if◌then◌else◌,
  ◌>>=◌,
}
use fan_master_thesis.Ptx.Input.{Stream, getline, text_eq}
use fan_master_thesis.Ptx.Pattern.{search_entry, search_param, contains_entry}

-- `unordered_map<string, vector<string>>`, a kernel's name and its parameter types.
abbrev pub Protos : Type 0
Protos = List (List ℕ × List (List ℕ))

unfoldable pub find : List ℕ → Protos → Option (List (List ℕ))
find key [] = none
find key ((name, types) ∷ m) = if text_eq name key then some types else find key m

-- hashmap[key].push_back(type)
unfoldable pub push_back : List ℕ → List ℕ → Protos → Protos
push_back key type [] = (key, type ∷ []) ∷ []
push_back key type ((name, types) ∷ m) =
    if text_eq name key
    then (name, types ++ (type ∷ [])) ∷ m
    else (name, types) ∷ push_back key type m

-- get_params: a name that is not there is printed, and then put in with no types.
unfoldable pub get_params : List ℕ → Protos → List (List ℕ) × Protos
unfolding find
get_params name m = elim (find name m) [
  | some types ↦ (types, m)
  | none ↦ ([], m ++ ((name, []) ∷ []))
]

-- The body of the loop of `convert`: a line that declares a parameter adds its type.
unfoldable pub note_param : List ℕ → List ℕ → Protos → Protos
unfolding push_back
note_param kernel line m = elim (search_param line) [
  | none ↦ m
  | some type ↦ push_back kernel type m
]

-- `while(line != ")")`; the result of `getline` is not looked at. `none`: still running when the
-- fuel is used up.
unfoldable pub convert_loop : ℕ → List ℕ → List ℕ → Stream → Protos → Option (Stream × Protos)
unfolding note_param
convert_loop zero kernel line s m = none
convert_loop (suc fuel) kernel line s m =
    let (line', s', _) = getline line s in
    let rest = convert_loop fuel kernel line' s' (note_param kernel line' m) in
    if text_eq line (b')' ∷ []) then some (s, m) else rest

-- void convert(std::ifstream&, const std::string& entry); a failed match leaves the name empty.
unfoldable pub convert : ℕ → List ℕ → Stream → Protos → Option (Stream × Protos)
unfolding convert_loop
convert fuel entry s m =
    let kernel : List ℕ = elim (search_entry entry) [ none ↦ [] | some name ↦ name ] in
    convert_loop fuel kernel [] s m

-- void initialize(std::ifstream&), `while(std::getline(ptx_file, line))`; the constructor and
-- add_module call it.
unfoldable pub initialize : ℕ → List ℕ → Stream → Protos → Option (Stream × Protos)
unfolding convert
initialize zero line s m = none
initialize (suc fuel) line s m =
    let (line', s', read) = getline line s in
    let on_entry = convert fuel line' s' m >>= λ (s₂, m₂). initialize fuel line' s₂ m₂ in
    let skip = initialize fuel line' s' m in
    if read then (if contains_entry line' then on_entry else skip) else some (s', m)
