-- ===== src/Runtime.antt =====
-- interception/interception_runtime.c: a library that stands in for the CUDA runtime and passes each
-- call on to the next library's function of the same name.
pub mod RowsOne
pub mod RowsTwo
pub mod RowsThree
pub mod RowsFour
pub mod Faithful
pub mod Transparent
use text.Mathlib.Text.{◌==◌}
use Prim.Native.String.{String}
use fan_master_thesis.Base.{ℕ, Option, none, some, List, [], ◌∷◌, ◌++◌, if◌then◌else◌, ◌>>=◌}
use fan_master_thesis.Runtime.RowsOne.{runtime_rows_1}
use fan_master_thesis.Runtime.RowsTwo.{runtime_rows_2}
use fan_master_thesis.Runtime.RowsThree.{runtime_rows_3}
use fan_master_thesis.Runtime.RowsFour.{runtime_rows_4}

-- INTERCEPT_RT(func_name, args_decl, args...): the function, the names of its parameters, and the
-- arguments that are passed on, each of which is a name.
abbrev pub Row : Type 0
Row = String × List String × List String

unfoldable pub runtime_rows : List Row
unfolding runtime_rows_1 runtime_rows_2 runtime_rows_3 runtime_rows_4
runtime_rows = runtime_rows_1 ++ (runtime_rows_2 ++ (runtime_rows_3 ++ runtime_rows_4))

-- cudaErrorUnknown
abbrev pub error_unknown : ℕ
error_unknown = 999

-- The static pointers `real_…` that are set, and what the runtime keeps.
pub record Library (S : Type 0) : Type 0 where
  pub real : List (String × ℕ)
  pub state : S

unfoldable pub find_real : String → List (String × ℕ) → Option ℕ
find_real name [] = none
find_real name ((f, a) ∷ rest) = if f == name then some a else find_real name rest

-- The line that defines a function: the macro's parameter is expanded where it is the name of the
-- function that is defined, and `#func_name` is not.
unfoldable pub find_row : (String → String) → String → List Row → Option Row
find_row expand name [] = none
find_row expand name (row ∷ rest) =
    if expand row.0 == name then some row else find_row expand name rest

module _ {A : Type 0} where
  -- The argument that a parameter's name stands for, and those that a list of names stands for.
  unfoldable pub value_of : List String → List A → String → Option A
  value_of (p ∷ ps) (a ∷ args) x = if p == x then some a else value_of ps args x
  value_of _ _ x = none

  unfoldable pub values_of : List String → List A → List String → Option (List A)
  unfolding value_of
  values_of ps args [] = some []
  values_of ps args (x ∷ xs) = do
    a ← value_of ps args x
    rest ← values_of ps args xs
    some (a ∷ rest)

-- `expand` is what the preprocessor makes of an identifier, as `cuda_runtime_api.h` defines some of the
-- names as macros; `next_symbol` is dlsym(RTLD_NEXT, …), and `call` is a call of the function at an address: its
-- result, and what the runtime then keeps.
module _ {A S : Type 0} (expand : String → String) (next_symbol : String → Option ℕ)
    (call : ℕ → List A → S → ℕ × S) where
  -- return real_func_name(args...)
  unfoldable pub pass_on : ℕ → Row → List A → Library S → Option (ℕ × Library S)
  unfolding values_of
  pass_on address (name, params, passed) args l = do
    values ← values_of params args passed
    let (code, s) = call address values l.state
    some (code, record l { state = s })

  -- The function that INTERCEPT_RT defines: a pointer that is not set is looked up first.
  unfoldable pub looked_up : Option ℕ → Row → List A → Library S → Option (ℕ × Library S)
  unfolding pass_on
  looked_up none row args l = some (error_unknown, l)
  looked_up (some address) row args l =
      pass_on address row args (record l { real = (row.0, address) ∷ l.real })

  unfoldable pub known : Option ℕ → Row → List A → Library S → Option (ℕ × Library S)
  unfolding looked_up
  known (some address) row args l = pass_on address row args l
  known none row args l = looked_up (next_symbol row.0) row args l

  unfoldable pub intercepted : Row → List A → Library S → Option (ℕ × Library S)
  unfolding known
  intercepted row args l = known (find_real row.0 l.real) row args l

  -- A program that calls functions of the library, by their linkage names, one after the other.
  unfoldable pub run : List (String × List A) → Library S → Option (List ℕ × Library S)
  unfolding find_row intercepted
  run [] l = some ([], l)
  run ((name, args) ∷ calls) l = do
    row ← find_row expand name runtime_rows
    (code, l₁) ← intercepted row args l
    (codes, l₂) ← run calls l₁
    some (code ∷ codes, l₂)

  -- The specification: the same program with the next library itself, where a function that it does
  -- not have fails.
  unfoldable pub direct : String → List A → S → ℕ × S
  direct name args s = elim (next_symbol name) [
    | none ↦ (error_unknown, s)
    | some address ↦ call address args s
  ]

  unfoldable pub run_direct : List (String × List A) → S → List ℕ × S
  unfolding direct
  run_direct [] s = ([], s)
  run_direct ((name, args) ∷ calls) s =
      let (code, s₁) = direct name args s in
      let (codes, s₂) = run_direct calls s₁ in (code ∷ codes, s₂)
