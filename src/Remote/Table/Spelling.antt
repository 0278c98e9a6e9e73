-- ===== src/Remote/Table/Spelling.antt =====
-- The branch that the host chooses for a symbol, whatever SYMBOL_TO_STR makes of the symbols, as long
-- as it tells them apart.
use Prim.Native.String.{String}
use package.text.Mathlib.Text.{◌==◌}
use fan_master_thesis.Base.{
  ℕ, ◌≡◌, inl, inr, refl, sym, ap, ◌∙◌, Bool, Bool-cases, Option-cases, true, false, Option, none,
  some, List, [], ◌∷◌, if◌then◌else◌,
}
use fan_master_thesis.Ptx.Input.{text_eq}
use fan_master_thesis.Gpu.Params.{Param}
use fan_master_thesis.Gpu.Signatures.{func_map}
use fan_master_thesis.Gpu.Chain.{Branch, plain_call, chain, choose, mapped, branch_of}

-- The branch for a symbol, found by the symbols as they stand in the source.
unfoldable pub branch_at : String → List (String × Branch) → Option Branch
branch_at s [] = none
branch_at s ((t, b) ∷ rest) = if s == t then some b else branch_at s rest

unfoldable pub params_at : String → List (String × List Param) → Option (List Param)
params_at s [] = none
params_at s ((t, ps) ∷ rest) = if s == t then some ps else params_at s rest

unfoldable pub first_answer : Option Branch → Option (List Param) → Option Branch
first_answer (some b) found = some b
first_answer none (some ps) = some (plain_call ps)
first_answer none none = none

unfoldable pub branch_for : String → Option Branch
branch_for s = first_answer (branch_at s chain) (params_at s func_map)

unfoldable pub same : Bool → Bool → Bool
same true b = b
same false true = false
same false false = true

same-eq : (a b : Bool) → same a b ≡ true → a ≡ b
unfolding same
same-eq true b h = sym h
same-eq false true h = cc
same-eq false false h = refl

-- The spelling tells a symbol from the others of a table.
unfoldable pub told : {A : Type 0} → (String → List ℕ) → String → List (String × A) → Bool
told spell s [] = true
told spell s ((t, a) ∷ rest) =
    if same (text_eq (spell s) (spell t)) (s == t) then told spell s rest else false

told-head :
    {A : Type 0} (spell : String → List ℕ) (s t : String) (a : A) (rest : List (String × A))
    → told spell s ((t, a) ∷ rest) ≡ true
    → (text_eq (spell s) (spell t) ≡ (s == t)) × (told spell s rest ≡ true)
unfolding told
told-head spell s t a rest h = elim (Bool-cases (same (text_eq (spell s) (spell t)) (s == t))) [
  | inl e ↦ (same-eq _ _ e, rw e at h)
  | inr e ↦ let h' : false ≡ true = rw e at h in absurd (cc)
]

module _ (spell : String → List ℕ) (s : String) where
  choose-branch_at :
      (rows : List (String × Branch))
      → told spell s rows ≡ true
      → choose spell (spell s) rows ≡ branch_at s rows
  unfolding choose branch_at
  choose-branch_at [] h = refl
  choose-branch_at ((t, b) ∷ rest) h =
      let (e, h') = told-head spell s t b rest h in rw (e, choose-branch_at rest h') refl

  mapped-params_at :
      (rows : List (String × List Param))
      → told spell s rows ≡ true
      → mapped spell (spell s) rows ≡ params_at s rows
  unfolding mapped params_at
  mapped-params_at [] h = refl
  mapped-params_at ((t, ps) ∷ rest) h =
      let (e, h') = told-head spell s t ps rest h in rw (e, mapped-params_at rest h') refl

  -- SYMBOL_TO_STR tells this symbol from all others that the host knows.
  abbrev pub IsTold : Type 0
  IsTold = (told spell s chain ≡ true) × (told spell s func_map ≡ true)

  branch_of-first_answer :
      branch_of spell (spell s)
      ≡ first_answer (choose spell (spell s) chain) (mapped spell (spell s) func_map)
  unfolding branch_of first_answer
  branch_of-first_answer = elim (Option-cases (choose spell (spell s) chain)) [
    | inr (b, e) ↦ rw (branch_of, e) refl
    | inl e ↦ elim (Option-cases (mapped spell (spell s) func_map)) [
      | inr (ps, e') ↦ rw (branch_of, e, e') refl
      | inl e' ↦ rw (branch_of, e, e') refl
    ]
  ]

  pub branch_of-branch_for : IsTold → branch_of spell (spell s) ≡ branch_for s
  unfolding branch_for
  branch_of-branch_for h =
      branch_of-first_answer
      ∙ ap (λ o. first_answer o (mapped spell (spell s) func_map)) (choose-branch_at chain h.0)
      ∙ ap (first_answer (branch_at s chain)) (mapped-params_at func_map h.1)
