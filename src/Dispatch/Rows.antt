-- ===== src/Dispatch/Rows.antt =====
-- The rows of interception/interception.cpp as they stand.
use text.Mathlib.Text.{◌==◌}
use text.Mathlib.TextEquality.{eq_iff}
use Prim.Native.String.{String}
use fan_master_thesis.Base.{
  ℕ, ◌≡◌, inl, inr, refl, ap, ◌∙◌, Bool, true, false, Option, none, some, List, [], ◌∷◌,
  if◌then◌else◌, arith,
}
use fan_master_thesis.Dispatch.{
  Row, Address, own, dlsym_rows, proc_rows, hook_rows, try_intercept, proc_address, hook_symbol,
}
use fan_master_thesis.Dispatch.Lookup.{IsRow}

same_rows : dlsym_rows ≡ proc_rows
unfolding dlsym_rows proc_rows
same_rows = refl

unfoldable pub find : String → List Row → Option String
find key [] = none
find key ((text, target) ∷ rows) = if key == text then some target else find key rows

-- Whether a lookup found the text that was expected.
unfoldable pub confirms : Option String → String → Bool → Bool
confirms none t rest = false
confirms (some f) t rest = if f == t then rest else false

pub confirms-true :
    (o : Option String) (t : String) (rest : Bool)
    → confirms o t rest ≡ true
    → (o ≡ some t) × (rest ≡ true)
unfolding confirms
confirms-true none t rest h = cc
confirms-true (some f) t rest h = ground (arith, eq_iff f t)

-- Whether every row is the first of its text in `all`.
found_first : List Row → List Row → Bool
found_first all [] = true
found_first all ((text, target) ∷ rows) = confirms (find text all) target (found_first all rows)

proc_rows_first : found_first proc_rows proc_rows ≡ true
unfolding found_first confirms find proc_rows
proc_rows_first = refl

found_first-find :
    (all rows : List Row) (text target : String)
    → found_first all rows ≡ true
    → IsRow (text, target) rows
    → find text all ≡ some target
unfolding found_first
found_first-find all [] text target h row = absurd row
found_first-find all ((text', target') ∷ rows) text target h (inl e) =
    rw (← ap (λ r. r.0) e, ← ap (λ r. r.1) e)
      (confirms-true (find text' all) target' (found_first all rows) h).0
found_first-find all ((text', target') ∷ rows) text target h (inr row) =
    found_first-find all rows text target
      (confirms-true (find text' all) target' (found_first all rows) h).1 row

pub try_intercept-find :
    (expand : String → String) (rows : List Row) (symbol target : String)
    → find symbol rows ≡ some target
    → try_intercept expand rows symbol ≡ some (expand target)
unfolding try_intercept find
try_intercept-find expand [] symbol target e = cc
try_intercept-find expand ((text', target') ∷ rows) symbol target e =
    ground (arith, try_intercept-find expand rows symbol target)

-- Every TRY_INTERCEPT row is effective: asked for the row's text, `getProcAddressBySymbol` succeeds
-- with the row's function and does not ask the driver. (The text `cuGetProcAddress` is answered by
-- the `if` before the rows.)
pub proc_address-row :
    (expand : String → String) (driver : String → ℕ × Option Address) (text target : String)
    → IsRow (text, target) proc_rows
    → (text == "cuGetProcAddress") ≡ false
    → proc_address expand driver text ≡ (0, some (own (expand target)))
unfolding proc_address
proc_address-row expand driver text target row other = rw (
  other,
  try_intercept-find expand proc_rows text target
      (found_first-find proc_rows proc_rows text target proc_rows_first row),
)

-- Every function of a row is a hook that passes the call on to the row's text, or has no such hook.
passes_on : List Row → List Row → Bool
passes_on hooks [] = true
passes_on hooks ((text, target) ∷ rows) =
    let rest = passes_on hooks rows in
    elim (find target hooks) [ none ↦ rest | some f ↦ confirms (some f) text rest ]

proc_rows_pass_on : passes_on hook_rows proc_rows ≡ true
unfolding passes_on confirms find proc_rows hook_rows
proc_rows_pass_on = refl

passes_on-head :
    (o : Option String) (text symbol : String) (rest : Bool)
    → elim o [ none ↦ rest | some f ↦ confirms (some f) text rest ] ≡ true
    → (rest ≡ true) × (o ≡ some symbol → symbol ≡ text)
unfolding confirms
passes_on-head none text symbol rest h = (h, λ e. cc)
passes_on-head (some f) text symbol rest h =
    let (same, more) = confirms-true (some f) text rest h in (more, λ e. ground arith)

passes_on-find :
    (hooks rows : List Row) (text target symbol : String)
    → passes_on hooks rows ≡ true
    → IsRow (text, target) rows
    → find target hooks ≡ some symbol
    → symbol ≡ text
unfolding passes_on
passes_on-find hooks [] text target symbol h row e = absurd row
passes_on-find hooks ((text', target') ∷ rows) text target symbol h (inl q) e =
    let same = ap (λ r. r.0) q in
    let same' = ap (λ r. r.1) q in
    (passes_on-head (find target' hooks) text' symbol (passes_on hooks rows) h).1 (rw same' e)
    ∙ same
passes_on-find hooks ((text', target') ∷ rows) text target symbol h (inr row) e =
    passes_on-find hooks rows text target symbol
      (passes_on-head (find target' hooks) text' symbol (passes_on hooks rows) h).0 row e

eq_comm : (s t : String) → (s == t) ≡ (t == s)
eq_comm s t = ground (arith, eq_iff s t, eq_iff t s)

pub hook_symbol-find :
    (expand : String → String) (rows : List Row) (name symbol : String)
    → find name rows ≡ some symbol
    → hook_symbol expand rows name ≡ some (expand symbol)
unfolding hook_symbol find
hook_symbol-find expand [] name symbol e = cc
hook_symbol-find expand ((hook, symbol') ∷ rows) name symbol e =
    ground (arith, eq_comm hook name, hook_symbol-find expand rows name symbol)

-- A program that asks `getProcAddressBySymbol` for a driver function, and is given a hook that passes
-- calls on, calls that very function through the hook: the address that the hook gets from the next
-- library, and calls, is that of the function that was asked for, as the macros of `cuda.h` name it.
pub hook_symbol-row :
    (expand : String → String) (driver : String → ℕ × Option Address) (text target symbol : String)
    → IsRow (text, target) proc_rows
    → (text == "cuGetProcAddress") ≡ false
    → find target hook_rows ≡ some symbol
    → (proc_address expand driver text ≡ (0, some (own (expand target))))
      × (hook_symbol expand hook_rows target ≡ some (expand text))
hook_symbol-row expand driver text target symbol row other hook = (
  proc_address-row expand driver text target row other,
  hook_symbol-find expand hook_rows target symbol hook
      ∙ ap (λ s. some (expand s))
          (passes_on-find hook_rows proc_rows text target symbol proc_rows_pass_on row hook),
)
