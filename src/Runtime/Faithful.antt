-- ===== src/Runtime/Faithful.antt =====
-- Every line of interception/interception_runtime.c passes its own parameters on, in order.
use text.Mathlib.Text.{◌==◌}
use text.Mathlib.TextEquality.{eq_iff}
use Prim.Native.String.{String}
use fan_master_thesis.Base.{
  ◌≡◌, refl, subst, Bool, true, false, Bool-cases, inl, inr, some, List, [], ◌∷◌, length,
  if◌then◌else◌, arith,
}
use fan_master_thesis.Runtime.{Row, runtime_rows, find_row, value_of, values_of}

-- Whether a name is none of the others, whether all names differ, and whether two lists are equal.
absent : String → List String → Bool
absent x [] = true
absent x (y ∷ ys) = if x == y then false else absent x ys

pub distinct : List String → Bool
distinct [] = true
distinct (x ∷ xs) = if absent x xs then distinct xs else false

equal_names : List String → List String → Bool
equal_names [] [] = true
equal_names (x ∷ xs) (y ∷ ys) = if x == y then equal_names xs ys else false
equal_names _ _ = false

-- Whether each row passes its own parameters on, in order.
pub faithful : List Row → Bool
faithful [] = true
faithful ((name, params, passed) ∷ rows) =
    let rest = faithful rows in
    if distinct params then (if equal_names params passed then rest else false) else false

pub runtime_rows-faithful : faithful runtime_rows ≡ true
unfolding faithful distinct absent equal_names runtime_rows
runtime_rows-faithful = refl

if-true : (b c : Bool) → (if b then c else false) ≡ true → (b ≡ true) × (c ≡ true)
if-true true c h = (refl, h)
if-true false c h = absurd (cc)

equal_names-eq : (xs ys : List String) → equal_names xs ys ≡ true → xs ≡ ys
unfolding equal_names
equal_names-eq [] [] h = refl
equal_names-eq [] (y ∷ ys) h = absurd (cc)
equal_names-eq (x ∷ xs) [] h = absurd (cc)
equal_names-eq (x ∷ xs) (y ∷ ys) h =
    let (same, rest) = if-true (x == y) (equal_names xs ys) h in
    let head : x ≡ y = ground (arith, eq_iff x y) in let tail = equal_names-eq xs ys rest in cc

same_name : (x : String) → (x == x) ≡ true
same_name x = ground (arith, eq_iff x x)

module _ {A : Type 0} where
  values_of-skip :
      (p : String) (ps : List String) (a : A) (args : List A) (xs : List String)
      → absent p xs ≡ true
      → values_of (p ∷ ps) (a ∷ args) xs ≡ values_of ps args xs
  unfolding values_of value_of absent
  values_of-skip p ps a args [] h = refl
  values_of-skip p ps a args (x ∷ xs) h = elim (Bool-cases (p == x)) [
    | inl same ↦ let h' : false ≡ true = rw same at h in absurd (cc)
    | inr differs ↦ rw (differs, values_of-skip p ps a args xs (rw differs at h)) refl
  ]

  -- Distinct names stand for all arguments in order.
  pub values_of-all :
      (ps : List String) (args : List A)
      → distinct ps ≡ true
      → length args ≡ length ps
      → values_of ps args ps ≡ some args
  unfolding values_of value_of distinct
  values_of-all [] [] h e = refl
  values_of-all [] (a ∷ args) h e = absurd (omega arith)
  values_of-all (p ∷ ps) [] h e = absurd (omega arith)
  values_of-all (p ∷ ps) (a ∷ args) h e =
      let (new, rest) = if-true (absent p ps) (distinct ps) h in
      rw (same_name p, values_of-skip p ps a args ps new, values_of-all ps args rest (omega arith))
  -- A row that passes its own parameters on.

abbrev pub IsFaithful : Row → Type 0
IsFaithful row = (distinct row.1 ≡ true) × (row.1 ≡ row.2)

pub find_row-IsFaithful :
    (expand : String → String) (name : String) (rows : List Row) (row : Row)
    → faithful rows ≡ true
    → find_row expand name rows ≡ some row
    → (expand row.0 ≡ name) × IsFaithful row
unfolding find_row faithful
find_row-IsFaithful expand name [] row h e = absurd (cc)
find_row-IsFaithful expand name ((f, params, passed) ∷ rows) row h e =
    let (differ, h') = if-true (distinct params) _ h in
    let (same, rest) = if-true (equal_names params passed) (faithful rows) h' in
    elim (Bool-cases (expand f == name)) [
      | inl found ↦
          let is : (f, params, passed) ≡ row = some_injective (rw found at e) in
          let named : expand f ≡ name = ground (arith, eq_iff (expand f) name) in
          subst (λ r. (expand r.0 ≡ name) × IsFaithful r) is
            (named, (differ, equal_names-eq params passed same))
      | inr other ↦ find_row-IsFaithful expand name rows row rest (rw other at e)
    ]
  where
    some_injective : {x y : Row} → some x ≡ some y → x ≡ y
    some_injective e = cc
