-- ===== src/Runtime/Transparent.antt =====
-- The library of interception/interception_runtime.c against the next library called directly.
use text.Mathlib.Text.{◌==◌}
use text.Mathlib.TextEquality.{eq_iff}
use Prim.Native.String.{String}
use fan_master_thesis.Base.{
  ℕ, ◌≡◌, refl, ap, sym, subst, ◌∙◌, Bool-cases, inl, inr, Option, none, some, Option-cases, List,
  [], ◌∷◌, length, All, arith,
}
use fan_master_thesis.Runtime.{
  Row, runtime_rows, error_unknown, Library, find_real, find_row, values_of, pass_on, looked_up,
  known, intercepted, run, direct, run_direct,
}
use fan_master_thesis.Runtime.Faithful.{
  runtime_rows-faithful, values_of-all, IsFaithful, find_row-IsFaithful,
}

module _ {A : Type 0} (expand : String → String) where
  -- A call of a function of the table with as many arguments as it has parameters, of which the name
  -- is no macro.
  abbrev pub IsCall : String × List A → Type 0
  IsCall c =
      (row : Row) × (find_row expand c.0 runtime_rows ≡ some row)
      × (length c.1 ≡ length row.1)
      × (expand row.0 ≡ row.0)

module _ {A S : Type 0} (expand : String → String) (next_symbol : String → Option ℕ)
    (call : ℕ → List A → S → ℕ × S) where
  -- Every pointer that is set is what dlsym gives.
  IsConsistent : Library S → Type 0
  IsConsistent l =
      (name : String) (a : ℕ) → find_real name l.real ≡ some a → next_symbol name ≡ some a

  none_set-IsConsistent : (s : S) → IsConsistent (record { real = []; state = s })
  unfolding IsConsistent find_real
  none_set-IsConsistent s name a e = absurd (cc)

  remember-IsConsistent :
      (name : String) (a : ℕ) (l : Library S)
      → next_symbol name ≡ some a
      → IsConsistent l
      → IsConsistent (record l { real = (name, a) ∷ l.real })
  unfolding IsConsistent find_real
  remember-IsConsistent name a l found h other b e = elim (Bool-cases (name == other)) [
    | inl same ↦
        let is : name ≡ other = ground (arith, eq_iff name other) in
        let value : some a ≡ some b = rw same at e in ap next_symbol (sym is) ∙ found ∙ value
    | inr differs ↦ h other b (rw differs at e)
  ]

  -- What a call of the library is to be.
  Acts : String → List A → Library S → Option (ℕ × Library S) → Type 0
  Acts name args l out =
      (l' : Library S) × (out ≡ some ((direct expand next_symbol call name args l.state).0, l'))
      × (l'.state ≡ (direct expand next_symbol call name args l.state).1)
      × IsConsistent l'

  pass_on-Acts :
      (a : ℕ) (row : Row) (args : List A) (l k : Library S)
      → IsFaithful row
      → length args ≡ length row.1
      → next_symbol row.0 ≡ some a
      → k.state ≡ l.state
      → IsConsistent k
      → Acts row.0 args l (pass_on expand next_symbol call a row args k)
  unfolding pass_on Acts direct IsConsistent
  pass_on-Acts a row args l k faith count found same h =
      let whole : values_of row.1 args row.2 ≡ some args =
        subst (λ xs. values_of row.1 args xs ≡ some args) faith.1
          (values_of-all row.1 args faith.0 count) in
      (
        record k { state = (call a args k.state).1 },
        rw (whole, direct, found, same) refl,
        rw (direct, found, same) refl,
        h,
      )

  missing-Acts :
      (name : String) (args : List A) (l : Library S)
      → next_symbol name ≡ none
      → IsConsistent l
      → Acts name args l (some (error_unknown, l))
  unfolding Acts direct
  missing-Acts name args l missing h = (l, rw (direct, missing) refl, rw (direct, missing) refl, h)

  intercepted-Acts :
      (row : Row) (args : List A) (l : Library S)
      → IsFaithful row
      → length args ≡ length row.1
      → IsConsistent l
      → Acts row.0 args l (intercepted expand next_symbol call row args l)
  unfolding intercepted known looked_up
  intercepted-Acts row args l faith count h = elim (Option-cases (find_real row.0 l.real)) [
    | inr (a, set) ↦
        rw set
          (pass_on-Acts a row args l l faith count (unfold IsConsistent in h row.0 a set) refl h)
    | inl unset ↦ elim (Option-cases (next_symbol row.0)) [
      | inr (a, found) ↦
          rw (unset, found)
            (pass_on-Acts a row args l (record l { real = (row.0, a) ∷ l.real }) faith count found
              refl (remember-IsConsistent row.0 a l found h))
      | inl missing ↦ rw (unset, missing) (missing-Acts row.0 args l missing h)
    ]
  ]

  run-Acts :
      (calls : List (String × List A)) (l : Library S)
      → All (IsCall expand) calls
      → IsConsistent l
      → (l' : Library S) × (run expand next_symbol call calls l
          ≡ some ((run_direct expand next_symbol call calls l.state).0, l'))
        × (l'.state ≡ (run_direct expand next_symbol call calls l.state).1)
  unfolding run run_direct Acts
  run-Acts [] l ok h = (l, refl, refl)
  run-Acts ((name, args) ∷ calls) l ok h =
      let (row, found, count, plain) = ok.0 in
      let (expanded, faith) =
        find_row-IsFaithful expand name runtime_rows row runtime_rows-faithful found in
      let named : row.0 ≡ name = sym plain ∙ expanded in
      let acts =
        subst (λ x. Acts x args l (intercepted expand next_symbol call row args l)) named
          (intercepted-Acts row args l faith count h) in
      let (l₁, ran, state₁, h₁) = acts in
      let (l₂, runs, state₂) = run-Acts calls l₁ ok.1 h₁ in
      let runs' =
        subst
          (λ s.
            run expand next_symbol call calls l₁
            ≡ some ((run_direct expand next_symbol call calls s).0, l₂))
          state₁ runs in
      let state₂' =
        subst (λ s. l₂.state ≡ (run_direct expand next_symbol call calls s).1) state₁ state₂ in
      (l₂, rw (found, ran, runs') refl, state₂')

  -- Let a library have no pointer set yet, and let a program call functions of its table, each with
  -- as many arguments as the function has parameters, and none of a name that is a macro. The calls
  -- all return, with the codes and the state that the same calls of the next library give, where a
  -- function that the next library does not have gives cudaErrorUnknown and changes nothing. So the
  -- pointers that the library keeps from one call to the next make no difference.
  pub run-run_direct :
      (calls : List (String × List A)) (s : S)
      → All (IsCall expand) calls
      → (l : Library S) × (run expand next_symbol call calls (record { real = []; state = s })
          ≡ some ((run_direct expand next_symbol call calls s).0, l))
        × (l.state ≡ (run_direct expand next_symbol call calls s).1)
  run-run_direct calls s ok =
      run-Acts calls (record { real = []; state = s }) ok (none_set-IsConsistent s)
