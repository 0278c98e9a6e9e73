-- ===== src/Ptx/Types.antt =====
-- The types that `get_params` gives for a name, and how `push_back` adds to them.
use mathlib.Core.List.{append-nil}
use fan_master_thesis.Base.{
  ℕ, ◌≡◌, refl, sym, ap, ◌∙◌, true, false, inl, inr, Option, Option-cases, none, some, List, [],
  ◌∷◌, ◌++◌, Bool-cases, if◌then◌else◌,
}
use fan_master_thesis.Ptx.Input.{text_eq, text_eq_sound, text_eq_refl}
use fan_master_thesis.Ptx.{Protos, find, push_back, get_params}

-- The types that get_params gives for a name.
abbrev pub types_of : List ℕ → Protos → List (List ℕ)
types_of key m = (get_params key m).0

abbrev or_empty : Option (List (List ℕ)) → List (List ℕ)
or_empty none = []
or_empty (some types) = types

-- What the first entry of that name gives.
pub first_of : List ℕ → Protos → List (List ℕ)
first_of key [] = []
first_of key ((name, types) ∷ m) = if text_eq name key then types else first_of key m

find-first_of : (key : List ℕ) (m : Protos) → or_empty (find key m) ≡ first_of key m
unfolding find first_of
find-first_of key [] = refl
find-first_of key ((name, types) ∷ m) =
    let ih = find-first_of key m in
    elim (Bool-cases (text_eq name key)) [ inl same ↦ rw same refl | inr differs ↦ rw differs ih ]

pub types_of-first_of : (key : List ℕ) (m : Protos) → types_of key m ≡ first_of key m
unfolding get_params
types_of-first_of key m = elim (Option-cases (find key m)) [
  | inl e ↦ rw (types_of, e) (ap or_empty (sym e) ∙ find-first_of key m)
  | inr (types, e) ↦ rw (types_of, e) (ap or_empty (sym e) ∙ find-first_of key m)
]

-- What a type added under `k` adds to the types of `key`.
abbrev pub added : List ℕ → List ℕ → List (List ℕ) → List (List ℕ)
added k key types = if text_eq k key then types else []

not-same : (k name key : List ℕ) → text_eq name k ≡ false → name ≡ key → text_eq k key ≡ false
not-same k name key differs e = elim (Bool-cases (text_eq k key)) [
  | inl hit ↦
      let same : k ≡ name = text_eq_sound k key hit ∙ sym e in
      let holds : text_eq name k ≡ true = ap (text_eq name) same ∙ text_eq_refl name in absurd (cc)
  | inr miss ↦ miss
]

pub first_of-push_back :
    (key k type : List ℕ) (m : Protos)
    → first_of key (push_back k type m) ≡ first_of key m ++ added k key (type ∷ [])
unfolding first_of push_back
first_of-push_back key k type [] = refl
first_of-push_back key k type ((name, types) ∷ m) =
    let ih = first_of-push_back key k type m in
    elim (Bool-cases (text_eq name k)) [
      | inl same ↦
          let is : text_eq k key ≡ text_eq name key =
            ap (λ x. text_eq x key) (sym (text_eq_sound name k same)) in
          elim (Bool-cases (text_eq name key)) [
            | inl hit ↦ rw (same, is, hit) refl
            | inr miss ↦ rw (same, is, miss) (sym (append-nil (first_of key m)))
          ]
      | inr differs ↦ elim (Bool-cases (text_eq name key)) [
        | inl hit ↦
            let other_name : text_eq k key ≡ false =
              not-same k name key differs (text_eq_sound name key hit) in
            rw (differs, hit, other_name) (sym (append-nil types))
        | inr miss ↦ rw (differs, miss) ih
      ]
    ]
