-- ===== src/Dispatch/Lookup.antt =====
-- What the two chains of macros find, whatever their rows.
use text.Mathlib.TextEquality.{eq_iff}
use text.Mathlib.TextPositions.{eq_refl}
use Prim.Native.String.{String}
use fan_master_thesis.Base.{ℕ, ◌≡◌, ◌≢◌, ◌⊎◌, inl, inr, Option, some, List, [], ◌∷◌, arith}
use fan_master_thesis.Dispatch.{Row, own, proc_address_name, dlsym_rows, try_dlsym, dlsym}

try_dlsym-eq_some :
    (expand : String → String) (rows : List Row) (symbol f : String)
    → try_dlsym expand rows symbol ≡ some f
    → f ≡ symbol
unfolding try_dlsym
try_dlsym-eq_some expand [] symbol f e = cc
try_dlsym-eq_some expand ((text, target) ∷ rows) symbol f e =
    ground (arith, eq_iff symbol (expand target), try_dlsym-eq_some expand rows symbol f)

-- Whatever the macros of `cuda.h` are, a function of this library that `dlsym` gives out is called
-- exactly as the symbol that was asked for, or it is `getProcAddressBySymbol`, given out for
-- `cuGetProcAddress`. No symbol is redirected to a function of another name.
pub dlsym-own_name :
    (expand : String → String) (real_dlsym : String → Option ℕ) (symbol f : String)
    → dlsym expand real_dlsym symbol ≡ some (own f)
    → (f ≡ symbol) ⊎ ((symbol ≡ expand "cuGetProcAddress") × (f ≡ proc_address_name))
unfolding dlsym
dlsym-own_name expand real_dlsym symbol f e =
    ground (
      arith,
      eq_iff symbol (expand "cuGetProcAddress"),
      try_dlsym-eq_some expand dlsym_rows symbol f,
    )

-- A row of the table.
abbrev pub IsRow : Row → List Row → Type 0
IsRow r [] = ⊥
IsRow r (q ∷ rows) = (q ≡ r) ⊎ IsRow r rows

try_dlsym-target :
    (expand : String → String) (rows : List Row) (text target : String)
    → IsRow (text, target) rows
    → try_dlsym expand rows (expand target) ≡ some (expand target)
unfolding try_dlsym
try_dlsym-target expand [] text target h = absurd h
try_dlsym-target expand ((text', target') ∷ rows) text target (inl e) =
    ground (arith, eq_refl (expand target))
try_dlsym-target expand ((text', target') ∷ rows) text target (inr h) =
    ground
      (arith, eq_iff (expand target) (expand target'), try_dlsym-target expand rows text target h)

-- A function in the table of `dlsym` is given out to whoever asks for it by its own linkage name.
pub dlsym-target :
    (expand : String → String) (real_dlsym : String → Option ℕ) (text target : String)
    → IsRow (text, target) dlsym_rows
    → expand target ≢ expand "cuGetProcAddress"
    → dlsym expand real_dlsym (expand target) ≡ some (own (expand target))
unfolding dlsym
dlsym-target expand real_dlsym text target row other = ground (
  arith,
  eq_iff (expand target) (expand "cuGetProcAddress"),
  try_dlsym-target expand dlsym_rows text target row,
)
