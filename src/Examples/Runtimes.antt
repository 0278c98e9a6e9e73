-- ===== src/Examples/Runtimes.antt =====
-- A program that calls the functions of the runtime's table, two of them known and one not.
use text.Mathlib.Text.{◌==◌}
use Prim.Native.String.{String}
use fan_master_thesis.Base.{ℕ, ◌≡◌, refl, Option, none, some, List, [], ◌∷◌, All, if◌then◌else◌}
use fan_master_thesis.Runtime.{Library, runtime_rows, find_row, run, run_direct}
use fan_master_thesis.Runtime.Transparent.{IsCall, run-run_direct}

-- The next library has two functions, at 16 and 32, and keeps how much was allocated and freed.
unfoldable next_library : String → Option ℕ
next_library name =
    if name == "cudaMalloc" then some 16 else (if name == "cudaFree" then some 32 else none)

-- cudaGetDeviceProperties is a macro, and the names that are called are none.
unfoldable versioned_names : String → String
versioned_names name =
    if name == "cudaGetDeviceProperties" then "cudaGetDeviceProperties_v2" else name

unfoldable call_at : ℕ → List ℕ → List ℕ → ℕ × List ℕ
call_at address args kept = (0, address ∷ args)

abbrev calls : List (String × List ℕ)
calls =
    ("cudaMalloc", 1 ∷ 64 ∷ [])
    ∷ ("cudaMalloc", 2 ∷ 8 ∷ [])
    ∷ ("cudaDeviceReset", [])
    ∷ ("cudaFree", 1 ∷ [])
    ∷ []

calls-IsCall : All (IsCall versioned_names) calls
unfolding find_row runtime_rows versioned_names
calls-IsCall = (
  (_, refl, refl, refl),
  ((_, refl, refl, refl), ((_, refl, refl, refl), ((_, refl, refl, refl), tt))),
)

calls_codes : (run_direct versioned_names next_library call_at calls []).0 ≡ 0 ∷ 0 ∷ 999 ∷ 0 ∷ []
unfolding run_direct next_library call_at
calls_codes = refl

run-run_direct_example :
    (l : Library (List ℕ)) × (run versioned_names next_library call_at calls
        (record { real = []; state = [] })
      ≡ some ((run_direct versioned_names next_library call_at calls []).0, l))
    × (l.state ≡ (run_direct versioned_names next_library call_at calls []).1)
run-run_direct_example = run-run_direct versioned_names next_library call_at calls [] calls-IsCall
