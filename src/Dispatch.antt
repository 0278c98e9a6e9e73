-- ===== src/Dispatch.antt =====
-- interception/interception.cpp: how the program under interception gets the address of a CUDA
-- driver function, by `dlsym` or by `getProcAddressBySymbol`, and which function a hook that
-- passes calls on calls. An address is the name of the function that it belongs to.
pub mod DlsymFirst
pub mod DlsymSecond
pub mod ProcFirst
pub mod ProcSecond
pub mod HooksFirst
pub mod HooksSecond
pub mod Lookup
pub mod Rows
pub mod Generated
use text.Mathlib.Text.{◌==◌}
use Prim.Native.String.{String}
use fan_master_thesis.Base.{
  ℕ, ◌≡◌, Bool, true, false, Option, none, some, List, [], ◌∷◌, ◌++◌, if◌then◌else◌, ◌>>=◌,
}
use fan_master_thesis.Dispatch.DlsymFirst.{dlsym_rows_1, dlsym_rows_2}
use fan_master_thesis.Dispatch.DlsymSecond.{dlsym_rows_3, dlsym_rows_4, dlsym_rows_5}
use fan_master_thesis.Dispatch.ProcFirst.{proc_rows_1, proc_rows_2}
use fan_master_thesis.Dispatch.ProcSecond.{proc_rows_3, proc_rows_4, proc_rows_5}
use fan_master_thesis.Dispatch.HooksFirst.{hook_rows_1, hook_rows_2}
use fan_master_thesis.Dispatch.HooksSecond.{hook_rows_3, hook_rows_4, hook_rows_5}

-- A row of a table: the text that the macro is given, and the function.
abbrev pub Row : Type 0
Row = String × String

unfoldable pub dlsym_rows : List Row
unfolding dlsym_rows_1 dlsym_rows_2 dlsym_rows_3 dlsym_rows_4 dlsym_rows_5
dlsym_rows = dlsym_rows_1 ++ (dlsym_rows_2 ++ (dlsym_rows_3 ++ (dlsym_rows_4 ++ dlsym_rows_5)))

unfoldable pub proc_rows : List Row
unfolding proc_rows_1 proc_rows_2 proc_rows_3 proc_rows_4 proc_rows_5
proc_rows = proc_rows_1 ++ (proc_rows_2 ++ (proc_rows_3 ++ (proc_rows_4 ++ proc_rows_5)))

unfoldable pub hook_rows : List Row
unfolding hook_rows_1 hook_rows_2 hook_rows_3 hook_rows_4 hook_rows_5
hook_rows = hook_rows_1 ++ (hook_rows_2 ++ (hook_rows_3 ++ (hook_rows_4 ++ hook_rows_5)))

-- A function of this library by its linkage name, or an address that the C library or the driver
-- gave out.
pub data Address : Type 0 where
  own : String → Address
  foreign : ℕ → Address

abbrev pub proc_address_name : String
proc_address_name = "getProcAddressBySymbol"

-- `expand` is what the preprocessor makes of an identifier: `cuda.h` defines many names of the
-- driver as macros for versioned ones, such as `cuMemAlloc_v2`.
module _ (expand : String → String) where
  -- TRY_DLSYM: the symbol is compared with the target as SYMBOL_TO_STR spells it, and `text` is
  -- never looked at.
  unfoldable pub try_dlsym : List Row → String → Option String
  try_dlsym [] symbol = none
  try_dlsym ((text, target) ∷ rows) symbol =
      if symbol == expand target then some (expand target) else try_dlsym rows symbol

  -- TRY_INTERCEPT: the symbol is compared with the text.
  unfoldable pub try_intercept : List Row → String → Option String
  try_intercept [] symbol = none
  try_intercept ((text, target) ∷ rows) symbol =
      if symbol == text then some (expand target) else try_intercept rows symbol

  -- void *dlsym(void *handle, const char *symbol). `real_dlsym` is the C library's, and the `assert`
  -- on its answer is `none`.
  unfoldable pub dlsym : (String → Option ℕ) → String → Option Address
  unfolding try_dlsym
  dlsym real_dlsym symbol =
      if symbol == expand "cuGetProcAddress"
      then some (own proc_address_name)
      else elim (try_dlsym dlsym_rows symbol) [
        | some f ↦ some (own f)
        | none ↦ elim (real_dlsym symbol) [ none ↦ none | some a ↦ some (foreign a) ]
      ]

  -- getProcAddressBySymbol(symbol, &pfn, ...): the CUresult and what `*pfn` is set to; `driver` is
  -- cuGetProcAddress_v2, and 0 is CUDA_SUCCESS.
  unfoldable pub proc_address : (String → ℕ × Option Address) → String → ℕ × Option Address
  unfolding try_intercept
  proc_address driver symbol =
      if symbol == "cuGetProcAddress"
      then (0, some (own proc_address_name))
      else elim (try_intercept proc_rows symbol) [
        | some f ↦ (0, some (own f))
        | none ↦ driver symbol
      ]

  -- CU_HOOK_DRIVER_FUNC(name, symbol, params, ...): the function that the hook `name` gets from
  -- real_dlsym(RTLD_NEXT, SYMBOL_TO_STR(symbol)) and calls, where there is such a hook.
  unfoldable pub hook_symbol : List Row → String → Option String
  hook_symbol [] name = none
  hook_symbol ((hook, symbol) ∷ rows) name =
      let rest = hook_symbol rows name in if hook == name then some (expand symbol) else rest
