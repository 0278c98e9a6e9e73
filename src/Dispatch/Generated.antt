-- ===== src/Dispatch/Generated.antt =====
-- The tables that the scripts of util generate, against those of interception/interception.cpp.
mod RowsFirst
mod RowsSecond
mod HooksFirst
mod HooksSecond
use text.Mathlib.Text.{◌==◌}
use Prim.Native.String.{String}
use fan_master_thesis.Base.{
  ℕ, ◌≡◌, sym, ◌∙◌, Bool, true, false, Option, none, some, List, [], ◌∷◌, ◌++◌, if◌then◌else◌,
}
use fan_master_thesis.Dispatch.{Row, proc_rows, hook_rows}
use fan_master_thesis.Dispatch.Rows.{find, confirms}
use RowsFirst.{generated_rows_1, generated_rows_2}
use RowsSecond.{generated_rows_3, generated_rows_4}
use HooksFirst.{generated_hooks_1, generated_hooks_2}
use HooksSecond.{generated_hooks_3, generated_hooks_4}

unfoldable pub generated_rows : List Row
unfolding generated_rows_1 generated_rows_2 generated_rows_3 generated_rows_4
generated_rows = generated_rows_1 ++ (generated_rows_2 ++ (generated_rows_3 ++ generated_rows_4))

unfoldable pub generated_hooks : List Row
unfolding generated_hooks_1 generated_hooks_2 generated_hooks_3 generated_hooks_4
generated_hooks =
    generated_hooks_1 ++ (generated_hooks_2 ++ (generated_hooks_3 ++ generated_hooks_4))

-- The functions for which interception.cpp has a hook of its own in place of the generated one, and
-- cuMemcpyHtoDAsync, whose row it comments out.
unfoldable pub remoted : List String
remoted =
    "cuInit" ∷ "cuDeviceGet" ∷ "cuDeviceGetCount" ∷ "cuDeviceGetName" ∷ "cuDeviceTotalMem"
    ∷ "cuDeviceGetAttribute" ∷ "cuDriverGetVersion" ∷ "cuDeviceGetUuid" ∷ "cuDevicePrimaryCtxRetain"
    ∷ "cuDevicePrimaryCtxRelease" ∷ "cuCtxCreate" ∷ "cuCtxSetCurrent" ∷ "cuCtxGetCurrent"
    ∷ "cuCtxGetDevice" ∷ "cuCtxGetStreamPriorityRange" ∷ "cuCtxPopCurrent" ∷ "cuCtxPushCurrent"
    ∷ "cuModuleLoad" ∷ "cuModuleLoadData" ∷ "cuModuleUnload" ∷ "cuModuleGetFunction"
    ∷ "cuModuleGetGlobal" ∷ "cuModuleGetLoadingMode" ∷ "cuLibraryUnload" ∷ "cuLibraryGetModule"
    ∷ "cuMemAlloc" ∷ "cuMemFree" ∷ "cuMemHostAlloc" ∷ "cuMemHostGetDevicePointer" ∷ "cuMemcpyHtoD"
    ∷ "cuMemcpyHtoDAsync" ∷ "cuMemcpyDtoH" ∷ "cuMemsetD8Async" ∷ "cuLaunchKernel" ∷ "cuEventCreate"
    ∷ "cuEventRecord" ∷ "cuStreamCreate" ∷ "cuStreamGetPriority" ∷ "cuStreamSynchronize"
    ∷ "cuGetExportTable" ∷ "cuOccupancyMaxActiveBlocksPerMultiprocessorWithFlags"
    ∷ "cuStreamIsCapturing" ∷ []

unfoldable pub is_in : String → List String → Bool
is_in s [] = false
is_in s (t ∷ ts) = if s == t then true else is_in s ts

-- Whether interception.cpp has each row, and whether both tables of hooks pass its target on to its
-- text.
agrees : List Row → Bool
agrees [] = true
agrees ((text, target) ∷ rows) =
    let rest = agrees rows in
    if is_in text remoted
    then rest
    else confirms (find text proc_rows) target
        (confirms (find target hook_rows) text (confirms (find target generated_hooks) text rest))

-- A row that interception.cpp keeps.
abbrev IsKept : String → String → Type 0
IsKept text target =
    (find text proc_rows ≡ some target)
    × (find target hook_rows ≡ some text)
    × (find target generated_hooks ≡ some text)
