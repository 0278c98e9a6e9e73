-- ===== src/Remote/Table.antt =====
-- The hooks that CU_HOOK_REMOTE generates, with the types of their arguments, against the types by
-- which the host reads the arguments.
pub mod Spelling
use Prim.Native.String.{String}
use package.text.Mathlib.Text.{◌==◌}
use fan_master_thesis.Base.{
  ℕ, zero, suc, ◌≤◌, ◌<◌, ◌≡◌, ◌⊎◌, inl, inr, refl, sym, ap, subst, ◌∙◌, Bool, Bool-cases,
  Option-cases, true, false, Option, none, some, List, [], ◌∷◌, map, length, get_elem?, All,
  if◌then◌else◌,
}
use fan_master_thesis.Ptx.Input.{text_eq}
use fan_master_thesis.Stream.Items.{text, IsItem, encode_all}
use fan_master_thesis.Stream.Serializer.{buffer_size}
use fan_master_thesis.Client.{CudaClient, CallArg, call_items, IsClient}
use fan_master_thesis.Gpu.Params.{
  Param, by_value, by_handle, result, text_result, text_arg, raw_pointer, Driver,
}
use fan_master_thesis.Gpu.Signatures.{
  device_get_count, device_total_mem, device_get_attribute, driver_get_version, device_get_uuid,
  device_primary_ctx_retain, ctx_get_current, ctx_get_device, ctx_get_stream_priority_range,
  ctx_pop_current, module_get_loading_mode, library_get_module, event_create, stream_create,
  device_get_name, module_get_global, occupancy_max_active_blocks, func_map,
}
use fan_master_thesis.Gpu.Instance.{GpuInstance}
use fan_master_thesis.Gpu.Chain.{
  Branch, plain_call, device_get_branch, ctx_create_branch, mem_alloc_branch,
  mem_host_get_device_pointer_branch, chain, choose, mapped, branch_of,
}
use fan_master_thesis.Remote.Table.Spelling.{
  branch_at, params_at, first_answer, branch_for, IsTold, branch_of-branch_for,
}
use fan_master_thesis.Remote.{IsHost, hook_remote, direct_effects, has_null, AllWritten}
use fan_master_thesis.Remote.Request.{params_of}
use fan_master_thesis.Remote.Reply.{IsReturned}
use fan_master_thesis.Remote.Refinement.{outcome, hook_remote-direct}

-- CU_HOOK_REMOTE((symbol), (params), args...), in the order of the file.
unfoldable pub remote_hooks : List (String × List Param)
remote_hooks =
    ("cuInit", by_value 4 ∷ [])
    ∷ ("cuDevicePrimaryCtxRelease", by_value 4 ∷ [])
    ∷ ("cuCtxSetCurrent", by_handle ∷ [])
    ∷ ("cuCtxPushCurrent", by_handle ∷ [])
    ∷ ("cuLibraryUnload", by_handle ∷ [])
    ∷ ("cuMemsetD8Async", by_value 8 ∷ by_value 1 ∷ by_value 8 ∷ by_handle ∷ [])
    ∷ ("cuEventRecord", by_handle ∷ by_handle ∷ [])
    ∷ ("cuStreamSynchronize", by_handle ∷ [])
    ∷ ("cuCtxDestroy", by_handle ∷ [])
    ∷ ("cuMemFree", by_value 8 ∷ [])
    ∷ ("cuModuleUnload", by_handle ∷ [])
    ∷ ("cuDeviceGet", result 4 ∷ by_value 4 ∷ [])
    ∷ ("cuCtxCreate", result 8 ∷ by_value 4 ∷ by_value 4 ∷ [])
    ∷ ("cuDeviceGetCount", result 4 ∷ [])
    ∷ ("cuDeviceTotalMem_v2", result 8 ∷ by_value 4 ∷ [])
    ∷ ("cuDeviceGetAttribute", result 4 ∷ by_value 4 ∷ by_value 4 ∷ [])
    ∷ ("cuDriverGetVersion", result 4 ∷ [])
    ∷ ("cuDeviceGetUuid", result 16 ∷ by_value 4 ∷ [])
    ∷ ("cuDevicePrimaryCtxRetain", result 8 ∷ by_value 4 ∷ [])
    ∷ ("cuCtxGetCurrent", result 8 ∷ [])
    ∷ ("cuCtxGetDevice", result 4 ∷ [])
    ∷ ("cuCtxGetStreamPriorityRange", result 4 ∷ result 4 ∷ [])
    ∷ ("cuCtxPopCurrent", result 8 ∷ [])
    ∷ ("cuModuleGetLoadingMode", result 4 ∷ [])
    ∷ ("cuLibraryGetModule", result 8 ∷ by_handle ∷ [])
    ∷ ("cuMemHostGetDevicePointer", result 8 ∷ raw_pointer ∷ by_value 4 ∷ [])
    ∷ ("cuEventCreate", result 8 ∷ by_value 4 ∷ [])
    ∷ ("cuStreamCreate", result 8 ∷ by_value 4 ∷ [])
    ∷ ("cuDeviceGetName", text_result ∷ by_value 4 ∷ by_value 4 ∷ [])
    ∷ ("cuModuleGetGlobal", result 8 ∷ result 4 ∷ by_handle ∷ text_arg ∷ [])
    ∷ (
      "cuOccupancyMaxActiveBlocksPerMultiprocessorWithFlags",
      result 4 ∷ by_handle ∷ by_value 4 ∷ by_value 8 ∷ by_value 4 ∷ [],
    )
    ∷ ("cuStreamIsCapturing", by_handle ∷ result 4 ∷ [])
    ∷ ("cuStreamGetPriority", by_handle ∷ result 4 ∷ [])
    ∷ ("cuMemAlloc", result 8 ∷ by_value 8 ∷ [])
    ∷ []

-- The symbols that no branch answers to.
unfoldable pub unanswered : List String
unanswered = "cuModuleGetGlobal" ∷ "cuStreamIsCapturing" ∷ "cuStreamGetPriority" ∷ []

unfoldable pub member : String → List String → Bool
member s [] = false
member s (t ∷ ts) = if s == t then true else member s ts

-- The symbol of the host's code that is spelled as the name that the row's hook sends. The macro
-- cuDeviceTotalMem of cuda.h stands for cuDeviceTotalMem_v2, the symbol of the row; the macro
-- cuModuleGetGlobal is undefined before its row, and without it the symbol is a name of its own.
unfoldable pub host_symbol : String → String
host_symbol symbol =
    if symbol == "cuDeviceTotalMem_v2"
    then "cuDeviceTotalMem"
    else if symbol == "cuModuleGetGlobal"
    then "#undef cuModuleGetGlobal"
    else symbol

-- The branch that answers to a row: one of its own for four symbols, none for three, and for all
-- others the plain one, which reads the arguments with the row's types.
unfoldable pub answer_to : String × List Param → Option Branch
unfolding member unanswered
answer_to (symbol, types) =
    if symbol == "cuDeviceGet"
    then some device_get_branch
    else if symbol == "cuCtxCreate"
    then some ctx_create_branch
    else if symbol == "cuMemHostGetDevicePointer"
    then some mem_host_get_device_pointer_branch
    else if symbol == "cuMemAlloc"
    then some mem_alloc_branch
    else if member symbol unanswered
    then none
    else some (plain_call types)

remote_hooks-answer_to :
    map (λ row. branch_for (host_symbol row.0)) remote_hooks ≡ map answer_to remote_hooks
unfolding remote_hooks answer_to host_symbol member unanswered first_answer branch_for branch_at
    params_at chain func_map device_get_count device_total_mem device_get_attribute
    driver_get_version device_get_uuid device_primary_ctx_retain ctx_get_current ctx_get_device
    ctx_get_stream_priority_range ctx_pop_current module_get_loading_mode library_get_module
    event_create stream_create device_get_name module_get_global occupancy_max_active_blocks
remote_hooks-answer_to = refl

map-get_elem {ℓ κ} :
    {A : Type ℓ} {B : Type κ} (f g : A → B) (xs : List A) (i : ℕ) (x : A)
    → map f xs ≡ map g xs
    → get_elem? xs i ≡ some x
    → f x ≡ g x
map-get_elem f g [] i x same e = absurd (cc)
map-get_elem f g (y ∷ ys) zero x same e = cc
map-get_elem f g (y ∷ ys) (suc i) x same e = map-get_elem f g ys i x (cc) e

-- For every row of CU_HOOK_REMOTE, the host answers to the name that the hook sends with the branch
-- of `answer_to`: cuDeviceGet, cuCtxCreate, cuMemHostGetDevicePointer and cuMemAlloc have branches of
-- their own, no branch answers to cuModuleGetGlobal, cuStreamIsCapturing and cuStreamGetPriority, and
-- to all others answers the plain branch, which reads the arguments with exactly the types with which
-- the hook sends them. What the hook sends, `__func__`, is what SYMBOL_TO_STR makes of the symbol of
-- `host_symbol`, and SYMBOL_TO_STR tells that symbol from the others that the host knows.
pub hook_row-typed :
    (spell sent : String → List ℕ) (i : ℕ) (symbol : String) (types : List Param)
    → get_elem? remote_hooks i ≡ some (symbol, types)
    → sent symbol ≡ spell (host_symbol symbol)
    → IsTold spell (host_symbol symbol)
    → branch_of spell (sent symbol) ≡ answer_to (symbol, types)
hook_row-typed spell sent i symbol types row spelled told =
    ap (branch_of spell) spelled
    ∙ branch_of-branch_for spell (host_symbol symbol) told
    ∙ map-get_elem (λ row. branch_for (host_symbol row.0)) answer_to remote_hooks i (symbol, types)
        remote_hooks-answer_to row

module _ {S : Type 0} (spell : String → List ℕ) (driver : Driver S) (ptx_path : List ℕ)
    (prop_size : ℕ) where
  -- Every hook that a plain branch answers to is a call of the driver in the guest's place: with arguments of the row's types
  -- and within them, a request that fits the buffer, and an outcome that the reply can carry, the
  -- hook returns the driver's code, leaves its results in the guest's memory, and the driver has
  -- gone on; client and host are ready for the next call.
  pub hook_row-direct :
      (sent : String → List ℕ) (i : ℕ) (symbol : String) (args : List CallArg) (c : CudaClient)
      (g : GpuInstance S)
      → get_elem? remote_hooks i ≡ some (symbol, params_of args)
      → answer_to (symbol, params_of args) ≡ some (plain_call (params_of args))
      → sent symbol ≡ spell (host_symbol symbol)
      → IsTold spell (host_symbol symbol)
      → IsClient c
      → IsHost g
      → All (λ ch. 0 < ch) (sent symbol)
      → All IsItem (call_items args)
      → length (encode_all (text (sent symbol) ∷ call_items args)) ≤ buffer_size
      → IsReturned (outcome spell driver ptx_path prop_size (sent symbol) args g) args
      → has_null args ≡ false
      → AllWritten (outcome spell driver ptx_path prop_size (sent symbol) args g) 0 args
      → (c' : CudaClient) × (g' : GpuInstance S) × (hook_remote spell driver ptx_path prop_size
            (sent symbol)
            args
            c
            g
          ≡ some (
            (outcome spell driver ptx_path prop_size (sent symbol) args g).code,
            direct_effects (outcome spell driver ptx_path prop_size (sent symbol) args g) 0 args,
            c',
            g',
          ))
        × (g'.driver_state ≡ (outcome spell driver ptx_path prop_size (sent symbol) args g).next)
        × IsClient c'
        × IsHost g'
  hook_row-direct sent i symbol args c g row plain spelled told hc hg named ok fits returned there
        written =
      hook_remote-direct spell driver ptx_path prop_size (sent symbol) args c g hc hg
        (hook_row-typed spell sent i symbol (params_of args) row spelled told ∙ plain) named ok fits
        returned there written
