-- ===== src/Gpu/Chain.antt =====
-- `implement_cuda_function` of interception/gpu_instance.cpp: the request is pulled, a chain of
-- comparisons with the names of the driver's functions chooses the branch, and the reply is sent.
use Prim.Native.String.{String}
use fan_master_thesis.Base.{ℕ, Option, none, some, List, [], ◌∷◌, if◌then◌else◌, ◌>>=◌}
use fan_master_thesis.Ptx.Input.{text_eq}
use fan_master_thesis.Stream.Response
use fan_master_thesis.Gpu.Params.{Param, Driver}
use fan_master_thesis.Gpu.Instance.{GpuInstance, pull_command, implement_plain}
use fan_master_thesis.Gpu.Signatures.{
  device_get_count, device_total_mem, device_get_attribute, driver_get_version, device_get_uuid,
  device_primary_ctx_retain, ctx_get_current, ctx_get_device, ctx_get_stream_priority_range,
  ctx_pop_current, module_get_loading_mode, library_get_module, event_create, stream_create,
  device_get_name, module_get_global, occupancy_max_active_blocks, func_map,
}
use fan_master_thesis.Gpu.Runtime.{
  get_device_properties, get_device_properties_of, runtime_device_count, runtime_get_device,
}
use fan_master_thesis.Gpu.Handlers.{
  device_get, ctx_create, mem_alloc, memcpy_htod, module_load, module_load_data,
  occupancy_max_potential_block_size, module_get_function, launch_kernel, memcpy_dtoh,
  mem_host_alloc, memcpy_htod_async, get_export_table, mem_host_get_device_pointer,
}

-- A branch: the symbol that FUNC_COMP compares the function name with, and what it does.
pub data Branch : Type 0 where
  plain_call : List Param → Branch
  device_get_branch ctx_create_branch mem_alloc_branch memcpy_htod_branch : Branch
  module_load_branch module_load_data_branch occupancy_branch module_get_function_branch : Branch
  launch_kernel_branch memcpy_dtoh_branch mem_host_alloc_branch memcpy_htod_async_branch : Branch
  get_export_table_branch get_device_properties_branch mem_host_get_device_pointer_branch : Branch
  runtime_device_count_branch runtime_get_device_branch get_device_properties_of_branch : Branch

-- The comparisons in their order.
unfoldable pub chain : List (String × Branch)
chain =
    ("cuDeviceGet", device_get_branch)
    ∷ ("cuCtxCreate", ctx_create_branch)
    ∷ ("cuDeviceGetCount", plain_call device_get_count)
    ∷ ("cuDeviceTotalMem", plain_call device_total_mem)
    ∷ ("cuDeviceGetAttribute", plain_call device_get_attribute)
    ∷ ("cuDriverGetVersion", plain_call driver_get_version)
    ∷ ("cuDeviceGetUuid", plain_call device_get_uuid)
    ∷ ("cuDevicePrimaryCtxRetain", plain_call device_primary_ctx_retain)
    ∷ ("cuCtxGetCurrent", plain_call ctx_get_current)
    ∷ ("cuCtxGetDevice", plain_call ctx_get_device)
    ∷ ("cuCtxGetStreamPriorityRange", plain_call ctx_get_stream_priority_range)
    ∷ ("cuCtxPopCurrent", plain_call ctx_pop_current)
    ∷ ("cuModuleGetLoadingMode", plain_call module_get_loading_mode)
    ∷ ("cuLibraryGetModule", plain_call library_get_module)
    ∷ ("cuEventCreate", plain_call event_create)
    ∷ ("cuStreamCreate", plain_call stream_create)
    ∷ ("cuDeviceGetName", plain_call device_get_name)
    ∷ ("cuModuleGetGlobal", plain_call module_get_global)
    ∷ (
      "cuOccupancyMaxActiveBlocksPerMultiprocessorWithFlags",
      plain_call occupancy_max_active_blocks,
    )
    ∷ ("cuMemAlloc", mem_alloc_branch)
    ∷ ("cuMemcpyHtoD", memcpy_htod_branch)
    ∷ ("cuModuleLoad", module_load_branch)
    ∷ ("cuModuleLoadData", module_load_data_branch)
    ∷ ("cuOccupancyMaxPotentialBlockSize", occupancy_branch)
    ∷ ("cuModuleGetFunction", module_get_function_branch)
    ∷ ("cuLaunchKernel", launch_kernel_branch)
    ∷ ("cuMemcpyDtoH", memcpy_dtoh_branch)
    ∷ ("cuMemHostAlloc", mem_host_alloc_branch)
    ∷ ("cuMemcpyHtoDAsync", memcpy_htod_async_branch)
    ∷ ("cuGetExportTable", get_export_table_branch)
    ∷ ("cudaGetDeviceProperties", get_device_properties_branch)
    ∷ ("cuMemHostGetDevicePointer", mem_host_get_device_pointer_branch)
    ∷ ("cudaGetDeviceCount", runtime_device_count_branch)
    ∷ ("cudaGetDevice", runtime_get_device_branch)
    ∷ ("cudaGetDeviceProperties", get_device_properties_of_branch)
    ∷ []

-- `spell` is SYMBOL_TO_STR: the bytes that the preprocessor makes of a symbol, macros of `cuda.h`
-- expanded.
module _ (spell : String → List ℕ) where
  -- if(FUNC_COMP(function_name, symbol)) … else if …
  unfoldable pub choose : List ℕ → List (String × Branch) → Option Branch
  choose name [] = none
  choose name ((symbol, b) ∷ rest) =
      if text_eq name (spell symbol) then some b else choose name rest

  -- func_map.count(function_name) and func_map[function_name]
  unfoldable pub mapped : List ℕ → List (String × List Param) → Option (List Param)
  mapped name [] = none
  mapped name ((symbol, ps) ∷ rest) =
      if text_eq name (spell symbol) then some ps else mapped name rest

  -- The branch for a name, the last `else` included; `none` where nothing is called.
  unfoldable pub branch_of : List ℕ → Option Branch
  unfolding choose mapped chain
  branch_of name = elim (choose name chain) [
    | some b ↦ some b
    | none ↦ elim (mapped name func_map) [ none ↦ none | some ps ↦ some (plain_call ps) ]
  ]

module _ {S : Type 0} (spell : String → List ℕ) (driver : Driver S) (ptx_path : List ℕ)
    (prop_size : ℕ) where
  unfoldable pub run_branch : List ℕ → Branch → GpuInstance S → Option (GpuInstance S)
  run_branch name (plain_call ps) = implement_plain driver name ps
  run_branch name device_get_branch = device_get spell driver ptx_path
  run_branch name ctx_create_branch = ctx_create spell driver ptx_path
  run_branch name mem_alloc_branch = mem_alloc spell driver ptx_path
  run_branch name memcpy_htod_branch = memcpy_htod spell driver ptx_path
  run_branch name module_load_branch = module_load spell driver ptx_path
  run_branch name module_load_data_branch = module_load_data spell driver ptx_path
  run_branch name occupancy_branch = occupancy_max_potential_block_size spell driver ptx_path
  run_branch name module_get_function_branch = module_get_function spell driver ptx_path
  run_branch name launch_kernel_branch = launch_kernel spell driver ptx_path
  run_branch name memcpy_dtoh_branch = memcpy_dtoh spell driver ptx_path
  run_branch name mem_host_alloc_branch = mem_host_alloc spell driver ptx_path
  run_branch name memcpy_htod_async_branch = memcpy_htod_async spell driver ptx_path
  run_branch name get_export_table_branch = get_export_table spell driver ptx_path
  run_branch name get_device_properties_branch =
      get_device_properties spell driver ptx_path prop_size
  run_branch name mem_host_get_device_pointer_branch =
      mem_host_get_device_pointer spell driver ptx_path
  run_branch name runtime_device_count_branch = runtime_device_count spell driver ptx_path
  run_branch name runtime_get_device_branch = runtime_get_device spell driver ptx_path
  run_branch name get_device_properties_of_branch =
      get_device_properties_of spell driver ptx_path prop_size

  -- The chain; a name that nothing answers to leaves the state as it is.
  unfoldable pub dispatch : List ℕ → GpuInstance S → Option (GpuInstance S)
  dispatch name g = elim (branch_of spell name) [ none ↦ some g | some b ↦ run_branch name b g ]

  -- void implement_cuda_function(): the new state, and the bytes that return_result sends.
  unfoldable pub implement_cuda_function : List ℕ → GpuInstance S → Option (GpuInstance S × List ℕ)
  unfolding pull_command dispatch
  implement_cuda_function chunk g = do
    (name, g₁) ← pull_command chunk g
    g₂ ← dispatch name (record g₁ { response = Response.reset g₁.response })
    some (g₂, g₂.response.mdata)
