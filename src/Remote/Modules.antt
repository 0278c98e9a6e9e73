-- ===== src/Remote/Modules.antt =====
-- Further hand-written hooks of interception/interception.cpp: modules, host memory, occupancy, the
-- export table, and the functions of the CUDA runtime.
use Prim.Native.String.{String}
use fan_master_thesis.Base.{ℕ, Option, some, List, [], ◌∷◌, ◌++◌, ◌>>=◌}
use fan_master_thesis.Stream.Response.{Effect, ptr_target, plain_target, table_target}
use fan_master_thesis.Vgpu.Mapped
use fan_master_thesis.Ptx.Input.{Stream}
use fan_master_thesis.Ptx.{initialize}
use fan_master_thesis.Client.{
  CallArg, value_arg, handle_arg, result_arg, text_arg, pointer_arg, call_items, call_cuda_function,
  wait_recv,
}
use fan_master_thesis.Gpu.Params.{Driver}
use fan_master_thesis.Gpu.Instance.{GpuInstance}
use fan_master_thesis.Gpu.Chain.{implement_cuda_function}
use fan_master_thesis.Remote.{remote_call}
use fan_master_thesis.Remote.Hooks.{Guest}

-- The arguments of cuModuleLoad(cu_module, fname).
abbrev pub load_args : ℕ → List ℕ → List CallArg
load_args cu_module fname = result_arg 8 cu_module ∷ text_arg fname ∷ []

-- Those of cuMemHostAlloc, where the hook sends `*pp` in place of `pp`.
abbrev pub alloc_host_args : ℕ → ℕ → ℕ → List CallArg
alloc_host_args p n flags = pointer_arg p ∷ value_arg 8 n ∷ value_arg 4 flags ∷ []

module _ {S : Type 0} (spell : String → List ℕ) (driver : Driver S) (ptx_path : List ℕ)
    (prop_size : ℕ) where
  -- cuModuleLoad(cu_module, fname): `ptx` is the file that the hook opens, SOURCE_DIR's
  -- vector_add.ptx, which add_module reads, within `fuel` lines, before the reply is waited for.
  unfoldable pub module_load :
      ℕ
      → List ℕ
      → ℕ
      → Stream
      → Guest
      → GpuInstance S
      → Option (ℕ × List Effect × Guest × GpuInstance S)
  module_load cu_module fname fuel ptx u g = do
    (request, c₁) ←
        call_cuda_function (spell "cuModuleLoad") (call_items (load_args cu_module fname)) u.client
    (g', reply) ← implement_cuda_function spell driver ptx_path prop_size request g
    (s, protos) ← initialize fuel [] ptx u.func_proto
    (code, effects, c₂) ← wait_recv (ptr_target 8 ∷ []) reply c₁
    some (code, effects, record u { client = c₂; func_proto = protos }, g')

  -- cuModuleLoadData(module, image): `text` are the characters of the image before its zero.
  unfoldable pub module_load_data :
      ℕ → ℕ → List ℕ → Guest → GpuInstance S → Option (ℕ × List Effect × Guest × GpuInstance S)
  module_load_data cu_module image text u g = do
    window ← Mapped.to_device (some (text ++ (0 ∷ []))) u.window
    (code, effects, c, g') ←
        remote_call spell driver ptx_path prop_size (spell "cuModuleLoadData")
          (call_items (result_arg 8 cu_module ∷ pointer_arg image ∷ [])) (ptr_target 8 ∷ [])
          u.client g
    some (code, effects, record u { client = c; window = window }, g')

  -- cuMemHostAlloc(pp, bytesize, Flags), with the address that `*pp` has.
  unfoldable pub mem_host_alloc :
      ℕ → ℕ → ℕ → Guest → GpuInstance S → Option (ℕ × Guest × GpuInstance S)
  mem_host_alloc p n flags u g = do
    (code, effects, c, g') ←
        remote_call spell driver ptx_path prop_size (spell "cuMemHostAlloc")
          (call_items (alloc_host_args p n flags)) [] u.client g
    some (code, record u { client = c }, g')

  -- cuOccupancyMaxPotentialBlockSize(minGridSize, blockSize, func, blockSizeToDynamicSMemSize,
  -- dynamicSMemSize, blockSizeLimit)
  unfoldable pub occupancy_max_potential_block_size :
      ℕ
      → ℕ
      → ℕ
      → ℕ
      → ℕ
      → ℕ
      → Guest
      → GpuInstance S
      → Option (ℕ × List Effect × Guest × GpuInstance S)
  occupancy_max_potential_block_size min_grid block func to_dynamic dynamic limit u g = do
    (code, effects, c, g') ←
        remote_call spell driver ptx_path prop_size (spell "cuOccupancyMaxPotentialBlockSize")
          (call_items (
            result_arg 4 min_grid
            ∷ result_arg 4 block
            ∷ handle_arg func
            ∷ pointer_arg to_dynamic
            ∷ value_arg 8 dynamic
            ∷ value_arg 4 limit
            ∷ []))
          (ptr_target 4 ∷ ptr_target 4 ∷ []) u.client g
    some (code, effects, record u { client = c }, g')

  -- cuGetExportTable(ppExportTable, pExportTableId): the 16 bytes of the identifier are sent.
  unfoldable pub get_export_table :
      ℕ → Guest → GpuInstance S → Option (ℕ × List Effect × Guest × GpuInstance S)
  get_export_table table_id u g = do
    (code, effects, c, g') ←
        remote_call spell driver ptx_path prop_size (spell "cuGetExportTable")
          (call_items (value_arg 16 table_id ∷ [])) (table_target ∷ []) u.client g
    some (code, effects, record u { client = c }, g')

  -- cudaGetDeviceCount(count): `result` is what the local of that name holds, which wait_recv takes
  -- by value, so that the hook returns it as it was.
  unfoldable pub runtime_device_count :
      ℕ → ℕ → Guest → GpuInstance S → Option (ℕ × List Effect × Guest × GpuInstance S)
  runtime_device_count count result u g = do
    (code, effects, c, g') ←
        remote_call spell driver ptx_path prop_size (spell "cudaGetDeviceCount")
          (call_items (result_arg 4 count ∷ [])) (plain_target 4 ∷ ptr_target 4 ∷ []) u.client g
    some (result, effects, record u { client = c }, g')

  -- cudaGetDevice(device)
  unfoldable pub runtime_get_device :
      ℕ → Guest → GpuInstance S → Option (ℕ × List Effect × Guest × GpuInstance S)
  runtime_get_device result u g = do
    (code, effects, c, g') ←
        remote_call spell driver ptx_path prop_size (spell "cudaGetDevice") []
          (plain_target 4 ∷ ptr_target 4 ∷ []) u.client g
    some (result, effects, record u { client = c }, g')

  -- cudaGetDeviceProperties(prop, device)
  unfoldable pub runtime_device_properties :
      ℕ → ℕ → Guest → GpuInstance S → Option (ℕ × List Effect × Guest × GpuInstance S)
  runtime_device_properties device result u g = do
    (code, effects, c, g') ←
        remote_call spell driver ptx_path prop_size (spell "cudaGetDeviceProperties")
          (call_items (value_arg 4 device ∷ [])) (plain_target 4 ∷ ptr_target prop_size ∷ [])
          u.client g
    some (result, effects, record u { client = c }, g')
