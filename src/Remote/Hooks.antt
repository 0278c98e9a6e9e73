-- ===== src/Remote/Hooks.antt =====
-- Hand-written hooks of interception/interception.cpp: copies between host and device, and kernels.
-- `__func__` in a hook is the name of the function, which SYMBOL_TO_STR spells on the host.
use Prim.Native.String.{String}
use fan_master_thesis.Base.{
  ℕ, zero, suc, Option, some, List, [], ◌∷◌, ◌++◌, length, ◌==◌, if◌then◌else◌, ◌>>=◌,
}
use fan_master_thesis.Stream.Items.{words}
use fan_master_thesis.Vgpu.Mapped.{VirtualGpu}
use fan_master_thesis.Vgpu.Mapped
use fan_master_thesis.Ptx.{Protos, get_params}
use fan_master_thesis.Client.{
  CudaClient, CallArg, value_arg, handle_arg, result_arg, text_arg, pointer_arg, call_items,
}
use fan_master_thesis.Stream.Response
use fan_master_thesis.Gpu.Params.{Driver}
use fan_master_thesis.Gpu.Instance.{GpuInstance}
use fan_master_thesis.Remote.{remote_call}

-- The globals of the guest's library: the client with its window, the names of the functions that
-- handles stand for, and the parameter types of kernels.
pub record Guest : Type 0 where
  pub client : CudaClient
  pub window : VirtualGpu
  pub hashfunc : List (ℕ × List ℕ)
  pub func_proto : Protos

-- hashfunc[f], which puts an empty name in where there is none
unfoldable pub function_name : ℕ → List (ℕ × List ℕ) → List ℕ × List (ℕ × List ℕ)
function_name f [] = ([], (f, []) ∷ [])
function_name f ((h, name) ∷ m) =
    let (found, rest) = function_name f m in
    if h == f then (name, (h, name) ∷ m) else (found, (h, name) ∷ rest)

-- hashfunc[f] = name
unfoldable pub name_function : ℕ → List ℕ → List (ℕ × List ℕ) → List (ℕ × List ℕ)
name_function f name [] = (f, name) ∷ []
name_function f name ((h, old) ∷ m) =
    if h == f then (h, name) ∷ m else (h, old) ∷ name_function f name m

-- scalar_args: the 8 bytes behind each of the first `n` pointers of kernelParams, from the i-th on.
-- `behind` is the guest's memory, `none` where the read faults.
unfoldable pub scalar_args : (ℕ → Option ℕ) → ℕ → ℕ → Option (List ℕ)
scalar_args behind i zero = some []
scalar_args behind i (suc n) = do w ← behind i; ws ← scalar_args behind (suc i) n; some (w ∷ ws)

-- The arguments of cuLaunchKernel; `sizes` are the grid's, the block's, and the shared memory's.
pub record Launch : Type 0 where
  pub function : ℕ
  pub grid_x : ℕ
  pub grid_y : ℕ
  pub grid_z : ℕ
  pub block_x : ℕ
  pub block_y : ℕ
  pub block_z : ℕ
  pub shared_bytes : ℕ
  pub stream : ℕ
  pub kernel_params : ℕ
  pub extra : ℕ

abbrev pub launch_args : Launch → List CallArg
launch_args l =
    handle_arg l.function
    ∷ value_arg 4 l.grid_x
    ∷ value_arg 4 l.grid_y
    ∷ value_arg 4 l.grid_z
    ∷ value_arg 4 l.block_x
    ∷ value_arg 4 l.block_y
    ∷ value_arg 4 l.block_z
    ∷ value_arg 4 l.shared_bytes
    ∷ handle_arg l.stream
    ∷ pointer_arg l.kernel_params
    ∷ pointer_arg l.extra
    ∷ []

abbrev pub htod_args : ℕ → ℕ → ℕ → List CallArg
htod_args dst src n = value_arg 8 dst ∷ pointer_arg src ∷ value_arg 8 n ∷ []

abbrev pub dtoh_args : ℕ → ℕ → ℕ → List CallArg
dtoh_args dst src n = pointer_arg dst ∷ value_arg 8 src ∷ value_arg 8 n ∷ []

module _ {S : Type 0} (spell : String → List ℕ) (driver : Driver S) (ptx_path : List ℕ)
    (prop_size : ℕ) where
  -- cuMemcpyHtoD(dstDevice, srcHost, ByteCount); `bytes` is what stands at `src`. The host's driver
  -- works on a state in which the file of the guest's window is mapped: `share` puts what the window
  -- holds into it.
  unfoldable pub memcpy_htod :
      (Option (List ℕ) → S → S)
      → ℕ
      → ℕ
      → List ℕ
      → Guest
      → GpuInstance S
      → Option (ℕ × Guest × GpuInstance S)
  memcpy_htod share dst src bytes u g = do
    window ← Mapped.to_device (some bytes) u.window
    let shared = record g { driver_state = share window.window g.driver_state }
    (code, effects, c, g') ←
        remote_call spell driver ptx_path prop_size (spell "cuMemcpyHtoD")
          (call_items (htod_args dst src (length bytes))) [] u.client shared
    some (code, record u { client = c; window = window }, g')

  -- cuMemcpyDtoH(dstHost, srcDevice, ByteCount): the code, and the bytes that are stored at `dst`.
  -- `device_file` is what the guest finds in its device file, in a state of the host.
  unfoldable pub memcpy_dtoh :
      (S → Option (List ℕ))
      → ℕ
      → ℕ
      → ℕ
      → Guest
      → GpuInstance S
      → Option (ℕ × List ℕ × Guest × GpuInstance S)
  memcpy_dtoh device_file dst src n u g = do
    (code, effects, c, g') ←
        remote_call spell driver ptx_path prop_size (spell "cuMemcpyDtoH")
          (call_items (dtoh_args dst src n)) [] u.client g
    (bytes, window) ← Mapped.from_device (device_file g'.driver_state) n u.window
    some (code, bytes, record u { client = c; window = window }, g')

  -- cuModuleGetFunction(hfunc, hmod, name): the code, and the handle that is stored at `hfunc`.
  unfoldable pub module_get_function :
      ℕ → ℕ → List ℕ → Guest → GpuInstance S → Option (ℕ × ℕ × Guest × GpuInstance S)
  unfolding name_function
  module_get_function hfunc hmod name u g = do
    (code, effects, c, g') ←
        remote_call spell driver ptx_path prop_size (spell "cuModuleGetFunction")
          (call_items (result_arg 8 hfunc ∷ handle_arg hmod ∷ text_arg name ∷ [])) [] u.client g
    f ← Response.cuscalar c.response
    some (code, f, record u { client = c; hashfunc = name_function f name u.hashfunc }, g')

  -- cuLaunchKernel
  unfoldable pub launch_kernel :
      Launch → (ℕ → Option ℕ) → Guest → GpuInstance S → Option (ℕ × Guest × GpuInstance S)
  unfolding function_name scalar_args
  launch_kernel l behind u g = do
    let (name, hashfunc) = function_name l.function u.hashfunc
    let (types, protos) = get_params name u.func_proto
    ws ← scalar_args behind 0 (length types)
    (code, effects, c, g') ←
        remote_call spell driver ptx_path prop_size (spell "cuLaunchKernel")
          (call_items (launch_args l) ++ (words ws ∷ [])) [] u.client g
    some (code, record u { client = c; hashfunc = hashfunc; func_proto = protos }, g')
