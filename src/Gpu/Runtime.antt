-- ===== src/Gpu/Runtime.antt =====
-- The branches of `implement_cuda_function` for functions of the CUDA runtime.
use Prim.Native.String.{String}
use fan_master_thesis.Base.{ℕ, Option, List, [], ◌∷◌, ◌>>=◌}
use fan_master_thesis.Stream.Response.{plain}
use fan_master_thesis.Stream.Response
use fan_master_thesis.Gpu.Params.{by_value, result, local, operands, Driver}
use fan_master_thesis.Gpu.Instance.{GpuInstance, Reply, implement, as_read}

module _ {S : Type 0} where
  -- response_ << ret, where `ret` is an `int` that the driver filled in, behind the status.
  unfoldable pub reply_status_value : ℕ → Reply S
  reply_status_value n o args r = Response.put_all (plain 4 o.code ∷ plain n (o.value_at 0) ∷ []) r

module _ {S : Type 0} (spell : String → List ℕ) (driver : Driver S) (ptx_path : List ℕ) where
  -- The first branch of that name. CUDA_SUCCESS is reported whatever the call returned.
  unfoldable pub get_device_properties : ℕ → GpuInstance S → Option (GpuInstance S)
  unfolding implement
  get_device_properties prop_size =
      implement driver (spell "cudaGetDeviceProperties") (result prop_size ∷ by_value 4 ∷ [])
        as_read λ o args r. Response.set_curesult 0 r >>= Response.put_all (operands o 0 args)

  unfoldable pub runtime_device_count : GpuInstance S → Option (GpuInstance S)
  unfolding implement reply_status_value
  runtime_device_count =
      implement driver (spell "cudaGetDeviceCount") [] (λ args g. (local 4 ∷ [], g))
        (reply_status_value 4)

  unfoldable pub runtime_get_device : GpuInstance S → Option (GpuInstance S)
  unfolding implement reply_status_value
  runtime_get_device =
      implement driver (spell "cudaGetDevice") [] (λ args g. (local 4 ∷ [], g))
        (reply_status_value 4)

  -- The second branch of that name, which reads the one argument that the hook sends.
  unfoldable pub get_device_properties_of : ℕ → GpuInstance S → Option (GpuInstance S)
  unfolding implement reply_status_value
  get_device_properties_of prop_size =
      implement driver (spell "cudaGetDeviceProperties") (by_value 4 ∷ [])
        (λ args g. (local prop_size ∷ args, g)) (reply_status_value prop_size)
