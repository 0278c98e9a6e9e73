-- ===== src/Gpu/Handlers.antt =====
-- The branches of `implement_cuda_function` that do more than pass results back, and the chain of
-- comparisons that chooses one.
use Prim.Native.String.{String}
use fan_master_thesis.Base.{
  ℕ, zero, suc, Option, none, some, List, [], ◌∷◌, ◌++◌, if◌then◌else◌, ◌==◌, ◌>>=◌,
}
use fan_master_thesis.Pinned.{register_pinned_memory}
use fan_master_thesis.Pinned.Convert.{in_client_pin, convert_pin}
use fan_master_thesis.Stream.Items.{words_kind}
use fan_master_thesis.Stream.Items
use fan_master_thesis.Stream.Deserializer.{Got, value, pointer, pointers}
use fan_master_thesis.Stream.Deserializer
use fan_master_thesis.Stream.Response.{Response, Operand, ptr, plain, opaque}
use fan_master_thesis.Stream.Response
use fan_master_thesis.Gpu.Params.{
  Param, by_value, by_handle, result, text_arg, raw_pointer, unread_text, param_kinds, Argument,
  number, handle_arg, local, text, address, kernel_args, arguments, Driver,
}
use fan_master_thesis.Gpu.Instance.{
  GpuInstance, Prepare, implement, as_read, reply_args, reply_code, reply_scalar,
}

-- The `i`-th argument as a number, and in place of it another argument.
unfoldable pub argument_at : ℕ → List Argument → ℕ
argument_at i [] = 0
argument_at zero (number n v ∷ rest) = v
argument_at zero (handle_arg v ∷ rest) = v
argument_at zero (address v ∷ rest) = v
argument_at zero (local n ∷ rest) = 0
argument_at zero (_ ∷ rest) = 0
argument_at (suc i) (a ∷ rest) = argument_at i rest

unfoldable pub replace : ℕ → Argument → List Argument → List Argument
replace i b [] = []
replace zero b (a ∷ rest) = b ∷ rest
replace (suc i) b (a ∷ rest) = a ∷ replace i b rest

module _ {S : Type 0} where
  -- std::get<i>(args) = convert_pin(client_ptr)
  unfoldable pub to_host_pin : ℕ → Prepare S
  unfolding argument_at replace
  to_host_pin i args g =
      let host = convert_pin g.pinned_memory.pin_start g.client_pin_start (argument_at i args) in
      (replace i (address host) args, g)

  -- if(is_pinned(client_ptr)) convert_pin(client_ptr) else vgpu_ptr_
  unfoldable pub to_host : ℕ → Prepare S
  unfolding argument_at replace to_host_pin
  to_host i args g =
      if in_client_pin g.client_pin_start (argument_at i args)
      then to_host_pin i args g
      else (replace i (address g.vgpu_ptr) args, g)

  -- cuMemHostAlloc: the window's start is set by the first call, a region is handed out, and it is
  -- the region that is registered with the driver.
  unfoldable pub register_host : Prepare S
  unfolding argument_at
  register_host args g =
      let client = argument_at 0 args in
      let size = argument_at 1 args in
      let (region, pinned) = register_pinned_memory size g.pinned_memory in
      (
        address region ∷ number 8 size ∷ number 4 (argument_at 2 args) ∷ [],
        record g {
          pinned_memory = pinned;
          client_pin_start = if g.client_pin_start == 0 then client else g.client_pin_start;
          registered = g.registered ++ (region ∷ []);
        },
      )

-- cuLaunchKernel, up to `void** kernelParams` and `void** extra`
abbrev pub launch_params : List Param
launch_params =
    by_handle
    ∷ by_value 4
    ∷ by_value 4
    ∷ by_value 4
    ∷ by_value 4
    ∷ by_value 4
    ∷ by_value 4
    ∷ by_value 4
    ∷ by_handle
    ∷ raw_pointer
    ∷ raw_pointer
    ∷ []

words_of : Items.Item → Option (List ℕ)
words_of (Items.raw n v) = none
words_of (Items.text cs) = none
words_of (Items.words ws) = some ws

-- What the driver reads through the pointers to the kernel's arguments.
unfoldable pub kernel_words : List ℕ → Got → Option (List ℕ)
unfolding words_of
kernel_words mem got = Deserializer.view mem words_kind got >>= λ it. words_of it

module _ {S : Type 0} (spell : String → List ℕ) (driver : Driver S) (ptx_path : List ℕ) where
  -- response_ << device << std::get<1>(args)
  unfoldable pub device_get : GpuInstance S → Option (GpuInstance S)
  unfolding implement argument_at
  device_get =
      implement driver (spell "cuDeviceGet") (result 4 ∷ by_value 4 ∷ []) as_read λ o args r.
        Response.set_curesult o.code r
        >>= Response.put_all (plain 4 (o.value_at 0) ∷ plain 4 (argument_at 1 args) ∷ [])

  -- response_ << cuctxs_.back().get()
  unfoldable pub ctx_create : GpuInstance S → Option (GpuInstance S)
  unfolding implement
  ctx_create =
      implement driver (spell "cuCtxCreate") (result 8 ∷ by_value 4 ∷ by_value 4 ∷ []) as_read
        λ o args r. Response.set_curesult o.code r >>= Response.put_all (ptr 8 (o.value_at 0) ∷ [])

  unfoldable pub mem_alloc : GpuInstance S → Option (GpuInstance S)
  unfolding implement reply_scalar
  mem_alloc =
      implement driver (spell "cuMemAlloc") (result 8 ∷ by_value 8 ∷ []) as_read reply_scalar

  unfoldable pub memcpy_htod : GpuInstance S → Option (GpuInstance S)
  unfolding implement to_host reply_code
  memcpy_htod =
      implement driver (spell "cuMemcpyHtoD") (by_value 8 ∷ raw_pointer ∷ by_value 8 ∷ [])
        (to_host 1) reply_code

  -- The arguments are read, and the module is loaded from a path of the host instead.
  unfoldable pub module_load : GpuInstance S → Option (GpuInstance S)
  unfolding implement reply_scalar
  module_load =
      implement driver (spell "cuModuleLoad") (result 8 ∷ unread_text ∷ [])
        (λ args g. (local 8 ∷ text ptx_path ∷ [], g)) reply_scalar

  -- The parameters are those of cuModuleLoad; the image is what the client wrote to the window.
  unfoldable pub module_load_data : GpuInstance S → Option (GpuInstance S)
  unfolding implement replace reply_scalar
  module_load_data =
      implement driver (spell "cuModuleLoadData") (result 8 ∷ unread_text ∷ [])
        (λ args g. (replace 1 (address g.vgpu_ptr) args, g)) reply_scalar

  -- response_ << minGridSize << blockSize; response_.set_curesult(result)
  unfoldable pub occupancy_max_potential_block_size : GpuInstance S → Option (GpuInstance S)
  unfolding implement
  occupancy_max_potential_block_size =
      implement driver (spell "cuOccupancyMaxPotentialBlockSize")
        (result 4 ∷ result 4 ∷ by_handle ∷ raw_pointer ∷ by_value 8 ∷ by_value 4 ∷ []) as_read
        λ o args r.
          Response.put_all (plain 4 (o.value_at 0) ∷ plain 4 (o.value_at 1) ∷ []) r
          >>= Response.set_curesult o.code

  unfoldable pub module_get_function : GpuInstance S → Option (GpuInstance S)
  unfolding implement reply_scalar
  module_get_function =
      implement driver (spell "cuModuleGetFunction") (result 8 ∷ by_handle ∷ text_arg ∷ []) as_read
        reply_scalar

  unfoldable pub memcpy_dtoh : GpuInstance S → Option (GpuInstance S)
  unfolding implement to_host reply_code
  memcpy_dtoh =
      implement driver (spell "cuMemcpyDtoH") (raw_pointer ∷ by_value 8 ∷ by_value 8 ∷ [])
        (to_host 0) reply_code

  unfoldable pub mem_host_alloc : GpuInstance S → Option (GpuInstance S)
  unfolding implement register_host reply_code
  mem_host_alloc =
      implement driver (spell "cuMemHostRegister") (raw_pointer ∷ by_value 8 ∷ by_value 4 ∷ [])
        register_host reply_code

  unfoldable pub memcpy_htod_async : GpuInstance S → Option (GpuInstance S)
  unfolding implement to_host_pin reply_code
  memcpy_htod_async =
      implement driver (spell "cuMemcpyHtoDAsync")
        (by_value 8 ∷ raw_pointer ∷ by_value 8 ∷ by_handle ∷ []) (to_host_pin 1) reply_code

  -- The table's address is a `const void*`, at which operator<< writes nothing.
  unfoldable pub get_export_table : GpuInstance S → Option (GpuInstance S)
  unfolding implement
  get_export_table =
      implement driver (spell "cuGetExportTable") (by_value 16 ∷ []) (λ args g. (local 8 ∷ args, g))
        λ o args r. Response.set_curesult o.code r >>= Response.put_all (opaque ∷ [])

  unfoldable pub mem_host_get_device_pointer : GpuInstance S → Option (GpuInstance S)
  unfolding implement to_host_pin reply_args
  mem_host_get_device_pointer =
      implement driver (spell "cuMemHostGetDevicePointer")
        (result 8 ∷ raw_pointer ∷ by_value 4 ∷ []) (to_host_pin 1) reply_args

  -- A second read brings the kernel's own arguments, which are passed by pointers into the buffer.
  unfoldable pub launch_kernel : GpuInstance S → Option (GpuInstance S)
  unfolding replace reply_code kernel_words
  launch_kernel g = do
    (gots, d) ← Deserializer.get_all (param_kinds launch_params) g.deserializer
    args ← arguments d.mdata launch_params gots
    (got, d') ← Deserializer.get words_kind d
    ws ← kernel_words d'.mdata got
    let args' = replace 9 (kernel_args ws) args
    let o = driver (spell "cuLaunchKernel") args' g.driver_state
    r ← reply_code {S = S} o args' g.response
    some (record g { deserializer = d'; response = r; driver_state = o.next })
