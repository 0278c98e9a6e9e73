-- ===== src/Examples/Setup.antt =====
-- A guest and a host between two calls, and a driver that counts its calls.
use package.text.Mathlib.Text.{◌==◌}
use Prim.Native.String.{String}
use fan_master_thesis.Base.{
  true, ℕ, ◌+◌, ◌≡◌, refl, List, [], ◌∷◌, length, replicate, length-replicate, arith, if◌then◌else◌,
}
use fan_master_thesis.Stream.Serializer.{buffer_size}
use fan_master_thesis.Stream.Response.{msize, result_size}
use fan_master_thesis.Client.{CudaClient, IsClient}
use fan_master_thesis.Gpu.Params.{Driver}
use fan_master_thesis.Gpu.Instance.{GpuInstance}
use fan_master_thesis.Remote.{IsHost}

-- Short spellings of the symbols.
unfoldable pub spelling : String → List ℕ
spelling s =
    if s == "cuDeviceGetName"
    then 78 ∷ []
    else if s == "cuInit"
    then 73 ∷ []
    else if s == "cuMemcpyHtoD"
    then 72 ∷ []
    else if s == "cuMemcpyDtoH"
    then 68 ∷ []
    else if s == "cuLaunchKernel"
    then 76 ∷ []
    else if s == "cuMemAlloc"
    then 65 ∷ []
    else if s == "cuModuleGetFunction"
    then 70 ∷ []
    else if s == "cuMemHostAlloc"
    then 80 ∷ []
    else if s == "cuModuleLoad"
    then 77 ∷ []
    else 63 ∷ []

-- Every call succeeds with the text "GPU" and the number of the call.
unfoldable pub counting_driver : Driver ℕ
counting_driver name args s = record {
  code = 0;
  value_at = λ i. 0;
  text_at = λ i. 71 ∷ 80 ∷ 85 ∷ [];
  written = λ i. true;
  next = s + 1;
}

abbrev pub bytes : ℕ → List ℕ
bytes n = replicate n 0

pub bytes-size : (n : ℕ) → length (bytes n) ≡ n
bytes-size n = length-replicate n 0

abbrev pub guest : CudaClient
guest = record {
  serializer = record { mdata = bytes buffer_size; mcount = 0 };
  response = record { mdata = bytes msize; at = result_size };
}

abbrev pub host : GpuInstance ℕ
host = record {
  deserializer = record { mdata = bytes buffer_size; mcount = 0 };
  response = record { mdata = bytes msize; at = result_size };
  vgpu_ptr = 0;
  pinned_memory = record { alloc_pos = 0; pin_start = 0; pin_size = 0; hashmap = [] };
  client_pin_start = 0;
  registered = [];
  driver_state = 5;
}

pub guest-IsClient : IsClient guest
guest-IsClient = record {
  serial = record { sized = bytes-size buffer_size; within = omega arith };
  empty = refl;
  sized = bytes-size msize;
  at_start = refl;
}

pub host-IsHost : IsHost host
host-IsHost = record { receives = bytes-size buffer_size; replies = bytes-size msize }
