-- ===== src/Examples/Hooks.antt =====
-- The hand-written hooks, and a name that the host does not know.
use fan_master_thesis.Base.{
  none, ◌+◌, ℕ, ◌≤◌, ◌<◌, ◌≡◌, ◌^◌, refl, Option, some, List, [], ◌∷◌, length, All, arith, le_bytes,
  read_at,
}
use fan_master_thesis.Stream.Items.{text, encode_all, word_size}
use fan_master_thesis.Stream.Serializer.{buffer_size}
use fan_master_thesis.Stream.Response.{result_size, stored, untouched}
use fan_master_thesis.Vgpu.Mapped
use fan_master_thesis.Ptx.Input.{text_eq}
use fan_master_thesis.Client.{CudaClient, call_items, IsClient}
use fan_master_thesis.Gpu.Instance.{GpuInstance}
use fan_master_thesis.Gpu.Chain.{branch_of, memcpy_dtoh_branch, mem_alloc_branch}
use fan_master_thesis.Remote.{IsHost, hook_remote}
use fan_master_thesis.Remote.Hooks.{Guest, dtoh_args, memcpy_dtoh}
use fan_master_thesis.Remote.Copies.{dtoh_outcome, memcpy_dtoh-direct}
use fan_master_thesis.Remote.Scalar.{alloc_args, alloc_outcome, mem_alloc-direct}
use fan_master_thesis.Examples.Setup.{
  spelling, counting_driver, guest, host, guest-IsClient, host-IsHost,
}

-- A guest with a window of four bytes, that knows the function 9 as `k` with two parameters.
abbrev program : Guest
program = record {
  client = guest;
  window = record { window = some (0 ∷ 0 ∷ 0 ∷ 0 ∷ []); vgpu_size = 4 };
  hashfunc = (9, 107 ∷ []) ∷ [];
  func_proto = (107 ∷ [], (46 ∷ []) ∷ (46 ∷ []) ∷ []) ∷ [];
}

-- Names of one character.
name_fits : (ch : ℕ) → 0 < ch → All (λ c. 0 < c) (ch ∷ [])
name_fits ch h = (h, tt)

dtoh_chosen : branch_of spelling (spelling "cuMemcpyDtoH") ≡ some memcpy_dtoh_branch
unfolding branch_of spelling text_eq
dtoh_chosen = refl

alloc_chosen : branch_of spelling (spelling "cuMemAlloc") ≡ some mem_alloc_branch
unfolding branch_of spelling text_eq
alloc_chosen = refl

dtoh_named : All (λ ch. 0 < ch) (spelling "cuMemcpyDtoH")
unfolding spelling
dtoh_named = name_fits 68 (omega arith)

alloc_named : All (λ ch. 0 < ch) (spelling "cuMemAlloc")
unfolding spelling
alloc_named = name_fits 65 (omega arith)

dtoh_sent :
    length (encode_all (text (spelling "cuMemcpyDtoH") ∷ call_items (dtoh_args 128 64 2)))
    ≤ buffer_size
unfolding encode_all le_bytes spelling
dtoh_sent = omega arith

alloc_sent :
    length (encode_all (text (spelling "cuMemAlloc") ∷ call_items (alloc_args 128 64)))
    ≤ buffer_size
unfolding encode_all le_bytes spelling
alloc_sent = omega arith

-- What the window's file adds to the state of the driver, which here is a number.
abbrev put_window : Option (List ℕ) → ℕ → ℕ
put_window none s = s
put_window (some file) s = s + length file

dtoh_coded : (dtoh_outcome spelling counting_driver [] 0 128 64 2 host).code < 256 ^ result_size
unfolding counting_driver
dtoh_coded = omega arith

-- After every call the device file begins with 5 and 6.
abbrev device_file : ℕ → Option (List ℕ)
device_file s = some (5 ∷ 6 ∷ 0 ∷ 0 ∷ [])

file_begins : read_at (5 ∷ 6 ∷ 0 ∷ 0 ∷ []) 0 2 ≡ some (5 ∷ 6 ∷ [])
unfolding read_at
file_begins = refl

memcpy_dtoh-direct_example :
    (u' : Guest) × (g' : GpuInstance ℕ) × (memcpy_dtoh spelling counting_driver [] 0 device_file 128
        64 2 program host
      ≡ some ((dtoh_outcome spelling counting_driver [] 0 128 64 2 host).code, 5 ∷ 6 ∷ [], u', g'))
    × (g'.driver_state ≡ (dtoh_outcome spelling counting_driver [] 0 128 64 2 host).next)
    × IsClient u'.client
    × IsHost g'
memcpy_dtoh-direct_example =
    memcpy_dtoh-direct spelling counting_driver [] 0 device_file 128 64 2 (5 ∷ 6 ∷ 0 ∷ 0 ∷ [])
      (5 ∷ 6 ∷ []) program host guest-IsClient host-IsHost dtoh_chosen dtoh_named
      (omega arith, (omega arith, (omega arith, tt))) dtoh_sent dtoh_coded refl (omega arith)
      file_begins

alloc_coded : (alloc_outcome spelling counting_driver [] 0 64 host).code < 256 ^ result_size
unfolding counting_driver
alloc_coded = omega arith

alloc_valued : (alloc_outcome spelling counting_driver [] 0 64 host).value_at 0 < 256 ^ word_size
unfolding counting_driver
alloc_valued = omega arith

mem_alloc-direct_example :
    (c' : CudaClient) × (g' : GpuInstance ℕ) × (hook_remote spelling counting_driver [] 0
        (spelling "cuMemAlloc")
        (alloc_args 128 64)
        guest
        host
      ≡ some (
        (alloc_outcome spelling counting_driver [] 0 64 host).code,
        stored ((alloc_outcome spelling counting_driver [] 0 64 host).value_at 0) ∷ untouched ∷ [],
        c',
        g',
      ))
    × (g'.driver_state ≡ (alloc_outcome spelling counting_driver [] 0 64 host).next)
    × IsClient c'
    × IsHost g'
mem_alloc-direct_example =
    mem_alloc-direct spelling counting_driver [] 0 128 64 guest host guest-IsClient host-IsHost
      alloc_chosen alloc_named (omega arith, (omega arith, tt)) alloc_sent refl alloc_coded
      alloc_valued
