-- ===== src/Examples/Modules.antt =====
-- Modules, functions, pinned memory and the table of hooks.
use fan_master_thesis.Base.{
  ℕ, ◌≤◌, ◌<◌, ◌≡◌, ◌^◌, refl, some, [], ◌∷◌, length, All, arith, le_bytes, get_elem?,
}
use fan_master_thesis.Stream.Items.{text, encode_all, word_size}
use fan_master_thesis.Stream.Serializer.{buffer_size}
use fan_master_thesis.Stream.Response.{result_size}
use fan_master_thesis.Ptx.Input.{text_eq}
use fan_master_thesis.Ptx.{get_params}
use fan_master_thesis.Client.{call_items, IsClient}
use fan_master_thesis.Gpu.Params.{by_value}
use fan_master_thesis.Gpu.Signatures.{func_map}
use fan_master_thesis.Gpu.Instance.{GpuInstance}
use fan_master_thesis.Gpu.Chain.{
  branch_of, chain, module_get_function_branch, mem_host_alloc_branch,
}
use fan_master_thesis.Remote.{IsHost}
use fan_master_thesis.Remote.Hooks.{Guest, Launch, module_get_function}
use fan_master_thesis.Remote.Launch.{kernel_types}
use fan_master_thesis.Remote.Modules.{alloc_host_args, mem_host_alloc}
use fan_master_thesis.Remote.Naming.{function_args, function_outcome, module_get_function-direct}
use fan_master_thesis.Remote.Pinning.{registers, pin_outcome, mem_host_alloc-direct}
use fan_master_thesis.Remote.Table.Spelling.{IsTold, told, same}
use fan_master_thesis.Remote.Table.{remote_hooks, host_symbol, answer_to, hook_row-typed}
use fan_master_thesis.Examples.Setup.{
  spelling, counting_driver, guest, host, guest-IsClient, host-IsHost,
}

-- A guest that knows one kernel, `k`, with a parameter.
abbrev program : Guest
program = record {
  client = guest;
  window = record { window = some (0 ∷ 0 ∷ 0 ∷ 0 ∷ []); vgpu_size = 4 };
  hashfunc = [];
  func_proto = (107 ∷ [], (46 ∷ []) ∷ []) ∷ [];
}

-- Names of one character.
name_fits : (ch : ℕ) → 0 < ch → All (λ c. 0 < c) (ch ∷ [])
name_fits ch h = (h, tt)

function_chosen :
    branch_of spelling (spelling "cuModuleGetFunction") ≡ some module_get_function_branch
unfolding branch_of spelling text_eq
function_chosen = refl

function_named : All (λ ch. 0 < ch) (spelling "cuModuleGetFunction")
unfolding spelling
function_named = name_fits 70 (omega arith)

function_sent :
    length (
      encode_all
        (text (spelling "cuModuleGetFunction") ∷ call_items (function_args 64 128 (107 ∷ []))))
    ≤ buffer_size
unfolding encode_all le_bytes spelling
function_sent = omega arith

function_coded :
    (function_outcome spelling counting_driver [] 0 128 (107 ∷ []) host).code < 256 ^ result_size
unfolding counting_driver
function_coded = omega arith

function_valued :
    (function_outcome spelling counting_driver [] 0 128 (107 ∷ []) host).value_at 0
    < 256 ^ word_size
unfolding counting_driver
function_valued = omega arith

module_get_function-direct_example :
    (u' : Guest) × (g' : GpuInstance ℕ) × (module_get_function spelling counting_driver [] 0 64 128
        (107 ∷ [])
        program
        host
      ≡ some (
        (function_outcome spelling counting_driver [] 0 128 (107 ∷ []) host).code,
        (function_outcome spelling counting_driver [] 0 128 (107 ∷ []) host).value_at 0,
        u',
        g',
      ))
    × (g'.driver_state ≡ (function_outcome spelling counting_driver [] 0 128 (107 ∷ []) host).next)
    × IsClient u'.client
    × IsHost g'
    × ((l : Launch)
        → kernel_types
            (record l {
              function =
                  (function_outcome spelling counting_driver [] 0 128 (107 ∷ []) host).value_at 0;
            })
            u'
          ≡ (get_params (107 ∷ []) program.func_proto).0)
module_get_function-direct_example =
    module_get_function-direct spelling counting_driver [] 0 64 128 (107 ∷ []) program host
      guest-IsClient host-IsHost function_chosen function_named
      (omega arith, (omega arith, ((omega arith, tt), tt))) function_sent function_coded
      function_valued

pin_chosen : branch_of spelling (spelling "cuMemHostAlloc") ≡ some mem_host_alloc_branch
unfolding branch_of spelling text_eq
pin_chosen = refl

pin_named : All (λ ch. 0 < ch) (spelling "cuMemHostAlloc")
unfolding spelling
pin_named = name_fits 80 (omega arith)

pin_sent :
    length (encode_all (text (spelling "cuMemHostAlloc") ∷ call_items (alloc_host_args 4096 64 0)))
    ≤ buffer_size
unfolding encode_all le_bytes spelling
pin_sent = omega arith

pin_coded : (pin_outcome spelling counting_driver [] 0 64 0 host).code < 256 ^ result_size
unfolding counting_driver
pin_coded = omega arith

mem_host_alloc-direct_example :
    (u' : Guest) × (g' : GpuInstance ℕ) × (mem_host_alloc spelling counting_driver [] 0 4096 64 0
        program host
      ≡ some ((pin_outcome spelling counting_driver [] 0 64 0 host).code, u', g'))
    × (g'.driver_state ≡ (pin_outcome spelling counting_driver [] 0 64 0 host).next)
    × (g'.pinned_memory ≡ (registers 4096 64 host).pinned_memory)
    × (g'.client_pin_start ≡ (registers 4096 64 host).client_pin_start)
    × (g'.registered ≡ (registers 4096 64 host).registered)
    × IsClient u'.client
    × IsHost g'
mem_host_alloc-direct_example =
    mem_host_alloc-direct spelling counting_driver [] 0 4096 64 0 program host guest-IsClient
      host-IsHost pin_chosen pin_named (omega arith, (omega arith, (omega arith, tt))) pin_sent
      pin_coded

init-IsTold : IsTold spelling (host_symbol "cuInit")
unfolding host_symbol told same spelling text_eq chain func_map
init-IsTold = (refl, refl)

init_row : get_elem? remote_hooks 0 ≡ some ("cuInit", by_value 4 ∷ [])
unfolding remote_hooks
init_row = refl

init_sent : spelling "cuInit" ≡ spelling (host_symbol "cuInit")
unfolding host_symbol
init_sent = refl

hook_row-typed_example :
    branch_of spelling (spelling "cuInit") ≡ answer_to ("cuInit", by_value 4 ∷ [])
hook_row-typed_example =
    hook_row-typed spelling spelling 0 "cuInit" (by_value 4 ∷ []) init_row init_sent init-IsTold
