-- ===== src/Examples/Launches.antt =====
-- A kernel launch, a name that the host does not know, and a read that returns nothing.
use fan_master_thesis.Base.{
  true, false, ℕ, ◌+◌, ◌≤◌, ◌<◌, ◌≡◌, ◌^◌, refl, Option, none, some, List, [], ◌∷◌, length, All,
  arith, le_bytes, from_le, read_at, write_at, c_string,
}
use fan_master_thesis.Stream.Items.{text, IsItem, encode_all}
use fan_master_thesis.Stream.Serializer.{buffer_size}
use fan_master_thesis.Stream.Response.{result_size, curesult, get_all}
use fan_master_thesis.Stream.Deserializer
use fan_master_thesis.Ptx.Input.{text_eq}
use fan_master_thesis.Ptx.{get_params}
use fan_master_thesis.Client.{CudaClient, call_items, IsClient}
use fan_master_thesis.Gpu.Params.{Outcome}
use fan_master_thesis.Gpu.Instance.{GpuInstance, pull_command, name_behind}
use fan_master_thesis.Gpu.Stale.{pull_command-again}
use fan_master_thesis.Gpu.Signatures.{func_map}
use fan_master_thesis.Gpu.Chain.{branch_of, launch_kernel_branch}
use fan_master_thesis.Remote.{IsHost, hook_remote, has_null, sent_effects}
use fan_master_thesis.Remote.Hooks.{
  Guest, Launch, launch_args, launch_kernel, function_name, scalar_args,
}
use fan_master_thesis.Remote.Launch.{
  launch_outcome, launch_items, kernel_types, launch_kernel-direct,
}
use fan_master_thesis.Remote.Reply.{Carries}
use fan_master_thesis.Remote.Unanswered.{hook_remote-unanswered}
use fan_master_thesis.Examples.Setup.{
  spelling, counting_driver, guest, host, guest-IsClient, host-IsHost,
}

abbrev kernel : Launch
kernel = record {
  function = 9;
  grid_x = 1;
  grid_y = 1;
  grid_z = 1;
  block_x = 32;
  block_y = 1;
  block_z = 1;
  shared_bytes = 0;
  stream = 0;
  kernel_params = 512;
  extra = 0;
}

-- A guest that knows the function 9 as `k` with two parameters.
abbrev program : Guest
program = record {
  client = guest;
  window = record { window = none; vgpu_size = 4 };
  hashfunc = (9, 107 ∷ []) ∷ [];
  func_proto = (107 ∷ [], (46 ∷ []) ∷ (46 ∷ []) ∷ []) ∷ [];
}

abbrev behind : ℕ → Option ℕ
behind i = some (i + 40)

launch_chosen : branch_of spelling (spelling "cuLaunchKernel") ≡ some launch_kernel_branch
unfolding branch_of spelling text_eq
launch_chosen = refl

launch_named : All (λ ch. 0 < ch) (spelling "cuLaunchKernel")
unfolding spelling
launch_named = (omega arith, tt)

params_read : scalar_args behind 0 (length (kernel_types kernel program)) ≡ some (40 ∷ 41 ∷ [])
unfolding scalar_args function_name get_params text_eq
params_read = refl

launch_sent :
    length (encode_all (text (spelling "cuLaunchKernel") ∷ launch_items kernel (40 ∷ 41 ∷ [])))
    ≤ buffer_size
unfolding encode_all le_bytes spelling
launch_sent = omega arith

launch_coded :
    (launch_outcome spelling counting_driver [] 0 kernel (40 ∷ 41 ∷ []) host).code
    < 256 ^ result_size
unfolding counting_driver
launch_coded = omega arith

kernel_items : All IsItem (call_items (launch_args kernel))
kernel_items = omega arith

launch_kernel-direct_example :
    (u' : Guest) × (g' : GpuInstance ℕ) × (launch_kernel spelling counting_driver [] 0 kernel behind
        program host
      ≡ some
          ((launch_outcome spelling counting_driver [] 0 kernel (40 ∷ 41 ∷ []) host).code, u', g'))
    × (g'.driver_state
        ≡ (launch_outcome spelling counting_driver [] 0 kernel (40 ∷ 41 ∷ []) host).next)
    × IsClient u'.client
    × IsHost g'
launch_kernel-direct_example =
    launch_kernel-direct spelling counting_driver [] 0 kernel behind (40 ∷ 41 ∷ []) program host
      guest-IsClient host-IsHost launch_chosen launch_named params_read kernel_items
      ((omega arith, (omega arith, tt)), omega arith) launch_sent launch_coded

nobody : branch_of spelling (1 ∷ []) ≡ none
unfolding branch_of spelling text_eq func_map
nobody = refl

nobody_sent : length (encode_all (text (1 ∷ []) ∷ call_items [])) ≤ buffer_size
unfolding encode_all le_bytes
nobody_sent = omega arith

-- The host's reply is all zeros.
abbrev zeros : Outcome ℕ
zeros = record { code = 0; value_at = λ i. 0; text_at = λ i. []; written = λ i. true; next = 0 }

zeros-Carries : Carries zeros [] host.response
unfolding get_all sent_effects curesult read_at from_le
zeros-Carries = record { results = (result_size, refl); code = refl; sized = host-IsHost.replies }

nobody_there : has_null [] ≡ false
unfolding has_null
nobody_there = refl

hook_remote-unanswered_example :
    (c' : CudaClient) × (g' : GpuInstance ℕ) × (hook_remote spelling counting_driver [] 0
        (1 ∷ [])
        []
        guest
        host
      ≡ some (0, sent_effects zeros 0 [], c', g'))
    × (g'.driver_state ≡ 5)
    × IsClient c'
    × IsHost g'
hook_remote-unanswered_example =
    hook_remote-unanswered spelling counting_driver [] 0 (1 ∷ []) [] zeros guest host guest-IsClient
      host-IsHost nobody (omega arith, tt) tt nobody_sent zeros-Carries nobody_there

-- A host with a small buffer, which receives the name "A".
abbrev small : GpuInstance ℕ
small = record host {
  deserializer = record { mdata = 0 ∷ 0 ∷ 0 ∷ 0 ∷ 0 ∷ 0 ∷ 0 ∷ 0 ∷ 0 ∷ 0 ∷ []; mcount = 0 };
}

abbrev request : List ℕ
request = 1 ∷ 0 ∷ 0 ∷ 0 ∷ 0 ∷ 0 ∷ 0 ∷ 0 ∷ 65 ∷ 0 ∷ []

abbrev served : GpuInstance ℕ
served = record host { deserializer = record { mdata = request; mcount = 10 } }

pulled : pull_command request small ≡ some (65 ∷ [], served)
unfolding pull_command Deserializer.clean Deserializer.get Deserializer.get_text
    Deserializer.get_value write_at read_at from_le name_behind c_string
pulled = refl

pull_command-again_example :
    pull_command [] served ≡ some (65 ∷ [], record served { deserializer = served.deserializer })
pull_command-again_example = pull_command-again request (65 ∷ []) small served served pulled refl
