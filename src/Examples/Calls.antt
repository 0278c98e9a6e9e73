-- ===== src/Examples/Calls.antt =====
-- Remote calls of cuDeviceGetName and cuInit.
use fan_master_thesis.Base.{
  false, ℕ, ◌≤◌, ◌≡◌, refl, some, List, [], ◌∷◌, length, All, arith, le_bytes,
}
use fan_master_thesis.Stream.Items.{text, IsItem, encode_all}
use fan_master_thesis.Stream.Serializer.{buffer_size}
use fan_master_thesis.Client.{CudaClient, CallArg, value_arg, text_result_arg, call_items, IsClient}
use fan_master_thesis.Examples.Setup.{
  spelling, counting_driver, guest, host, guest-IsClient, host-IsHost,
}
use fan_master_thesis.Ptx.Input.{text_eq}
use fan_master_thesis.Gpu.Params.{Driver, operands}
use fan_master_thesis.Gpu.Signatures.{device_get_name, func_map}
use fan_master_thesis.Gpu.Instance.{GpuInstance}
use fan_master_thesis.Gpu.Chain.{plain_call, branch_of}
use fan_master_thesis.Remote.{
  IsHost, hook_remote, givens, direct_effects, sent_effects, has_null, AllWritten,
}
use fan_master_thesis.Remote.Request.{params_of}
use fan_master_thesis.Remote.Reply.{IsReturned}
use fan_master_thesis.Remote.Refinement.{outcome, hook_remote-direct, hook_remote-sends}
use fan_master_thesis.Remote.Session.{
  Call, IsCall, AllReturned, session, on_the_spot, session-on_the_spot,
}

abbrev name_args : List CallArg
name_args = text_result_arg 16 [] ∷ value_arg 4 16 ∷ value_arg 4 0 ∷ []

abbrev init_args : List CallArg
init_args = value_arg 4 0 ∷ []

name_chosen : branch_of spelling (78 ∷ []) ≡ some (plain_call (params_of name_args))
unfolding branch_of spelling text_eq device_get_name
name_chosen = refl

init_chosen : branch_of spelling (73 ∷ []) ≡ some (plain_call (params_of init_args))
unfolding branch_of spelling text_eq func_map
init_chosen = refl

name_items : All IsItem (call_items name_args)
name_items = (tt, (omega arith, (omega arith, tt)))

name_fits : length (encode_all (text (78 ∷ []) ∷ call_items name_args)) ≤ buffer_size
unfolding encode_all le_bytes
name_fits = omega arith

init_fits : length (encode_all (text (73 ∷ []) ∷ call_items init_args)) ≤ buffer_size
unfolding encode_all le_bytes
init_fits = omega arith

name-IsReturned : (s : ℕ) → IsReturned (counting_driver (78 ∷ []) (givens name_args) s) name_args
unfolding counting_driver operands
name-IsReturned s = record { coded = omega arith; fitting = (omega arith, tt); room = omega arith }

name_there : has_null name_args ≡ false
unfolding has_null
name_there = refl

init_there : has_null init_args ≡ false
unfolding has_null
init_there = refl

name-AllWritten : (s : ℕ) → AllWritten (counting_driver (78 ∷ []) (givens name_args) s) 0 name_args
unfolding counting_driver
name-AllWritten s = (refl, tt)

init-IsReturned : (s : ℕ) → IsReturned (counting_driver (73 ∷ []) (givens init_args) s) init_args
unfolding counting_driver operands
init-IsReturned s = record { coded = omega arith; fitting = tt; room = omega arith }

hook_remote-direct_example :
    (c' : CudaClient) × (g' : GpuInstance ℕ) × (hook_remote spelling counting_driver [] 0
        (78 ∷ [])
        name_args
        guest
        host
      ≡ some (
        (outcome spelling counting_driver [] 0 (78 ∷ []) name_args host).code,
        direct_effects (outcome spelling counting_driver [] 0 (78 ∷ []) name_args host) 0 name_args,
        c',
        g',
      ))
    × (g'.driver_state ≡ (outcome spelling counting_driver [] 0 (78 ∷ []) name_args host).next)
    × IsClient c'
    × IsHost g'
hook_remote-direct_example =
    hook_remote-direct spelling counting_driver [] 0 (78 ∷ []) name_args guest host guest-IsClient
      host-IsHost name_chosen (omega arith, tt) name_items name_fits (name-IsReturned 5) name_there
      (name-AllWritten 5)

abbrev pub program : List Call
program = (73 ∷ [], init_args) ∷ (78 ∷ [], name_args) ∷ []

pub program-IsCall : All (IsCall spelling) program
program-IsCall = (
  record {
    chosen = init_chosen;
    named = (omega arith, tt);
    items = (omega arith, tt);
    fits = init_fits;
    there = init_there;
  },
  (
    record {
      chosen = name_chosen;
      named = (omega arith, tt);
      items = name_items;
      fits = name_fits;
      there = name_there;
    },
    tt,
  ),
)

pub program-AllReturned : AllReturned spelling counting_driver [] 0 program 5
program-AllReturned = (init-IsReturned 5, tt, (name-IsReturned _, name-AllWritten _, tt))

session-on_the_spot_example :
    (end : GpuInstance ℕ) × (session spelling counting_driver [] 0 program guest host
      ≡ some ((on_the_spot spelling counting_driver [] 0 program 5).0, end))
    × (end.driver_state ≡ (on_the_spot spelling counting_driver [] 0 program 5).1)
    × IsHost end
session-on_the_spot_example =
    session-on_the_spot spelling counting_driver [] 0 program guest host guest-IsClient host-IsHost
      program-IsCall program-AllReturned

-- A driver that fails and writes nothing, and a local in which a text has been left.
unfoldable failing_driver : Driver ℕ
failing_driver name args s = record {
  code = 201;
  value_at = λ i. 77;
  text_at = λ i. 88 ∷ [];
  written = λ i. false;
  next = s;
}

failed-IsReturned : (s : ℕ) → IsReturned (failing_driver (78 ∷ []) (givens name_args) s) name_args
unfolding failing_driver operands
failed-IsReturned s = record {
  coded = omega arith;
  fitting = (omega arith, tt);
  room = omega arith;
}

hook_remote-sends_example :
    (c' : CudaClient) × (g' : GpuInstance ℕ) × (hook_remote spelling failing_driver [] 0
        (78 ∷ [])
        name_args
        guest
        host
      ≡ some (
        (outcome spelling failing_driver [] 0 (78 ∷ []) name_args host).code,
        sent_effects (outcome spelling failing_driver [] 0 (78 ∷ []) name_args host) 0 name_args,
        c',
        g',
      ))
    × (g'.driver_state ≡ (outcome spelling failing_driver [] 0 (78 ∷ []) name_args host).next)
    × IsClient c'
    × IsHost g'
hook_remote-sends_example =
    hook_remote-sends spelling failing_driver [] 0 (78 ∷ []) name_args guest host guest-IsClient
      host-IsHost name_chosen (omega arith, tt) name_items name_fits (failed-IsReturned 5)
      name_there
