-- ===== src/Remote/Refinement.antt =====
-- A remote call is a call of the driver.
use Prim.Native.String.{String}
use fan_master_thesis.Base.{false, ℕ, ◌≤◌, ◌<◌, ◌≡◌, refl, some, List, ◌∷◌, length, All}
use fan_master_thesis.Stream.Items.{text, IsItem, encode_all}
use fan_master_thesis.Stream.Serializer.{buffer_size}
use fan_master_thesis.Client.{CudaClient, CallArg, call_items, IsClient}
use fan_master_thesis.Gpu.Params.{Outcome, Driver}
use fan_master_thesis.Gpu.Instance.{GpuInstance, implement, implement_plain, as_read, reply_args}
use fan_master_thesis.Gpu.Chain.{plain_call, branch_of, run_branch, dispatch}
use fan_master_thesis.Remote.{
  IsHost, hook_remote, givens, sent_effects, direct_effects, has_null, AllWritten,
  sent_effects-direct,
}
use fan_master_thesis.Remote.Request.{params_of}
use fan_master_thesis.Remote.Branches.{implement-Runs, remote_call-Runs}
use fan_master_thesis.Remote.Reply.{IsReturned, reply_args-Carries}

module _ {S : Type 0} (spell : String → List ℕ) (driver : Driver S) (ptx_path : List ℕ)
    (prop_size : ℕ) where
  -- What the call comes to when it is made in the guest's place.
  abbrev pub outcome : List ℕ → List CallArg → GpuInstance S → Outcome S
  outcome name args g = driver name (givens args) g.driver_state

  -- Whether the driver has written its results or not, the hook leaves in the guest's memory, in the
  -- place of each result, whatever stands in the host's local for it once the driver has returned: a
  -- failing call that writes nothing overwrites the results of the guest all the same. The hook
  -- returns the driver's code. The conditions are those of a call that a plain branch answers to.
  pub hook_remote-sends :
      (name : List ℕ) (args : List CallArg) (c : CudaClient) (g : GpuInstance S)
      → IsClient c
      → IsHost g
      → branch_of spell name ≡ some (plain_call (params_of args))
      → All (λ ch. 0 < ch) name
      → All IsItem (call_items args)
      → length (encode_all (text name ∷ call_items args)) ≤ buffer_size
      → IsReturned (outcome name args g) args
      → has_null args ≡ false
      → (c' : CudaClient) × (g' : GpuInstance S) × (hook_remote spell driver ptx_path prop_size name
            args c g
          ≡ some ((outcome name args g).code, sent_effects (outcome name args g) 0 args, c', g'))
        × (g'.driver_state ≡ (outcome name args g).next)
        × IsClient c'
        × IsHost g'
  unfolding hook_remote implement_plain
  hook_remote-sends name args c g hc hg chosen named ok fits h there = rw there (
      remote_call-Runs spell driver ptx_path prop_size name args args
        (implement driver name (params_of args) as_read reply_args) (outcome name args g) c g hc hg
        named ok fits (λ x. unfold dispatch run_branch in rw (dispatch, chosen))
        (λ g₁ p.
          implement-Runs spell driver ptx_path prop_size name name args args as_read reply_args
            (givens args) g g₁ p (λ d r. refl)
            (reply_args-Carries (outcome name args g) args g.response hg.replies h)))

  -- A call through a hook of CU_HOOK_REMOTE is a call of the driver in the guest's place. Let the
  -- name be one that a plain branch answers to, with parameters of the types of the arguments, of
  -- which no pointer to a result is null and each array for a text holds a C string; let the request
  -- fit the buffer; and let the driver write all its results on these arguments, each of which fits
  -- the guest's memory and the reply. Then the hook returns the driver's code, leaves in the guest's
  -- memory the driver's results and nothing else, and the driver has gone on to the state that the
  -- call leads to; client and host are ready for the next call.
  pub hook_remote-direct :
      (name : List ℕ) (args : List CallArg) (c : CudaClient) (g : GpuInstance S)
      → IsClient c
      → IsHost g
      → branch_of spell name ≡ some (plain_call (params_of args))
      → All (λ ch. 0 < ch) name
      → All IsItem (call_items args)
      → length (encode_all (text name ∷ call_items args)) ≤ buffer_size
      → IsReturned (outcome name args g) args
      → has_null args ≡ false
      → AllWritten (outcome name args g) 0 args
      → (c' : CudaClient) × (g' : GpuInstance S) × (hook_remote spell driver ptx_path prop_size name
            args c g
          ≡ some ((outcome name args g).code, direct_effects (outcome name args g) 0 args, c', g'))
        × (g'.driver_state ≡ (outcome name args g).next)
        × IsClient c'
        × IsHost g'
  hook_remote-direct name args c g hc hg chosen named ok fits h there written =
      rw (← sent_effects-direct (outcome name args g) 0 args written)
        (hook_remote-sends name args c g hc hg chosen named ok fits h there)
