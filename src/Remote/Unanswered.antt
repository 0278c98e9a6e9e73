-- ===== src/Remote/Unanswered.antt =====
-- Names that no branch of the host answers to.
use Prim.Native.String.{String}
use fan_master_thesis.Base.{ℕ, ◌≤◌, ◌<◌, ◌≡◌, ap, ◌∙◌, false, none, some, List, ◌∷◌, length, All}
use fan_master_thesis.Stream.Items.{text, IsItem, encode_all}
use fan_master_thesis.Stream.Serializer.{buffer_size}
use fan_master_thesis.Stream.Response.{reset, curesult}
use fan_master_thesis.Client.{CudaClient, CallArg, call_items, IsClient}
use fan_master_thesis.Gpu.Params.{Outcome, Driver}
use fan_master_thesis.Gpu.Instance.{GpuInstance}
use fan_master_thesis.Gpu.Chain.{branch_of, dispatch, implement_cuda_function}
use fan_master_thesis.Remote.{IsHost, hook_remote, remote_call, sent_effects, has_null}
use fan_master_thesis.Remote.Request.{call_cuda_function-message, pull_command-Pulled}
use fan_master_thesis.Remote.Reply.{Carries, wait_recv-Carries}

module _ {S : Type 0} (spell : String → List ℕ) (driver : Driver S) (ptx_path : List ℕ)
    (prop_size : ℕ) where
  -- A call that no branch answers to is not an error: the host sends its last reply once more. If
  -- that reply carries an outcome for arguments of these types, of which no pointer to a result is
  -- null, the hook returns this outcome as its own, and the driver has not been called.
  pub hook_remote-unanswered :
      (name : List ℕ) (args : List CallArg) (o : Outcome S) (c : CudaClient) (g : GpuInstance S)
      → IsClient c
      → IsHost g
      → branch_of spell name ≡ none
      → All (λ ch. 0 < ch) name
      → All IsItem (call_items args)
      → length (encode_all (text name ∷ call_items args)) ≤ buffer_size
      → Carries o args g.response
      → has_null args ≡ false
      → (c' : CudaClient) × (g' : GpuInstance S) × (hook_remote spell driver ptx_path prop_size name
            args c g
          ≡ some (o.code, sent_effects o 0 args, c', g'))
        × (g'.driver_state ≡ g.driver_state)
        × IsClient c'
        × IsHost g'
  unfolding hook_remote remote_call implement_cuda_function reset
  hook_remote-unanswered name args o c g hc hg nobody named ok fits last there =
      let (c₁, sent, hc₁) = call_cuda_function-message name (call_items args) c hc fits in
      let (g₁, pulled, p) = pull_command-Pulled name args g hg named ok fits in
      let again : Carries o args (reset g.response) = record {
        results = last.results;
        code = unfold curesult in last.code;
        sized = last.sized;
      } in
      let (c', back, hc', _) = wait_recv-Carries o args (reset g.response) c₁ hc₁ again in
      let g' : GpuInstance S = record g₁ { response = reset g₁.response } in
      let ran : dispatch spell driver ptx_path prop_size name g' ≡ some g' =
        unfold dispatch in rw (dispatch, nobody) in
      let reply : g₁.response.mdata ≡ g.response.mdata = ap (λ x. x.response.mdata) p.only in
      (
        c',
        g',
        rw (there, sent, pulled, ran, reply, back),
        ap (λ x. x.driver_state) p.only,
        hc',
        record { receives = p.sized; replies = ap (λ l. length l) reply ∙ hg.replies },
      )
