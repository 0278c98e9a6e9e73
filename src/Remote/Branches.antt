-- ===== src/Remote/Branches.antt =====
-- A branch of the host between the two messages of a call.
use Prim.Native.String.{String}
use fan_master_thesis.Base.{
  ℕ, ◌^◌, ◌≤◌, ◌<◌, ◌≡◌, refl, ap, ◌∙◌, Option, some, List, [], ◌∷◌, length, All, arith, le_bytes,
  length-le_bytes, write_at-fits, length-write_at, splice,
}
use fan_master_thesis.Stream.Items.{text, IsItem, encode_all}
use fan_master_thesis.Stream.Serializer.{buffer_size}
use fan_master_thesis.Stream.Response.{
  Response, msize, result_size, set_curesult, reset, get_all, put_all,
}
use fan_master_thesis.Stream.Response.RoundTrip.{curesult-put_all}
use fan_master_thesis.Client.{CudaClient, CallArg, call_items, call_targets, IsClient}
use fan_master_thesis.Stream.Deserializer.{Deserializer}
use fan_master_thesis.Gpu.Params.{Argument, Outcome, Driver}
use fan_master_thesis.Gpu.Instance.{GpuInstance, Prepare, Reply, implement, reply_code}
use fan_master_thesis.Gpu.Chain.{implement_cuda_function, dispatch}
use fan_master_thesis.Remote.{IsHost, remote_call, givens, sent_effects}
use fan_master_thesis.Remote.Request.{
  params_of, call_cuda_function-message, pull_command-Pulled, Pulled,
}
use fan_master_thesis.Remote.Reply.{Carries, wait_recv-Carries}

module _ {S : Type 0} (o : Outcome S) where
  -- A reply with nothing but the status carries the outcome of a call without results.
  pub reply_code-Carries :
      (args : List Argument) (r : Response)
      → length r.mdata ≡ msize
      → o.code < 256 ^ result_size
      → (reply : Response) × (reply_code o args (reset r) ≡ some reply) × Carries o [] reply
  unfolding reply_code set_curesult reset get_all put_all sent_effects
  reply_code-Carries args r size coded =
      let bytes : List ℕ = le_bytes result_size o.code in
      let four : length bytes ≡ result_size = length-le_bytes result_size o.code in
      let written = write_at-fits r.mdata bytes 0 (omega arith) in
      let reply : Response = record { mdata = splice r.mdata 0 bytes; at = result_size } in
      let set : set_curesult o.code (reset r) ≡ some reply = rw written in
      (
        reply,
        set,
        record {
          results = (result_size, refl);
          code = curesult-put_all [] o.code r reply reply coded set refl;
          sized = length-write_at r.mdata bytes 0 written ∙ size;
        },
      )

module _ {S : Type 0} (spell : String → List ℕ) (driver : Driver S) (ptx_path : List ℕ)
    (prop_size : ℕ) where
  -- What the branch does for a request whose name has been pulled: it ends in a state that `Q` holds
  -- of, and the outcome goes into the reply as the arguments `seen` read it.
  abbrev pub Ends :
      (GpuInstance S → Type 0)
      → Outcome S
      → List CallArg
      → (GpuInstance S → Option (GpuInstance S))
      → GpuInstance S
      → Type 0
  Ends Q o seen branch g₁ =
      (g' : GpuInstance S) × (branch (record g₁ { response = reset g₁.response }) ≡ some g')
      × Q g'
      × IsHost g'
      × Carries o seen g'.response

  -- The same where the driver's state is all that is asked for.
  abbrev pub Runs :
      Outcome S → List CallArg → (GpuInstance S → Option (GpuInstance S)) → GpuInstance S → Type 0
  Runs o seen branch g₁ = Ends (λ g'. g'.driver_state ≡ o.next) o seen branch g₁

  -- A branch that turns the arguments into `args'` and the members into those of `h`, whatever has
  -- been read and replied so far, calls the driver with those.
  pub implement-Ends :
      (name fname : List ℕ) (args seen : List CallArg) (prepare : Prepare S) (reply : Reply S)
      (args' : List Argument) (g h g₁ : GpuInstance S) (Q : GpuInstance S → Type 0)
      → Pulled name args g g₁
      → ((d : Deserializer) (r : Response)
          → prepare (givens args) (record g { deserializer = d; response = r })
            ≡ (args', record h { deserializer = d; response = r }))
      → (r : Response) × (reply (driver fname args' h.driver_state) args' (reset g.response)
          ≡ some r)
        × Carries (driver fname args' h.driver_state) seen r
        × ((d : Deserializer)
            → Q (record h {
              deserializer = d;
              response = r;
              driver_state = (driver fname args' h.driver_state).next;
            }))
      → Ends Q
          (driver fname args' h.driver_state)
          seen
          (implement driver fname (params_of args) prepare reply)
          g₁
  unfolding implement
  implement-Ends name fname args seen prepare reply args' g h g₁ Q p turned replied =
      let (gots, end, read, given) = p.read_on in
      let d : Deserializer = g₁.deserializer in
      let d' : Deserializer = record d { mcount = end } in
      let whole =
        ap {A = GpuInstance S} {B = GpuInstance S} (λ x. record x { response = reset x.response })
          p.only in
      let o : Outcome S = driver fname args' h.driver_state in
      let (r, filled, carries, good) = replied in
      let branch = implement driver fname (params_of args) prepare reply in
      let end_state : GpuInstance S = record h {
        deserializer = d';
        response = r;
        driver_state = o.next;
      } in
      let run : branch (record g { deserializer = d; response = reset g.response })
          ≡ some end_state =
        rw (read, given, turned d' (reset g.response), filled) in
      (
        end_state,
        ap branch whole ∙ run,
        good d',
        record { receives = p.sized; replies = carries.sized },
        carries,
      )

  -- The same where the members stay as they are.
  pub implement-Runs :
      (name fname : List ℕ) (args seen : List CallArg) (prepare : Prepare S) (reply : Reply S)
      (args' : List Argument) (g g₁ : GpuInstance S)
      → Pulled name args g g₁
      → ((d : Deserializer) (r : Response)
          → prepare (givens args) (record g { deserializer = d; response = r })
            ≡ (args', record g { deserializer = d; response = r }))
      → (r : Response) × (reply (driver fname args' g.driver_state) args' (reset g.response)
          ≡ some r)
        × Carries (driver fname args' g.driver_state) seen r
      → Runs
          (driver fname args' g.driver_state)
          seen
          (implement driver fname (params_of args) prepare reply)
          g₁
  implement-Runs name fname args seen prepare reply args' g g₁ p fixed replied =
      let (r, filled, carries) = replied in
      implement-Ends name fname args seen prepare reply args' g g g₁
        (λ g'. g'.driver_state ≡ (driver fname args' g.driver_state).next) p fixed
        (r, filled, carries, λ d. refl)

  -- A call that the host answers by running `branch`.
  pub remote_call-Ends :
      (name : List ℕ) (args seen : List CallArg) (branch : GpuInstance S → Option (GpuInstance S))
      (o : Outcome S) (c : CudaClient) (g : GpuInstance S) (Q : GpuInstance S → Type 0)
      → IsClient c
      → IsHost g
      → All (λ ch. 0 < ch) name
      → All IsItem (call_items args)
      → length (encode_all (text name ∷ call_items args)) ≤ buffer_size
      → ((h : GpuInstance S) → dispatch spell driver ptx_path prop_size name h ≡ branch h)
      → ((g₁ : GpuInstance S) → Pulled name args g g₁ → Ends Q o seen branch g₁)
      → (c' : CudaClient) × (g' : GpuInstance S) × (remote_call spell driver ptx_path prop_size name
            (call_items args)
            (call_targets seen)
            c
            g
          ≡ some (o.code, sent_effects o 0 seen, c', g'))
        × Q g'
        × IsClient c'
        × IsHost g'
        × (c'.response.mdata ≡ g'.response.mdata)
  unfolding remote_call implement_cuda_function
  remote_call-Ends name args seen branch o c g Q hc hg named ok fits chosen run =
      let (c₁, sent, hc₁) = call_cuda_function-message name (call_items args) c hc fits in
      let (g₁, pulled, p) = pull_command-Pulled name args g hg named ok fits in
      let (g', done, good, hg', carries) = run g₁ p in
      let (c', back, hc', same) = wait_recv-Carries o seen g'.response c₁ hc₁ carries in
      let ran = chosen (record g₁ { response = reset g₁.response }) ∙ done in
      (c', g', rw (sent, pulled, ran, back), good, hc', hg', same)

  pub remote_call-Runs :
      (name : List ℕ) (args seen : List CallArg) (branch : GpuInstance S → Option (GpuInstance S))
      (o : Outcome S) (c : CudaClient) (g : GpuInstance S)
      → IsClient c
      → IsHost g
      → All (λ ch. 0 < ch) name
      → All IsItem (call_items args)
      → length (encode_all (text name ∷ call_items args)) ≤ buffer_size
      → ((h : GpuInstance S) → dispatch spell driver ptx_path prop_size name h ≡ branch h)
      → ((g₁ : GpuInstance S) → Pulled name args g g₁ → Runs o seen branch g₁)
      → (c' : CudaClient) × (g' : GpuInstance S) × (remote_call spell driver ptx_path prop_size name
            (call_items args)
            (call_targets seen)
            c
            g
          ≡ some (o.code, sent_effects o 0 seen, c', g'))
        × (g'.driver_state ≡ o.next)
        × IsClient c'
        × IsHost g'
  remote_call-Runs name args seen branch o c g hc hg named ok fits chosen run =
      let (c', g', called, next, hc', hg', _) =
        remote_call-Ends name args seen branch o c g (λ g'. g'.driver_state ≡ o.next) hc hg named ok
          fits chosen run in
      (c', g', called, next, hc', hg')
