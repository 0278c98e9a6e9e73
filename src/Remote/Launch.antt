-- ===== src/Remote/Launch.antt =====
-- Kernel launches: the arguments of the kernel travel behind those of the call.
use Prim.Native.String.{String}
use mathlib.Core.List.{append_assoc}
use fan_master_thesis.Base.{
  ℕ, ◌^◌, ◌≤◌, ◌<◌, ◌≡◌, refl, sym, ap, subst, ◌∙◌, Option, some, List, [], ◌∷◌, ◌++◌, length, All,
}
use fan_master_thesis.Stream.Items.{Item, text, words, words_kind, IsItem, encode, encode_all}
use fan_master_thesis.Stream.Serializer.{buffer_size}
use fan_master_thesis.Stream.Deserializer.{Deserializer, Got, view}
use fan_master_thesis.Stream.Deserializer.RoundTrip.{
  Reads, Reads-fst, Reads-snd, get_item, get_items, past,
}
use fan_master_thesis.Stream.Response.{result_size, reset, msize}
use fan_master_thesis.Ptx.{get_params}
use fan_master_thesis.Client.{CudaClient, call_items, IsClient}
use fan_master_thesis.Gpu.Params.{
  Argument, number, handle_arg, address, kernel_args, Outcome, Driver,
}
use fan_master_thesis.Gpu.Instance.{GpuInstance}
use fan_master_thesis.Gpu.Handlers.{replace, kernel_words, launch_params}
use fan_master_thesis.Gpu.Handlers
use fan_master_thesis.Gpu.Chain.{
  launch_kernel_branch, branch_of, run_branch, dispatch, implement_cuda_function,
}
use fan_master_thesis.Remote.{IsHost, remote_call, sent_effects}
use fan_master_thesis.Remote.Request.{
  kinds-call_items, view_all-arguments, call_cuda_function-message, pull_command-Named, Named,
}
use fan_master_thesis.Remote.Reply.{wait_recv-Carries}
use fan_master_thesis.Remote.Branches.{reply_code-Carries, Runs}
use fan_master_thesis.Remote.Hooks.{
  Guest, Launch, launch_args, launch_kernel, function_name, scalar_args,
}

encode_all-append : (xs ys : List Item) → encode_all (xs ++ ys) ≡ encode_all xs ++ encode_all ys
unfolding encode_all
encode_all-append [] ys = refl
encode_all-append (x ∷ xs) ys =
    ap (λ l. encode x ++ l) (encode_all-append xs ys)
    ∙ sym (append_assoc (encode x) (encode_all xs) (encode_all ys))

-- What the driver reads through the pointers that were left for a vector is the vector.
kernel_words-view :
    (mem ws : List ℕ) (got : Got)
    → view mem words_kind got ≡ some (words ws)
    → kernel_words mem got ≡ some ws
unfolding kernel_words
kernel_words-view mem ws got e = rw e

-- The parameter types that the guest knows for the kernel behind a handle.
abbrev pub kernel_types : Launch → Guest → List (List ℕ)
kernel_types l u = (get_params (function_name l.function u.hashfunc).0 u.func_proto).0

-- The items of a launch.
abbrev pub launch_items : Launch → List ℕ → List Item
launch_items l ws = call_items (launch_args l) ++ (words ws ∷ [])

-- The arguments that the driver gets, the kernel's own among them.
abbrev pub launched : Launch → List ℕ → List Argument
launched l ws =
    handle_arg l.function
    ∷ number 4 l.grid_x
    ∷ number 4 l.grid_y
    ∷ number 4 l.grid_z
    ∷ number 4 l.block_x
    ∷ number 4 l.block_y
    ∷ number 4 l.block_z
    ∷ number 4 l.shared_bytes
    ∷ handle_arg l.stream
    ∷ kernel_args ws
    ∷ address l.extra
    ∷ []

module _ {S : Type 0} (spell : String → List ℕ) (driver : Driver S) (ptx_path : List ℕ)
    (prop_size : ℕ) where
  abbrev pub launch_outcome : Launch → List ℕ → GpuInstance S → Outcome S
  launch_outcome l ws g = driver (spell "cuLaunchKernel") (launched l ws) g.driver_state

  launch_kernel-Runs :
      (l : Launch) (ws : List ℕ) (g g₁ : GpuInstance S)
      → Named (encode_all (launch_items l ws)) g g₁
      → length g.response.mdata ≡ msize
      → All IsItem (call_items (launch_args l))
      → IsItem (words ws)
      → (launch_outcome l ws g).code < 256 ^ result_size
      → Runs spell driver ptx_path prop_size
          (launch_outcome l ws g)
          []
          (Handlers.launch_kernel spell driver ptx_path)
          g₁
  unfolding Handlers.launch_kernel replace encode_all
  launch_kernel-Runs l ws g g₁ n size ok ok' coded =
      let (pre, post, reads) = n.next in
      let d : Deserializer = g₁.deserializer in
      let args = launch_args l in
      let front : List ℕ = encode_all (call_items args) in
      let back : List ℕ = encode (words ws) ++ [] in
      let reads' : Reads d pre (front ++ back) post =
        subst (λ l. Reads d pre l post) (encode_all-append (call_items args) (words ws ∷ []))
          reads in
      let (gots, got_all, seen) =
        get_items (call_items args) d pre (back ++ post) ok
          (Reads-fst pre front back post reads') in
      let later =
        Reads-fst (pre ++ front) (encode (words ws)) [] post
          (Reads-snd pre front back post reads') in
      let (got, got_words, seen') =
        get_item (words ws) (past d front) (pre ++ front) ([] ++ post) ok' later in
      let given = view_all-arguments d.mdata args gots seen in
      let loaded = kernel_words-view d.mdata ws got seen' in
      let d' : Deserializer = past (past d front) (encode (words ws)) in
      let o : Outcome S = launch_outcome l ws g in
      let (reply, filled, carries) = reply_code-Carries o (launched l ws) g.response size coded in
      let end_state : GpuInstance S = record g {
        deserializer = d';
        response = reply;
        driver_state = o.next;
      } in
      let whole =
        ap {A = GpuInstance S} {B = GpuInstance S} (λ x. record x { response = reset x.response })
          n.same in
      let run : Handlers.launch_kernel spell driver ptx_path
            (record g { deserializer = d; response = reset g.response })
          ≡ some end_state =
        rw (rw (kinds-call_items args) at got_all, given, got_words, loaded, filled) in
      (
        end_state,
        ap (Handlers.launch_kernel spell driver ptx_path) whole ∙ run,
        refl,
        record { receives = n.full; replies = carries.sized },
        carries,
      )

  launch_call :
      (l : Launch) (ws : List ℕ) (c : CudaClient) (g : GpuInstance S)
      → IsClient c
      → IsHost g
      → branch_of spell (spell "cuLaunchKernel") ≡ some launch_kernel_branch
      → All (λ ch. 0 < ch) (spell "cuLaunchKernel")
      → All IsItem (call_items (launch_args l))
      → IsItem (words ws)
      → length (encode_all (text (spell "cuLaunchKernel") ∷ launch_items l ws)) ≤ buffer_size
      → (launch_outcome l ws g).code < 256 ^ result_size
      → (c' : CudaClient) × (g' : GpuInstance S) × (remote_call spell driver ptx_path prop_size
            (spell "cuLaunchKernel")
            (launch_items l ws)
            []
            c
            g
          ≡ some ((launch_outcome l ws g).code, [], c', g'))
        × (g'.driver_state ≡ (launch_outcome l ws g).next)
        × IsClient c'
        × IsHost g'
  unfolding remote_call implement_cuda_function encode_all sent_effects
  launch_call l ws c g hc hg chosen named ok ok' fits coded =
      let name = spell "cuLaunchKernel" in
      let (c₁, sent, hc₁) = call_cuda_function-message name (launch_items l ws) c hc fits in
      let (g₁, pulled, n) =
        pull_command-Named name (encode_all (launch_items l ws)) g hg named fits in
      let (g', done, next, hg', carries) = launch_kernel-Runs l ws g g₁ n hg.replies ok ok' coded in
      let (c', back, hc', _) =
        wait_recv-Carries (launch_outcome l ws g) [] g'.response c₁ hc₁ carries in
      let ready : GpuInstance S = record g₁ { response = reset g₁.response } in
      let ran : dispatch spell driver ptx_path prop_size name ready ≡ some g' =
        unfold dispatch run_branch in rw (dispatch, chosen, done) in
      (c', g', rw (sent, pulled, ran, back), next, hc', hg')

  -- cuLaunchKernel: let `ws` be the 8 bytes behind each of the kernel's parameters, as many as the
  -- PTX file that was read gives the function. The driver then launches the kernel with the call's
  -- arguments and with `ws` as the kernel's, the hook returns the driver's code, and client and host
  -- are ready for the next call. The name is answered by its branch, the arguments are within their
  -- types, and the request fits the buffer.
  pub launch_kernel-direct :
      (l : Launch) (behind : ℕ → Option ℕ) (ws : List ℕ) (u : Guest) (g : GpuInstance S)
      → IsClient u.client
      → IsHost g
      → branch_of spell (spell "cuLaunchKernel") ≡ some launch_kernel_branch
      → All (λ ch. 0 < ch) (spell "cuLaunchKernel")
      → scalar_args behind 0 (length (kernel_types l u)) ≡ some ws
      → All IsItem (call_items (launch_args l))
      → IsItem (words ws)
      → length (encode_all (text (spell "cuLaunchKernel") ∷ launch_items l ws)) ≤ buffer_size
      → (launch_outcome l ws g).code < 256 ^ result_size
      → (u' : Guest) × (g' : GpuInstance S) × (launch_kernel spell driver ptx_path prop_size l
            behind u g
          ≡ some ((launch_outcome l ws g).code, u', g'))
        × (g'.driver_state ≡ (launch_outcome l ws g).next)
        × IsClient u'.client
        × IsHost g'
  unfolding launch_kernel
  launch_kernel-direct l behind ws u g hc hg chosen named read ok ok' fits coded =
      let (c', g', called, next, hc', hg') =
        launch_call l ws u.client g hc hg chosen named ok ok' fits coded in
      let (name, hashfunc) = function_name l.function u.hashfunc in
      (
        record u {
          client = c';
          hashfunc = hashfunc;
          func_proto = (get_params name u.func_proto).1;
        },
        g',
        rw (read, called),
        next,
        hc',
        hg',
      )
