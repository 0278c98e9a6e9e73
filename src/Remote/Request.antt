-- ===== src/Remote/Request.antt =====
-- The way of a request: what the guest's hook serializes is what the host's handler reads.
use fan_master_thesis.Base.{
  ℕ, ◌+◌, ◌≤◌, ◌<◌, ◌≡◌, refl, ap, ◌∙◌, some, List, [], ◌∷◌, ◌++◌, length, drop, All, arith,
  c_string, write_at-fits, length-write_at, splice, >>=-eq-some,
}
use fan_master_thesis.Stream.Items.{Item, text, kind, kinds, IsItem, encode, encode_all, text_kind}
use fan_master_thesis.Stream.Serializer.{buffer_size, put, put_all, message, clean}
use fan_master_thesis.Stream.Serializer.Message.{put_all-message, message-put_all}
use fan_master_thesis.Stream.Deserializer.{
  Deserializer, Got, value, pointer, pointers, get_all, view, view_all,
}
use fan_master_thesis.Stream.Deserializer
use fan_master_thesis.Stream.Deserializer.RoundTrip.{
  Reads, Reads-fst, Reads-snd, get_item, get_items, past,
}
use fan_master_thesis.Client.{
  CudaClient, call_cuda_function, CallArg, value_arg, handle_arg, result_arg, text_result_arg,
  text_arg, pointer_arg, call_item, call_items, IsClient,
}
use fan_master_thesis.Gpu.Params.{
  Param, by_value, by_handle, result, text_result, raw_pointer, param_kinds, argument, arguments,
}
use fan_master_thesis.Gpu.Params
use fan_master_thesis.Gpu.Instance.{GpuInstance, name_behind, pull_command}
use fan_master_thesis.Remote.{IsHost, given, givens}

-- The parameter that takes an argument of that type.
abbrev pub param_of : CallArg → Param
param_of (value_arg n v) = by_value n
param_of (handle_arg v) = by_handle
param_of (result_arg n at) = result n
param_of (text_result_arg room held) = text_result
param_of (text_arg cs) = Params.text_arg
param_of (pointer_arg v) = raw_pointer

abbrev pub params_of : List CallArg → List Param
params_of [] = []
params_of (a ∷ rest) = param_of a ∷ params_of rest

pub kinds-call_items :
    (args : List CallArg) → kinds (call_items args) ≡ param_kinds (params_of args)
kinds-call_items [] = refl
kinds-call_items (value_arg n v ∷ rest) = rw (kinds-call_items rest)
kinds-call_items (handle_arg v ∷ rest) = rw (kinds-call_items rest)
kinds-call_items (result_arg n at ∷ rest) = rw (kinds-call_items rest)
kinds-call_items (text_result_arg room held ∷ rest) = rw (kinds-call_items rest)
kinds-call_items (text_arg cs ∷ rest) = rw (kinds-call_items rest)
kinds-call_items (pointer_arg v ∷ rest) = rw (kinds-call_items rest)

-- An operand that stands for what was sent becomes the argument that is given.
view-argument :
    (mem : List ℕ) (a : CallArg) (got : Got)
    → view mem (kind (call_item a)) got ≡ some (call_item a)
    → argument mem (param_of a) got ≡ some (given a)
unfolding view argument
view-argument mem (value_arg n v) (value w) e = ground arith
view-argument mem (handle_arg v) (value w) e = ground arith
view-argument mem (result_arg n at) (value w) e = refl
view-argument mem (pointer_arg v) (value w) e = ground arith
view-argument mem (text_result_arg room held) (pointer p) e = refl
view-argument mem (text_arg cs) (pointer p) e =
    let (cs', found, same) = >>=-eq-some (c_string mem p) (λ cs. some (text cs)) e in
    let same' : cs' ≡ cs = ground arith in rw (found, same')
view-argument mem a got e = ground arith

pub view_all-arguments :
    (mem : List ℕ) (args : List CallArg) (gots : List Got)
    → view_all mem (kinds (call_items args)) gots ≡ some (call_items args)
    → arguments mem (params_of args) gots ≡ some (givens args)
unfolding view_all arguments
view_all-arguments mem [] [] e = refl
view_all-arguments mem [] (got ∷ gots) e = cc
view_all-arguments mem (a ∷ rest) [] e = cc
view_all-arguments mem (a ∷ rest) (got ∷ gots) e =
    let (it, here, e₁) = >>=-eq-some (view mem (kind (call_item a)) got) _ e in
    let (its, there, e₂) = >>=-eq-some (view_all mem (kinds (call_items rest)) gots) _ e₁ in
    let first : it ≡ call_item a = cc in
    let others : its ≡ call_items rest = cc in
    rw (
      view-argument mem a got (here ∙ ap some first),
      view_all-arguments mem rest gots (there ∙ ap some others),
    )

-- What the client transmits, and that its serializer is ready for the next call.
pub call_cuda_function-message :
    (name : List ℕ) (args : List Item) (c : CudaClient)
    → IsClient c
    → length (encode_all (text name ∷ args)) ≤ buffer_size
    → (c' : CudaClient) × (call_cuda_function name args c
        ≡ some (encode_all (text name ∷ args), c'))
      × IsClient c'
unfolding call_cuda_function put_all clean
call_cuda_function-message name args c h fits =
    let (t, sent, held, ok) =
      put_all-message (text name ∷ args) c.serializer h.serial (omega (arith, h.empty)) in
    let (s, first, rest) = >>=-eq-some (put (text name) c.serializer) (put_all args) sent in
    let bytes : message t ≡ encode_all (text name ∷ args) =
      message-put_all (text name ∷ args) h.serial h.empty sent in
    (
      record c { serializer = record t { mcount = 0 } },
      rw (first, rest, bytes),
      record {
        serial = record { sized = ok.sized; within = omega arith };
        empty = refl;
        sized = h.sized;
        at_start = h.at_start;
      },
    )

-- The C string that was left behind a pointer.
text-name_behind :
    (mem name : List ℕ) (got : Got)
    → view mem text_kind got ≡ some (text name)
    → name_behind mem got ≡ some name
unfolding view name_behind
text-name_behind mem name (pointer p) e =
    let (cs, found, same) = >>=-eq-some (c_string mem p) (λ cs. some (text cs)) e in
    let same' : cs ≡ name = ground arith in rw (found, same')
text-name_behind mem name (value v) e = cc
text-name_behind mem name (pointers ps) e = cc

module _ {S : Type 0} where
  -- The host between the name and the arguments of a request.
  pub record Pulled (name : List ℕ) (args : List CallArg) (g g₁ : GpuInstance S) : Type 0 where
    pub read_on :
        (gots : List Got) × (end : ℕ) × (get_all (param_kinds (params_of args)) g₁.deserializer
          ≡ some (gots, record g₁.deserializer { mcount = end }))
        × (arguments g₁.deserializer.mdata (params_of args) gots ≡ some (givens args))
    pub only : g₁ ≡ record g { deserializer = g₁.deserializer }
    pub sized : length g₁.deserializer.mdata ≡ buffer_size

  -- The host once it has the name: `rest` is what its deserializer reads next.
  pub record Named (rest : List ℕ) (g g₁ : GpuInstance S) : Type 0 where
    pub next : (pre : List ℕ) × (post : List ℕ) × Reads g₁.deserializer pre rest post
    pub same : g₁ ≡ record g { deserializer = g₁.deserializer }
    pub full : length g₁.deserializer.mdata ≡ buffer_size

  -- A request that the host reads whole: `pull_command` gives the name, and what follows is next.
  pub pull_command-Named :
      (name rest : List ℕ) (g : GpuInstance S)
      → IsHost g
      → All (λ c. 0 < c) name
      → length (encode (text name) ++ rest) ≤ buffer_size
      → (g₁ : GpuInstance S) × (pull_command (encode (text name) ++ rest) g ≡ some (name, g₁))
        × Named rest g g₁
  unfolding pull_command Deserializer.clean
  pull_command-Named name rest g h named fits =
      let front : List ℕ = encode (text name) in
      let msg : List ℕ = front ++ rest in
      let old : List ℕ = g.deserializer.mdata in
      let room : 0 + length msg ≤ length old = omega (arith, h.receives) in
      let copied = write_at-fits old msg 0 room in
      let mem : List ℕ = splice old 0 msg in
      let post : List ℕ = drop (0 + length msg) old in
      let d : Deserializer = record { mdata = mem; mcount = 0 } in
      let size : length mem ≡ buffer_size = length-write_at old msg 0 copied ∙ h.receives in
      let all : Reads d [] msg post = record { holds = refl; at = refl; sized = omega arith } in
      let (got, first, seen) =
        get_item (text name) d [] (rest ++ post) named (Reads-fst [] front rest post all) in
      let called = text-name_behind mem name got seen in
      (
        record g { deserializer = past d front },
        rw (copied, first, called),
        record {
          next = ([] ++ front, post, Reads-snd [] front rest post all);
          same = refl;
          full = size;
        },
      )

  -- Then the arguments are read, where nothing follows them.
  pub pull_command-Pulled :
      (name : List ℕ) (args : List CallArg) (g : GpuInstance S)
      → IsHost g
      → All (λ c. 0 < c) name
      → All IsItem (call_items args)
      → length (encode_all (text name ∷ call_items args)) ≤ buffer_size
      → (g₁ : GpuInstance S) × (pull_command (encode_all (text name ∷ call_items args)) g
          ≡ some (name, g₁))
        × Pulled name args g g₁
  unfolding encode_all
  pull_command-Pulled name args g h named ok fits =
      let (g₁, pulled, n) = pull_command-Named name (encode_all (call_items args)) g h named fits in
      let (pre, post, reads) = n.next in
      let d = g₁.deserializer in
      let (gots, more, seen) = get_items (call_items args) d pre post ok reads in
      (
        g₁,
        pulled,
        record {
          read_on = (
            gots,
            d.mcount + length (encode_all (call_items args)),
            rw (kinds-call_items args) at more,
            view_all-arguments d.mdata args gots seen,
          );
          only = n.same;
          sized = n.full;
        },
      )
