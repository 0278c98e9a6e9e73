-- ===== src/Client.antt =====
-- The guest side: class CUDAClient of interception/cuda_client.h, and the hooks that
-- CU_HOOK_REMOTE of interception/interception.cpp generates.
use fan_master_thesis.Base.{ℕ, ◌≡◌, Option, some, List, [], ◌∷◌, length, ◌>>=◌}
use fan_master_thesis.Stream.Items.{Item, raw, text, word_size}
use fan_master_thesis.Stream.Serializer.{Serializer, IsSerializer}
use fan_master_thesis.Stream.Serializer
use fan_master_thesis.Stream.Response.{
  Response, Target, handle_target, chars_target, opaque_target, ptr_target, plain_target, Effect,
  msize, result_size,
}
use fan_master_thesis.Stream.Response

-- The members that a call uses.
pub record CudaClient : Type 0 where
  pub serializer : Serializer
  pub response : Response

-- CallCudaFunction(func_name, args...): the bytes that `transmit` is given, and the client with its
-- serializer cleaned.
unfoldable pub call_cuda_function : List ℕ → List Item → CudaClient → Option (List ℕ × CudaClient)
unfolding Serializer.clean
call_cuda_function func_name args c = do
  s ← Serializer.put (text func_name) c.serializer
  s' ← Serializer.put_all args s
  some (Serializer.message s', record c { serializer = Serializer.clean s' })

-- wait_recv(args...): `reply` is what `receive` puts into the response; the arguments are filled in,
-- and the result code is returned.
unfoldable pub wait_recv : List Target → List ℕ → CudaClient → Option (ℕ × List Effect × CudaClient)
unfolding Response.reset
wait_recv targets reply c = do
  (effects, r) ← Response.get_all targets (record c.response { mdata = reply })
  code ← Response.curesult (Response.reset r)
  some (code, effects, record c { response = Response.reset r })

-- An argument of an intercepted function: a value of `n` bytes, a CUDA handle, a pointer to a
-- result of `n` bytes, a `char*` to an array of `room` bytes that holds a C string, a
-- `const char*`, and another pointer.
pub data CallArg : Type 0 where
  value_arg : ℕ → ℕ → CallArg
  handle_arg : ℕ → CallArg
  result_arg : ℕ → ℕ → CallArg
  text_result_arg : ℕ → List ℕ → CallArg
  text_arg : List ℕ → CallArg
  pointer_arg : ℕ → CallArg

-- The argument as operator<< of Serializer takes it.
abbrev pub call_item : CallArg → Item
call_item (value_arg n v) = raw n v
call_item (handle_arg v) = raw word_size v
call_item (result_arg n at) = raw word_size at
call_item (text_result_arg room held) = text held
call_item (text_arg cs) = text cs
call_item (pointer_arg v) = raw word_size v

abbrev pub call_items : List CallArg → List Item
call_items [] = []
call_items (a ∷ rest) = call_item a ∷ call_items rest

-- The argument as operator>> of Response takes it.
abbrev pub call_target : CallArg → Target
call_target (value_arg n v) = plain_target n
call_target (handle_arg v) = handle_target
call_target (result_arg n at) = ptr_target n
call_target (text_result_arg room held) = chars_target room
call_target (text_arg cs) = opaque_target
call_target (pointer_arg v) = opaque_target

abbrev pub call_targets : List CallArg → List Target
call_targets [] = []
call_targets (a ∷ rest) = call_target a ∷ call_targets rest

-- Between two calls the serializer is empty and `return_buffer_` stands at its start.
pub record IsClient (c : CudaClient) : Type 0 where
  pub serial : IsSerializer c.serializer
  pub empty : c.serializer.mcount ≡ 0
  pub sized : length c.response.mdata ≡ msize
  pub at_start : c.response.at ≡ result_size
