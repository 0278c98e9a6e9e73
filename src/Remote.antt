-- ===== src/Remote.antt =====
-- A whole remote call: the guest's hook, the host's handler, and the messages between them.
pub mod Request
pub mod Reply
pub mod Refinement
pub mod Session
pub mod Hooks
pub mod Branches
pub mod Copies
pub mod Launch
pub mod Scalar
pub mod Unanswered
pub mod Naming
pub mod Table
pub mod Status
pub mod Pinning
pub mod Loading
pub mod Modules
use Prim.Native.String.{String}
use fan_master_thesis.Base.{
  Bool, true, false, if◌then◌else◌, ◌==◌, refl, ℕ, suc, ◌≡◌, Option, none, some, List, [], ◌∷◌,
  ◌++◌, length, ◌>>=◌,
}
use fan_master_thesis.Stream.Items.{Item}
use fan_master_thesis.Stream.Serializer.{buffer_size}
use fan_master_thesis.Stream.Response.{Effect, Target, untouched, filled, stored, msize}
use fan_master_thesis.Client.{
  CudaClient, call_cuda_function, wait_recv, CallArg, value_arg, handle_arg, result_arg,
  text_result_arg, text_arg, pointer_arg, call_items, call_targets,
}
use fan_master_thesis.Gpu.Params.{
  Param, Argument, number, local, local_text, text, address, Outcome, Driver,
}
use fan_master_thesis.Gpu.Params
use fan_master_thesis.Gpu.Instance.{GpuInstance}
use fan_master_thesis.Gpu.Chain.{implement_cuda_function}

-- A host between two calls.
pub record IsHost {S : Type 0} (g : GpuInstance S) : Type 0 where
  pub receives : length g.deserializer.mdata ≡ buffer_size
  pub replies : length g.response.mdata ≡ msize

-- Whether a result pointer is null.
unfoldable pub has_null : List CallArg → Bool
has_null [] = false
has_null (result_arg n at ∷ rest) = if at == 0 then true else has_null rest
has_null (value_arg n v ∷ rest) = has_null rest
has_null (handle_arg v ∷ rest) = has_null rest
has_null (text_result_arg room held ∷ rest) = has_null rest
has_null (text_arg cs ∷ rest) = has_null rest
has_null (pointer_arg v ∷ rest) = has_null rest

module _ {S : Type 0} (spell : String → List ℕ) (driver : Driver S) (ptx_path : List ℕ)
    (prop_size : ℕ) where
  -- CallCudaFunction and wait_recv with the host between them: the request is sent, the host
  -- implements it (its one `read` returns the whole request), and the reply is received.
  unfoldable pub remote_call :
      List ℕ
      → List Item
      → List Target
      → CudaClient
      → GpuInstance S
      → Option (ℕ × List Effect × CudaClient × GpuInstance S)
  remote_call name items targets c g = do
    (request, c₁) ← call_cuda_function name items c
    (g', reply) ← implement_cuda_function spell driver ptx_path prop_size request g
    (code, effects, c₂) ← wait_recv targets reply c₁
    some (code, effects, c₂, g')

  -- CU_HOOK_REMOTE(symbol, params, args...). For a result pointer that is null operator>> of Response
  -- faults when the reply has come.
  unfoldable pub hook_remote :
      List ℕ
      → List CallArg
      → CudaClient
      → GpuInstance S
      → Option (ℕ × List Effect × CudaClient × GpuInstance S)
  unfolding remote_call has_null
  hook_remote name args c g =
      let ran = remote_call name (call_items args) (call_targets args) c g in
      if has_null args then none else ran

-- The specification: the driver is called in the guest's place. The arguments that it gets, with a
-- local for each result.
abbrev pub given : CallArg → Argument
given (value_arg n v) = number n v
given (handle_arg v) = Params.handle_arg v
given (result_arg n at) = local n
given (text_result_arg room held) = local_text
given (text_arg cs) = text cs
given (pointer_arg v) = address v

abbrev pub givens : List CallArg → List Argument
givens [] = []
givens (a ∷ rest) = given a ∷ givens rest

-- What the hook leaves in the guest's memory, from the i-th argument on: whatever stands in the
-- host's locals.
unfoldable pub sent_effects : {S : Type 0} → Outcome S → ℕ → List CallArg → List Effect
sent_effects o i [] = []
sent_effects o i (result_arg n at ∷ rest) = stored (o.value_at i) ∷ sent_effects o (suc i) rest
sent_effects o i (text_result_arg room held ∷ rest) =
    filled (o.text_at i ++ (0 ∷ [])) ∷ sent_effects o (suc i) rest
sent_effects o i (value_arg n v ∷ rest) = untouched ∷ sent_effects o (suc i) rest
sent_effects o i (handle_arg v ∷ rest) = untouched ∷ sent_effects o (suc i) rest
sent_effects o i (text_arg cs ∷ rest) = untouched ∷ sent_effects o (suc i) rest
sent_effects o i (pointer_arg v ∷ rest) = untouched ∷ sent_effects o (suc i) rest

-- What the call on the spot leaves there: a result that the driver does not write is left alone.
unfoldable pub direct_effects : {S : Type 0} → Outcome S → ℕ → List CallArg → List Effect
direct_effects o i [] = []
direct_effects o i (result_arg n at ∷ rest) =
    (if o.written i then stored (o.value_at i) else untouched) ∷ direct_effects o (suc i) rest
direct_effects o i (text_result_arg room held ∷ rest) =
    (if o.written i then filled (o.text_at i ++ (0 ∷ [])) else untouched)
    ∷ direct_effects o (suc i) rest
direct_effects o i (value_arg n v ∷ rest) = untouched ∷ direct_effects o (suc i) rest
direct_effects o i (handle_arg v ∷ rest) = untouched ∷ direct_effects o (suc i) rest
direct_effects o i (text_arg cs ∷ rest) = untouched ∷ direct_effects o (suc i) rest
direct_effects o i (pointer_arg v ∷ rest) = untouched ∷ direct_effects o (suc i) rest

-- The driver writes every result that it is given a place for.
abbrev pub AllWritten : {S : Type 0} → Outcome S → ℕ → List CallArg → Type 0
AllWritten o i [] = Unit
AllWritten o i (result_arg n at ∷ rest) = (o.written i ≡ true) × AllWritten o (suc i) rest
AllWritten o i (text_result_arg room held ∷ rest) = (o.written i ≡ true) × AllWritten o (suc i) rest
AllWritten o i (value_arg n v ∷ rest) = AllWritten o (suc i) rest
AllWritten o i (handle_arg v ∷ rest) = AllWritten o (suc i) rest
AllWritten o i (text_arg cs ∷ rest) = AllWritten o (suc i) rest
AllWritten o i (pointer_arg v ∷ rest) = AllWritten o (suc i) rest

pub sent_effects-direct :
    {S : Type 0} (o : Outcome S) (i : ℕ) (args : List CallArg)
    → AllWritten o i args
    → sent_effects o i args ≡ direct_effects o i args
unfolding sent_effects direct_effects
sent_effects-direct o i [] w = refl
sent_effects-direct o i (result_arg n at ∷ rest) w =
    rw (w.0, sent_effects-direct o (suc i) rest w.1) refl
sent_effects-direct o i (text_result_arg room held ∷ rest) w =
    rw (w.0, sent_effects-direct o (suc i) rest w.1) refl
sent_effects-direct o i (value_arg n v ∷ rest) w = rw (sent_effects-direct o (suc i) rest w) refl
sent_effects-direct o i (handle_arg v ∷ rest) w = rw (sent_effects-direct o (suc i) rest w) refl
sent_effects-direct o i (text_arg cs ∷ rest) w = rw (sent_effects-direct o (suc i) rest w) refl
sent_effects-direct o i (pointer_arg v ∷ rest) w = rw (sent_effects-direct o (suc i) rest w) refl
