-- ===== src/Gpu/Params.antt =====
-- The parameters of a driver function, as the handlers of interception/gpu_instance.cpp treat them,
-- and the driver itself, which is a parameter of the model.
use fan_master_thesis.Base.{Bool, ℕ, suc, Option, none, some, List, [], ◌∷◌, ◌>>=◌, c_string}
use fan_master_thesis.Stream.Items.{Kind, raw_kind, text_kind, word_size}
use fan_master_thesis.Stream.Deserializer.{Got, value, pointer}
use fan_master_thesis.Stream.Response.{Operand, handle, chars, opaque, ptr, plain}

-- An element of FunctionTraits<…>::ParameterTuple: a value of `n` bytes, a CUDA handle, a pointer to
-- a result of `n` bytes, the `char*` of a text result, a `const char*`, a `void*`, and a
-- `const char*` that the handler replaces before it is read.
pub data Param : Type 0 where
  by_value : ℕ → Param
  by_handle : Param
  result : ℕ → Param
  text_result : Param
  text_arg : Param
  raw_pointer : Param
  unread_text : Param

-- The kind that `deserializer_ >> args` reads for it.
abbrev pub param_kind : Param → Kind
param_kind (by_value n) = raw_kind n
param_kind by_handle = raw_kind word_size
param_kind (result n) = raw_kind word_size
param_kind text_result = text_kind
param_kind text_arg = text_kind
param_kind raw_pointer = raw_kind word_size
param_kind unread_text = text_kind

abbrev pub param_kinds : List Param → List Kind
param_kinds [] = []
param_kinds (p ∷ ps) = param_kind p ∷ param_kinds ps

-- An argument of the call that the host makes: the client's pointers to results have been replaced
-- by pointers to locals of the handler, and the kernel's by pointers into the receive buffer.
pub data Argument : Type 0 where
  number : ℕ → ℕ → Argument
  handle_arg : ℕ → Argument
  local : ℕ → Argument
  local_text : Argument
  text : List ℕ → Argument
  address : ℕ → Argument
  kernel_args : List ℕ → Argument

-- `args` after `deserializer_ >> args` and the assignments `std::get<i>(args) = &local`; `mem` is
-- the receive buffer.
unfoldable pub argument : List ℕ → Param → Got → Option Argument
argument mem (by_value n) (value v) = some (number n v)
argument mem by_handle (value v) = some (handle_arg v)
argument mem (result n) (value v) = some (local n)
argument mem text_result (pointer p) = some local_text
argument mem text_arg (pointer p) = c_string mem p >>= λ cs. some (text cs)
argument mem raw_pointer (value v) = some (address v)
argument mem unread_text (pointer p) = some (address p)
argument mem _ _ = none

unfoldable pub arguments : List ℕ → List Param → List Got → Option (List Argument)
unfolding argument
arguments mem [] [] = some []
arguments mem (p ∷ ps) (g ∷ gs) = do
  a ← argument mem p g
  as_rest ← arguments mem ps gs
  some (a ∷ as_rest)
arguments mem _ _ = none

-- How a driver call ends: the CUresult, whether the driver has written the result behind the i-th
-- argument, what then stands in the local behind it (whatever stood there before, if it has not), and
-- the driver's new state.
pub record Outcome (S : Type 0) : Type 0 where
  pub code : ℕ
  pub written : ℕ → Bool
  pub value_at : ℕ → ℕ
  pub text_at : ℕ → List ℕ
  pub next : S

-- The CUDA driver: the function, by its linkage name, at its arguments.
abbrev pub Driver : Type 0 → Type 0
Driver S = List ℕ → List Argument → S → Outcome S

-- The operands of `response_ << args` after the call, from the i-th argument on.
unfoldable pub operands : {S : Type 0} → Outcome S → ℕ → List Argument → List Operand
operands o i [] = []
operands o i (number n v ∷ as_rest) = plain n v ∷ operands o (suc i) as_rest
operands o i (handle_arg v ∷ as_rest) = handle v ∷ operands o (suc i) as_rest
operands o i (local n ∷ as_rest) = ptr n (o.value_at i) ∷ operands o (suc i) as_rest
operands o i (local_text ∷ as_rest) = chars (o.text_at i) ∷ operands o (suc i) as_rest
operands o i (text cs ∷ as_rest) = opaque ∷ operands o (suc i) as_rest
operands o i (address v ∷ as_rest) = opaque ∷ operands o (suc i) as_rest
operands o i (kernel_args ws ∷ as_rest) = ptr word_size (o.value_at i) ∷ operands o (suc i) as_rest
