-- ===== src/Gpu/Instance.antt =====
-- GPUInstance: the state of a connection, and the steps of `implement_cuda_function`.
use fan_master_thesis.Base.{ℕ, Option, none, some, List, write_at, c_string, ◌>>=◌}
use fan_master_thesis.Stream.Items.{text_kind}
use fan_master_thesis.Stream.Deserializer.{Deserializer, Got, value, pointer, pointers}
use fan_master_thesis.Stream.Deserializer
use fan_master_thesis.Stream.Response.{Response}
use fan_master_thesis.Stream.Response
use fan_master_thesis.Pinned.{PinnedMemory}
use fan_master_thesis.Gpu.Params.{
  Param, param_kinds, Argument, arguments, Outcome, Driver, operands,
}

-- The members that a call uses. `driver_state` is the driver's own, host memory included;
-- `vgpu_ptr` and `client_pin_start` are addresses, 0 for null. The vectors that only keep results
-- alive are left out.
pub record GpuInstance (S : Type 0) : Type 0 where
  pub deserializer : Deserializer
  pub response : Response
  pub vgpu_ptr : ℕ
  pub pinned_memory : PinnedMemory
  pub client_pin_start : ℕ
  pub registered : List ℕ
  pub driver_state : S

-- The C string behind the pointer that `>>` left in a `char*`.
unfoldable pub name_behind : List ℕ → Got → Option (List ℕ)
name_behind mem (pointer p) = c_string mem p
name_behind mem (value v) = none
name_behind mem (pointers ps) = none

-- What a handler does to the arguments between reading them and the call, and how it fills the reply.
abbrev pub Prepare : Type 0 → Type 0
Prepare S = List Argument → GpuInstance S → List Argument × GpuInstance S

abbrev pub Reply : Type 0 → Type 0
Reply S = Outcome S → List Argument → Response → Option Response

module _ {S : Type 0} where
  -- char* pull_command(): one `read` of at most BUFFER_SIZE bytes, which returns `chunk`; its result
  -- is not looked at.
  unfoldable pub pull_command : List ℕ → GpuInstance S → Option (List ℕ × GpuInstance S)
  unfolding Deserializer.clean name_behind
  pull_command chunk g = do
    mem ← write_at g.deserializer.mdata 0 chunk
    (got, d) ←
        Deserializer.get text_kind (Deserializer.clean (record g.deserializer { mdata = mem }))
    name ← name_behind mem got
    some (name, record g { deserializer = d })

  -- The shape of a branch of `implement_cuda_function`: the arguments are read, prepared, and handed
  -- to the driver function `name`, and its outcome is written to the reply.
  unfoldable pub implement :
      Driver S → List ℕ → List Param → Prepare S → Reply S → GpuInstance S → Option (GpuInstance S)
  implement driver name params prepare reply g = do
    (gots, d) ← Deserializer.get_all (param_kinds params) g.deserializer
    args ← arguments d.mdata params gots
    let (args', g') = prepare args (record g { deserializer = d })
    let o = driver name args' g'.driver_state
    r ← reply o args' g'.response
    some (record g' { response = r; driver_state = o.next })

  -- The arguments as they were read.
  abbrev pub as_read : Prepare S
  as_read args g = (args, g)

  -- response_.set_curesult(result); response_ << args;
  unfoldable pub reply_args : Reply S
  reply_args o args r = Response.set_curesult o.code r >>= Response.put_all (operands o 0 args)

  -- response_.set_curesult(result);
  unfoldable pub reply_code : Reply S
  reply_code o args r = Response.set_curesult o.code r

  -- set_curesult and set_cuscalar of the first local, in either order.
  unfoldable pub reply_scalar : Reply S
  reply_scalar o args r = Response.set_curesult o.code r >>= Response.set_cuscalar (o.value_at 0)

  -- A branch whose pointer arguments are all results, pointed at locals.
  unfoldable pub implement_plain :
      Driver S → List ℕ → List Param → GpuInstance S → Option (GpuInstance S)
  unfolding implement reply_args
  implement_plain driver name params = implement driver name params as_read reply_args
