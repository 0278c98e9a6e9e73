-- ===== src/Remote/Scalar.antt =====
-- Branches that reply with a scalar: cuMemAlloc, whose hook reads it as a result, and
-- cuModuleGetFunction, whose hook asks for it.
use Prim.Native.String.{String}
use fan_master_thesis.Base.{
  false, ◌==◌, ℕ, ◌+◌, ◌^◌, ◌≤◌, ◌<◌, ◌≡◌, refl, sym, ap, ◌∙◌, some, List, [], ◌∷◌, length, All,
  arith, le_bytes, length-le_bytes, from_le-le_bytes, read_at, write_at-fits, length-write_at,
  read_at-write_at, read_at-frame, splice,
}
use fan_master_thesis.Stream.Items.{text, IsItem, encode_all, word_size}
use fan_master_thesis.Stream.Serializer.{buffer_size}
use fan_master_thesis.Stream.Response.{
  Response, stored, untouched, msize, result_size, set_curesult, set_cuscalar, curesult, cuscalar,
  reset, get_all, get, fetch,
}
use fan_master_thesis.Client.{CudaClient, CallArg, value_arg, result_arg, call_items, IsClient}
use fan_master_thesis.Gpu.Params.{Argument, number, local, Outcome, Driver}
use fan_master_thesis.Gpu.Instance.{GpuInstance, implement, reply_scalar, as_read}
use fan_master_thesis.Gpu.Handlers
use fan_master_thesis.Gpu.Chain.{mem_alloc_branch, branch_of, run_branch, dispatch}
use fan_master_thesis.Remote.{IsHost, hook_remote, has_null, givens, sent_effects}
use fan_master_thesis.Remote.Request.{params_of}
use fan_master_thesis.Remote.Reply.{Carries}
use fan_master_thesis.Remote.Branches.{implement-Runs, remote_call-Runs}

-- The arguments of cuMemAlloc(dptr, bytesize).
abbrev pub alloc_args : ℕ → ℕ → List CallArg
alloc_args dptr n = result_arg 8 dptr ∷ value_arg 8 n ∷ []

module _ {S : Type 0} (o : Outcome S) where
  -- Where the code and the scalar stand in the reply.
  reply_scalar-written :
      (args : List Argument) (r : Response)
      → length r.mdata ≡ msize
      → (m : List ℕ) × (reply_scalar o args (reset r)
          ≡ some (record { mdata = m; at = result_size }))
        × (read_at m 0 result_size ≡ some (le_bytes result_size o.code))
        × (read_at m result_size word_size ≡ some (le_bytes word_size (o.value_at 0)))
        × (length m ≡ msize)
  unfolding reply_scalar set_curesult set_cuscalar reset
  reply_scalar-written args r size =
      let status : List ℕ = le_bytes result_size o.code in
      let scalar : List ℕ = le_bytes word_size (o.value_at 0) in
      let four : length status ≡ result_size = length-le_bytes result_size o.code in
      let eight : length scalar ≡ word_size = length-le_bytes word_size (o.value_at 0) in
      let written = write_at-fits r.mdata status 0 (omega arith) in
      let m : List ℕ = splice r.mdata 0 status in
      let size₁ : length m ≡ msize = length-write_at r.mdata status 0 written ∙ size in
      let written' = write_at-fits m scalar result_size (omega arith) in
      let m' : List ℕ = splice m result_size scalar in
      let code : read_at m 0 result_size ≡ some status =
        ap (λ k. read_at m 0 k) (sym four) ∙ read_at-write_at r.mdata status 0 written in
      (
        m',
        rw (written, written'),
        read_at-frame m scalar result_size written' 0 result_size (omega arith) ∙ code,
        ap (λ k. read_at m' result_size k) (sym eight)
            ∙ read_at-write_at m scalar result_size written',
        length-write_at m scalar result_size written' ∙ size₁,
      )

  reply_scalar-Carries :
      (args : List Argument) (dptr n : ℕ) (r : Response)
      → length r.mdata ≡ msize
      → o.code < 256 ^ result_size
      → o.value_at 0 < 256 ^ word_size
      → (reply : Response) × (reply_scalar o args (reset r) ≡ some reply)
        × Carries o (alloc_args dptr n) reply
  unfolding sent_effects get_all get fetch curesult
  reply_scalar-Carries args dptr n r size coded valued =
      let (m, filled, code, scalar, sized) = reply_scalar-written args r size in
      (
        record { mdata = m; at = result_size },
        filled,
        record {
          results =
              (result_size + 16, rw (scalar, from_le-le_bytes word_size (o.value_at 0) valued));
          code = rw (code, from_le-le_bytes result_size o.code coded);
          sized = sized;
        },
      )

  -- For a hook that reads the result alone.
  pub reply_scalar-result :
      (args : List Argument) (at : ℕ) (r : Response)
      → length r.mdata ≡ msize
      → o.code < 256 ^ result_size
      → o.value_at 0 < 256 ^ word_size
      → (reply : Response) × (reply_scalar o args (reset r) ≡ some reply)
        × Carries o (result_arg 8 at ∷ []) reply
  unfolding sent_effects get_all get fetch curesult
  reply_scalar-result args at r size coded valued =
      let (m, filled, code, scalar, sized) = reply_scalar-written args r size in
      (
        record { mdata = m; at = result_size },
        filled,
        record {
          results =
              (result_size + 8, rw (scalar, from_le-le_bytes word_size (o.value_at 0) valued));
          code = rw (code, from_le-le_bytes result_size o.code coded);
          sized = sized;
        },
      )

  -- For a hook without results, which asks for the scalar.
  pub reply_scalar-asked :
      (args : List Argument) (r : Response)
      → length r.mdata ≡ msize
      → o.code < 256 ^ result_size
      → o.value_at 0 < 256 ^ word_size
      → (reply : Response) × (reply_scalar o args (reset r) ≡ some reply)
        × Carries o [] reply
        × (cuscalar reply ≡ some (o.value_at 0))
  unfolding sent_effects get_all curesult cuscalar
  reply_scalar-asked args r size coded valued =
      let (m, filled, code, scalar, sized) = reply_scalar-written args r size in
      (
        record { mdata = m; at = result_size },
        filled,
        record {
          results = (result_size, refl);
          code = rw (code, from_le-le_bytes result_size o.code coded);
          sized = sized;
        },
        rw (scalar, from_le-le_bytes word_size (o.value_at 0) valued),
      )

module _ {S : Type 0} (spell : String → List ℕ) (driver : Driver S) (ptx_path : List ℕ)
    (prop_size : ℕ) where
  abbrev pub alloc_outcome : ℕ → GpuInstance S → Outcome S
  alloc_outcome n g = driver (spell "cuMemAlloc") (local 8 ∷ number 8 n ∷ []) g.driver_state

  -- cuMemAlloc: the driver allocates on the host, the hook returns its code, and the device pointer,
  -- which the host sends as a scalar, is stored at the guest's `dptr`, which is not null. The name is
  -- answered by its branch, the arguments are within their types, the request fits the buffer, and the driver
  -- returns a code and a pointer of their types.
  pub mem_alloc-direct :
      (dptr n : ℕ) (c : CudaClient) (g : GpuInstance S)
      → IsClient c
      → IsHost g
      → branch_of spell (spell "cuMemAlloc") ≡ some mem_alloc_branch
      → All (λ ch. 0 < ch) (spell "cuMemAlloc")
      → All IsItem (call_items (alloc_args dptr n))
      → length (encode_all (text (spell "cuMemAlloc") ∷ call_items (alloc_args dptr n)))
        ≤ buffer_size
      → (dptr == 0) ≡ false
      → (alloc_outcome n g).code < 256 ^ result_size
      → (alloc_outcome n g).value_at 0 < 256 ^ word_size
      → (c' : CudaClient) × (g' : GpuInstance S) × (hook_remote spell driver ptx_path prop_size
            (spell "cuMemAlloc")
            (alloc_args dptr n)
            c
            g
          ≡ some (
            (alloc_outcome n g).code,
            stored ((alloc_outcome n g).value_at 0) ∷ untouched ∷ [],
            c',
            g',
          ))
        × (g'.driver_state ≡ (alloc_outcome n g).next)
        × IsClient c'
        × IsHost g'
  unfolding hook_remote has_null sent_effects
  mem_alloc-direct dptr n c g hc hg chosen named ok fits there coded valued =
      let name = spell "cuMemAlloc" in
      let args = alloc_args dptr n in
      rw there (
        remote_call-Runs spell driver ptx_path prop_size name args args
          (implement driver name (params_of args) as_read reply_scalar) (alloc_outcome n g) c g hc
          hg named ok fits
          (λ x. unfold Handlers.mem_alloc dispatch run_branch in rw (dispatch, chosen))
          (λ g₁ p.
            implement-Runs spell driver ptx_path prop_size name name args args as_read reply_scalar
              (givens args) g g₁ p (λ d r. refl)
              (reply_scalar-Carries (alloc_outcome n g) (givens args) dptr n g.response hg.replies
                coded valued)))
