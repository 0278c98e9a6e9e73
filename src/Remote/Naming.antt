-- ===== src/Remote/Naming.antt =====
-- cuModuleGetFunction: the handle that the host's driver gives out, and the name that the guest
-- keeps for it, by which cuLaunchKernel finds the kernel's parameters.
use Prim.Native.String.{String}
use fan_master_thesis.Base.{
  ℕ, ◌^◌, ◌≤◌, ◌<◌, ◌≡◌, refl, ap, Bool-cases, ◌==◌, inl, inr, some, List, [], ◌∷◌, length, All,
  arith,
}
use fan_master_thesis.Stream.Items.{text, IsItem, encode_all, word_size}
use fan_master_thesis.Stream.Serializer.{buffer_size}
use fan_master_thesis.Stream.Response.{result_size, cuscalar}
use fan_master_thesis.Ptx.{get_params}
use fan_master_thesis.Client.{CallArg, result_arg, handle_arg, text_arg, call_items, IsClient}
use fan_master_thesis.Gpu.Params.{Argument, local, Outcome, Driver}
use fan_master_thesis.Gpu.Params
use fan_master_thesis.Gpu.Instance.{GpuInstance, implement, reply_scalar, as_read}
use fan_master_thesis.Gpu.Handlers
use fan_master_thesis.Gpu.Chain.{module_get_function_branch, branch_of, run_branch, dispatch}
use fan_master_thesis.Remote.{IsHost, givens, sent_effects}
use fan_master_thesis.Remote.Request.{params_of}
use fan_master_thesis.Remote.Branches.{implement-Ends, remote_call-Ends}
use fan_master_thesis.Remote.Scalar.{reply_scalar-asked}
use fan_master_thesis.Remote.Hooks.{
  Guest, Launch, function_name, name_function, module_get_function,
}
use fan_master_thesis.Remote.Launch.{kernel_types}

-- The arguments of cuModuleGetFunction(hfunc, hmod, name).
abbrev pub function_args : ℕ → ℕ → List ℕ → List CallArg
function_args hfunc hmod name = result_arg 8 hfunc ∷ handle_arg hmod ∷ text_arg name ∷ []

-- A handle that has been named is found under that name.
function_name-name_function :
    (f : ℕ) (name : List ℕ) (m : List (ℕ × List ℕ))
    → (function_name f (name_function f name m)).0 ≡ name
unfolding function_name name_function
function_name-name_function f name [] = ground arith
function_name-name_function f name ((h, old) ∷ m) = elim (Bool-cases (h == f)) [
  | inl same ↦ rw (same, same) refl
  | inr differs ↦ rw (differs, differs) (function_name-name_function f name m)
]

module _ {S : Type 0} (spell : String → List ℕ) (driver : Driver S) (ptx_path : List ℕ)
    (prop_size : ℕ) where
  abbrev pub function_outcome : ℕ → List ℕ → GpuInstance S → Outcome S
  function_outcome hmod name g =
      driver (spell "cuModuleGetFunction")
        (local 8 ∷ Params.handle_arg hmod ∷ Params.text name ∷ []) g.driver_state

  -- cuModuleGetFunction: the host's driver looks the function up by the guest's module and name, the
  -- hook returns its code and stores its handle, and from then on a launch of that handle takes the
  -- parameters that the PTX file declares for that name. The call's name is answered by its branch,
  -- the arguments are within their types, the request fits the buffer, and the driver returns a code
  -- and a handle of their types.
  pub module_get_function-direct :
      (hfunc hmod : ℕ) (name : List ℕ) (u : Guest) (g : GpuInstance S)
      → IsClient u.client
      → IsHost g
      → branch_of spell (spell "cuModuleGetFunction") ≡ some module_get_function_branch
      → All (λ ch. 0 < ch) (spell "cuModuleGetFunction")
      → All IsItem (call_items (function_args hfunc hmod name))
      → length (
          encode_all
            (text (spell "cuModuleGetFunction") ∷ call_items (function_args hfunc hmod name)))
        ≤ buffer_size
      → (function_outcome hmod name g).code < 256 ^ result_size
      → (function_outcome hmod name g).value_at 0 < 256 ^ word_size
      → (u' : Guest) × (g' : GpuInstance S) × (module_get_function spell driver ptx_path prop_size
            hfunc hmod name u g
          ≡ some (
            (function_outcome hmod name g).code,
            (function_outcome hmod name g).value_at 0,
            u',
            g',
          ))
        × (g'.driver_state ≡ (function_outcome hmod name g).next)
        × IsClient u'.client
        × IsHost g'
        × ((l : Launch)
            → kernel_types (record l { function = (function_outcome hmod name g).value_at 0 }) u'
              ≡ (get_params name u.func_proto).0)
  unfolding module_get_function sent_effects
  module_get_function-direct hfunc hmod name u g hc hg chosen named ok fits coded valued =
      let call = spell "cuModuleGetFunction" in
      let args = function_args hfunc hmod name in
      let o = function_outcome hmod name g in
      let f : ℕ = o.value_at 0 in
      let (reply, filled, carries, asked) =
        reply_scalar-asked o (givens args) g.response hg.replies coded valued in
      let Q : GpuInstance S → Type 0 =
        λ g'. (g'.driver_state ≡ o.next) × (cuscalar g'.response ≡ some f) in
      let (c', g', called, good, hc', hg', same) =
        remote_call-Ends spell driver ptx_path prop_size call args []
          (implement driver call (params_of args) as_read reply_scalar) o u.client g Q hc hg named
          ok fits
          (λ x. unfold Handlers.module_get_function dispatch run_branch in rw (dispatch, chosen))
          (λ g₁ p.
            implement-Ends spell driver ptx_path prop_size call call args [] as_read reply_scalar
              (givens args) g g g₁ Q p (λ d r. refl)
              (reply, filled, carries, λ d. (refl, asked))) in
      let scalar : cuscalar c'.response ≡ some f = unfold cuscalar in rw same good.1 in
      (
        record u { client = c'; hashfunc = name_function f name u.hashfunc },
        g',
        rw (called, scalar),
        good.0,
        hc',
        hg',
        λ l.
            ap (λ n. (get_params n u.func_proto).0) (function_name-name_function f name u.hashfunc),
      )
