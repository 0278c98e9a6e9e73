-- ===== src/Remote/Pinning.antt =====
-- cuMemHostAlloc: the guest's block is mirrored by a region of the host that is registered with the
-- driver.
use Prim.Native.String.{String}
use fan_master_thesis.Base.{
  ℕ, ◌^◌, ◌≤◌, ◌<◌, ◌≡◌, refl, some, List, [], ◌∷◌, ◌++◌, length, All, ◌==◌, if◌then◌else◌,
}
use fan_master_thesis.Stream.Items.{text, IsItem, encode_all}
use fan_master_thesis.Stream.Serializer.{buffer_size}
use fan_master_thesis.Stream.Response.{result_size}
use fan_master_thesis.Pinned.{register_pinned_memory}
use fan_master_thesis.Client.{call_items, IsClient}
use fan_master_thesis.Gpu.Params.{Argument, address, number, Outcome, Driver}
use fan_master_thesis.Gpu.Instance.{GpuInstance, implement, reply_code}
use fan_master_thesis.Gpu.Handlers.{register_host, argument_at}
use fan_master_thesis.Gpu.Handlers
use fan_master_thesis.Gpu.Chain.{mem_host_alloc_branch, branch_of, run_branch, dispatch}
use fan_master_thesis.Remote.{IsHost, sent_effects}
use fan_master_thesis.Remote.Request.{params_of}
use fan_master_thesis.Remote.Branches.{reply_code-Carries, implement-Ends, remote_call-Ends}
use fan_master_thesis.Remote.Hooks.{Guest}
use fan_master_thesis.Remote.Modules.{alloc_host_args, mem_host_alloc}

module _ {S : Type 0} where
  -- The region that is handed out, and the members afterwards.
  abbrev pub region : ℕ → GpuInstance S → ℕ
  region n g = (register_pinned_memory n g.pinned_memory).0

  abbrev pub registers : ℕ → ℕ → GpuInstance S → GpuInstance S
  registers p n g = record g {
    pinned_memory = (register_pinned_memory n g.pinned_memory).1;
    client_pin_start = if g.client_pin_start == 0 then p else g.client_pin_start;
    registered = g.registered ++ (region n g ∷ []);
  }

module _ {S : Type 0} (spell : String → List ℕ) (driver : Driver S) (ptx_path : List ℕ)
    (prop_size : ℕ) where
  abbrev pub pin_outcome : ℕ → ℕ → GpuInstance S → Outcome S
  pin_outcome n flags g =
      driver (spell "cuMemHostRegister") (address (region n g) ∷ number 8 n ∷ number 4 flags ∷ [])
        g.driver_state

  -- cuMemHostAlloc through the remote hook has the host hand out the next region of its pinned
  -- memory and the driver register it with the guest's size and flags; the hook returns the driver's
  -- code. The host remembers the region, and the guest's address as the beginning of the guest's
  -- pinned memory if it is the first one. The name is answered by its branch, the arguments are
  -- within their types, the request fits the buffer, and the driver returns a code of its type.
  pub mem_host_alloc-direct :
      (p n flags : ℕ) (u : Guest) (g : GpuInstance S)
      → IsClient u.client
      → IsHost g
      → branch_of spell (spell "cuMemHostAlloc") ≡ some mem_host_alloc_branch
      → All (λ ch. 0 < ch) (spell "cuMemHostAlloc")
      → All IsItem (call_items (alloc_host_args p n flags))
      → length (encode_all (text (spell "cuMemHostAlloc") ∷ call_items (alloc_host_args p n flags)))
        ≤ buffer_size
      → (pin_outcome n flags g).code < 256 ^ result_size
      → (u' : Guest) × (g' : GpuInstance S) × (mem_host_alloc spell driver ptx_path prop_size p n
            flags u g
          ≡ some ((pin_outcome n flags g).code, u', g'))
        × (g'.driver_state ≡ (pin_outcome n flags g).next)
        × (g'.pinned_memory ≡ (registers p n g).pinned_memory)
        × (g'.client_pin_start ≡ (registers p n g).client_pin_start)
        × (g'.registered ≡ (registers p n g).registered)
        × IsClient u'.client
        × IsHost g'
  unfolding mem_host_alloc register_host argument_at sent_effects
  mem_host_alloc-direct p n flags u g hc hg chosen named ok fits coded =
      let name = spell "cuMemHostAlloc" in
      let args = alloc_host_args p n flags in
      let o = pin_outcome n flags g in
      let given : List Argument = address (region n g) ∷ number 8 n ∷ number 4 flags ∷ [] in
      let after = registers p n g in
      let Q : GpuInstance S → Type 0 = λ g'.
        (g'.driver_state ≡ o.next)
        × (g'.pinned_memory ≡ after.pinned_memory)
        × (g'.client_pin_start ≡ after.client_pin_start)
        × (g'.registered ≡ after.registered) in
      let (reply, filled, carries) = reply_code-Carries o given g.response hg.replies coded in
      let (c', g', called, good, hc', hg', _) =
        remote_call-Ends spell driver ptx_path prop_size name args []
          (implement driver (spell "cuMemHostRegister") (params_of args) register_host reply_code) o
          u.client g Q hc hg named ok fits
          (λ x. unfold Handlers.mem_host_alloc dispatch run_branch in rw (dispatch, chosen))
          (λ g₁ pulled.
            implement-Ends spell driver ptx_path prop_size name (spell "cuMemHostRegister") args []
              register_host reply_code given g after g₁ Q pulled (λ d r. refl)
              (reply, filled, carries, λ d. (refl, refl, refl, refl))) in
      let (next, pinned, first, kept) = good in
      (record u { client = c' }, g', rw called, next, pinned, first, kept, hc', hg')
