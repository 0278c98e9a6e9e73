-- ===== src/Remote/Copies.antt =====
-- Copies between host and device through the shared window.
use Prim.Native.String.{String}
use fan_master_thesis.Base.{
  ℕ, ◌^◌, ◌≤◌, ◌<◌, ◌≡◌, Bool-cases, inl, inr, Option, some, List, [], ◌∷◌, length, take, All,
  if◌then◌else◌, read_at,
}
use fan_master_thesis.Stream.Items.{text, IsItem, encode_all}
use fan_master_thesis.Stream.Serializer.{buffer_size}
use fan_master_thesis.Stream.Response.{result_size}
use fan_master_thesis.Pinned.Convert.{in_client_pin, convert_pin}
use fan_master_thesis.Vgpu.Mapped
use fan_master_thesis.Client.{CudaClient, call_items, IsClient}
use fan_master_thesis.Gpu.Params.{Argument, number, address, Outcome, Driver}
use fan_master_thesis.Gpu.Instance.{GpuInstance, implement, reply_code}
use fan_master_thesis.Gpu.Handlers.{argument_at, replace, to_host, to_host_pin}
use fan_master_thesis.Gpu.Handlers
use fan_master_thesis.Gpu.Chain.{memcpy_dtoh_branch, branch_of, run_branch, dispatch}
use fan_master_thesis.Remote.{IsHost, remote_call, givens, sent_effects}
use fan_master_thesis.Remote.Request.{params_of}
use fan_master_thesis.Remote.Branches.{reply_code-Carries, implement-Runs, remote_call-Runs}
use fan_master_thesis.Remote.Hooks.{Guest, dtoh_args, memcpy_dtoh}

module _ {S : Type 0} where
  -- The host once the guest's window holds `file`.
  abbrev pub sharing : (Option (List ℕ) → S → S) → List ℕ → GpuInstance S → GpuInstance S
  sharing share file g = record g { driver_state = share (some file) g.driver_state }

  -- Where the host finds what the guest has at `p`: at the same offset in the pinned memory, if `p`
  -- is taken to be pinned, and else at the start of the shared window.
  abbrev pub host_address : GpuInstance S → ℕ → ℕ
  host_address g p =
      if in_client_pin g.client_pin_start p
      then convert_pin g.pinned_memory.pin_start g.client_pin_start p
      else g.vgpu_ptr

  to_host-host_address :
      (i : ℕ) (args : List Argument) (g : GpuInstance S)
      → to_host i args g ≡ (replace i (address (host_address g (argument_at i args))) args, g)
  unfolding to_host to_host_pin
  to_host-host_address i args g =
      elim (Bool-cases (in_client_pin g.client_pin_start (argument_at i args))) [
        | inl pinned ↦ rw pinned
        | inr other ↦ rw other
      ]

module _ {S : Type 0} (spell : String → List ℕ) (driver : Driver S) (ptx_path : List ℕ)
    (prop_size : ℕ) where
  -- The driver's copy, from or to the address on the host.
  abbrev pub htod_outcome : ℕ → ℕ → ℕ → GpuInstance S → Outcome S
  htod_outcome dst src n g =
      driver (spell "cuMemcpyHtoD") (number 8 dst ∷ address (host_address g src) ∷ number 8 n ∷ [])
        g.driver_state

  abbrev pub dtoh_outcome : ℕ → ℕ → ℕ → GpuInstance S → Outcome S
  dtoh_outcome dst src n g =
      driver (spell "cuMemcpyDtoH") (address (host_address g dst) ∷ number 8 src ∷ number 8 n ∷ [])
        g.driver_state

  dtoh_call :
      (dst src n : ℕ) (c : CudaClient) (g : GpuInstance S)
      → IsClient c
      → IsHost g
      → branch_of spell (spell "cuMemcpyDtoH") ≡ some memcpy_dtoh_branch
      → All (λ ch. 0 < ch) (spell "cuMemcpyDtoH")
      → All IsItem (call_items (dtoh_args dst src n))
      → length (encode_all (text (spell "cuMemcpyDtoH") ∷ call_items (dtoh_args dst src n)))
        ≤ buffer_size
      → (dtoh_outcome dst src n g).code < 256 ^ result_size
      → (c' : CudaClient) × (g' : GpuInstance S) × (remote_call spell driver ptx_path prop_size
            (spell "cuMemcpyDtoH")
            (call_items (dtoh_args dst src n))
            []
            c
            g
          ≡ some ((dtoh_outcome dst src n g).code, [], c', g'))
        × (g'.driver_state ≡ (dtoh_outcome dst src n g).next)
        × IsClient c'
        × IsHost g'
  unfolding argument_at replace sent_effects
  dtoh_call dst src n c g hc hg chosen named ok fits coded =
      let name = spell "cuMemcpyDtoH" in
      let args = dtoh_args dst src n in
      remote_call-Runs spell driver ptx_path prop_size name args []
        (implement driver name (params_of args) (to_host 0) reply_code) (dtoh_outcome dst src n g) c
        g hc hg named ok fits
        (λ h. unfold Handlers.memcpy_dtoh dispatch run_branch in rw (dispatch, chosen))
        (λ g₁ p.
          implement-Runs spell driver ptx_path prop_size name name args [] (to_host 0) reply_code _
            g g₁ p
            (λ d r.
              to_host-host_address 0 (givens args) (record g { deserializer = d; response = r }))
            (reply_code-Carries _ _ g.response hg.replies coded))

  -- cuMemcpyDtoH: the driver copies from the device to the window, or to the pinned memory if the
  -- guest's address is taken to be pinned; the hook returns the driver's code, and whichever of
  -- the two it was, what it stores at the guest's address is what the window's file begins with
  -- after the call. The name is answered by its branch, the arguments are within their types, the
  -- request fits the buffer, the code is of its type, the guest's window is as large as the data, and
  -- so is the file.
  pub memcpy_dtoh-direct :
      (device_file : S → Option (List ℕ)) (dst src n : ℕ) (file bytes : List ℕ) (u : Guest)
      (g : GpuInstance S)
      → IsClient u.client
      → IsHost g
      → branch_of spell (spell "cuMemcpyDtoH") ≡ some memcpy_dtoh_branch
      → All (λ ch. 0 < ch) (spell "cuMemcpyDtoH")
      → All IsItem (call_items (dtoh_args dst src n))
      → length (encode_all (text (spell "cuMemcpyDtoH") ∷ call_items (dtoh_args dst src n)))
        ≤ buffer_size
      → (dtoh_outcome dst src n g).code < 256 ^ result_size
      → device_file (dtoh_outcome dst src n g).next ≡ some file
      → n ≤ u.window.vgpu_size
      → read_at file 0 n ≡ some bytes
      → (u' : Guest) × (g' : GpuInstance S) × (memcpy_dtoh spell driver ptx_path prop_size
            device_file dst src n u g
          ≡ some ((dtoh_outcome dst src n g).code, bytes, u', g'))
        × (g'.driver_state ≡ (dtoh_outcome dst src n g).next)
        × IsClient u'.client
        × IsHost g'
  unfolding memcpy_dtoh
  memcpy_dtoh-direct device_file dst src n file bytes u g hc hg chosen named ok fits coded holds
        reach read =
      let (c', g', called, next, hc', hg') =
        dtoh_call dst src n u.client g hc hg chosen named ok fits coded in
      (
        record u {
          client = c';
          window = record u.window { window = some (take u.window.vgpu_size file) };
        },
        g',
        rw (called, next, holds, Mapped.from_device-read_at file bytes n u.window reach read),
        next,
        hc',
        hg',
      )
