-- ===== src/Remote/Status.antt =====
-- cudaGetDeviceCount and cudaGetDevice: the value arrives, the status does not.
use Prim.Native.String.{String}
use fan_master_thesis.Base.{
  ℕ, ◌^◌, ◌≤◌, ◌<◌, ◌≡◌, refl, ap, ◌∙◌, some, List, [], ◌∷◌, length, All, arith, from_le, take,
  drop, read_at-fits,
}
use fan_master_thesis.Stream.Items.{text, IsItem, encode_all}
use fan_master_thesis.Stream.Serializer.{buffer_size}
use fan_master_thesis.Stream.Response.{
  Response, Operand, plain, ptr, untouched, stored, result_size, msize, reset, curesult, put,
  put_all, plain_target, ptr_target,
}
use fan_master_thesis.Stream.Response.Room.{put_all-Moves}
use fan_master_thesis.Stream.Response.Frame.{put_all-Extends}
use fan_master_thesis.Stream.Response.RoundTrip.{get_all-put_all-from}
use fan_master_thesis.Client.{value_arg, result_arg, call_items, IsClient}
use fan_master_thesis.Gpu.Params.{Argument, local, Outcome, Driver, arguments}
use fan_master_thesis.Gpu.Instance.{GpuInstance, implement}
use fan_master_thesis.Gpu.Runtime.{reply_status_value}
use fan_master_thesis.Gpu.Runtime
use fan_master_thesis.Stream.Deserializer
use fan_master_thesis.Gpu.Chain.{runtime_device_count_branch, branch_of, run_branch, dispatch}
use fan_master_thesis.Remote.{IsHost, sent_effects}
use fan_master_thesis.Remote.Request.{Pulled}
use fan_master_thesis.Remote.Reply.{Carries}
use fan_master_thesis.Remote.Branches.{Ends, remote_call-Ends}
use fan_master_thesis.Remote.Hooks.{Guest}
use fan_master_thesis.Remote.Modules.{runtime_device_count}

module _ {S : Type 0} where
  -- The outcome as the hook's reads see it: the value is the second of what they read, and the code
  -- is what the status of the reply was before.
  abbrev seen : ℕ → Outcome S → Outcome S
  seen old o = record o { code = old; value_at = λ i. o.value_at 0 }

  abbrev pub old_status : GpuInstance S → ℕ
  old_status g = from_le (take result_size (drop 0 g.response.mdata))

  reply_status_value-Carries :
      (o : Outcome S) (args : List Argument) (at : ℕ) (g : GpuInstance S)
      → IsHost g
      → o.value_at 0 < 256 ^ 4
      → (reply : Response) × (reply_status_value 4 o args (reset g.response) ≡ some reply)
        × Carries (seen (old_status g) o) (value_arg 4 0 ∷ result_arg 4 at ∷ []) reply
  unfolding reply_status_value reset curesult put_all put sent_effects
  reply_status_value-Carries o args at g hg valued =
      let ops : List Operand = plain 4 o.code ∷ ptr 4 (o.value_at 0) ∷ [] in
      let r : Response = record { mdata = g.response.mdata; at = result_size } in
      let size : length g.response.mdata ≡ msize = hg.replies in
      let (reply, sent, at', size') = put_all-Moves ops r (omega (arith, hg.replies)) in
      let back =
        get_all-put_all-from ops (plain_target 4 ∷ ptr_target 4 ∷ []) r reply sent hg.replies
          (refl, ((refl, valued), tt)) in
      let kept = (put_all-Extends ops sent).frame 0 result_size (omega arith) in
      let whole = read_at-fits g.response.mdata 0 result_size (omega (arith, hg.replies)) in
      (
        reply,
        sent,
        record { results = (reply.at, back); code = rw (kept, whole) refl; sized = size' ∙ size },
      )

module _ {S : Type 0} (spell : String → List ℕ) (driver : Driver S) (ptx_path : List ℕ)
    (prop_size : ℕ) where
  abbrev pub count_outcome : GpuInstance S → Outcome S
  count_outcome g = driver (spell "cudaGetDeviceCount") (local 4 ∷ []) g.driver_state

  count_Ends :
      (count : ℕ) (g g₁ : GpuInstance S)
      → IsHost g
      → Pulled (spell "cudaGetDeviceCount") (result_arg 4 count ∷ []) g g₁
      → (count_outcome g).value_at 0 < 256 ^ 4
      → Ends spell driver ptx_path prop_size
          (λ g'. g'.driver_state ≡ (count_outcome g).next)
          (seen (old_status g) (count_outcome g))
          (value_arg 4 0 ∷ result_arg 4 count ∷ [])
          (Runtime.runtime_device_count spell driver ptx_path)
          g₁
  unfolding Runtime.runtime_device_count implement Deserializer.get_all arguments
  count_Ends count g g₁ hg p valued =
      let o = count_outcome g in
      let (reply, filled, carries) =
        reply_status_value-Carries o (local 4 ∷ []) count g hg valued in
      let branch = Runtime.runtime_device_count spell driver ptx_path in
      let whole =
        ap {A = GpuInstance S} {B = GpuInstance S} (λ x. record x { response = reset x.response })
          p.only in
      let end_state : GpuInstance S = record g {
        deserializer = g₁.deserializer;
        response = reply;
        driver_state = o.next;
      } in
      let run : branch (record g { deserializer = g₁.deserializer; response = reset g.response })
          ≡ some end_state =
        rw filled in
      (
        end_state,
        ap branch whole ∙ run,
        refl,
        record { receives = p.sized; replies = carries.sized },
        carries,
      )

  -- cudaGetDeviceCount stores the count that the driver on the host returns, and the driver has gone
  -- on; but the hook returns what its local variable happened to hold, whatever the driver's status
  -- was. The name is answered by its branch, the pointer is one of 64 bits, the request fits the
  -- buffer, and the count is an `int`.
  pub runtime_device_count-stored :
      (count result : ℕ) (u : Guest) (g : GpuInstance S)
      → IsClient u.client
      → IsHost g
      → branch_of spell (spell "cudaGetDeviceCount") ≡ some runtime_device_count_branch
      → All (λ ch. 0 < ch) (spell "cudaGetDeviceCount")
      → All IsItem (call_items (result_arg 4 count ∷ []))
      → length
          (encode_all (text (spell "cudaGetDeviceCount") ∷ call_items (result_arg 4 count ∷ [])))
        ≤ buffer_size
      → (count_outcome g).value_at 0 < 256 ^ 4
      → (u' : Guest) × (g' : GpuInstance S) × (runtime_device_count spell driver ptx_path prop_size
            count result u g
          ≡ some (result, untouched ∷ stored ((count_outcome g).value_at 0) ∷ [], u', g'))
        × (g'.driver_state ≡ (count_outcome g).next)
        × IsClient u'.client
        × IsHost g'
  unfolding runtime_device_count sent_effects
  runtime_device_count-stored count result u g hc hg chosen named ok fits valued =
      let name = spell "cudaGetDeviceCount" in
      let o = count_outcome g in
      let (c', g', called, next, hc', hg', _) =
        remote_call-Ends spell driver ptx_path prop_size name (result_arg 4 count ∷ [])
          (value_arg 4 0 ∷ result_arg 4 count ∷ [])
          (Runtime.runtime_device_count spell driver ptx_path) (seen (old_status g) o) u.client g
          (λ g'. g'.driver_state ≡ o.next) hc hg named ok fits
          (λ x. unfold dispatch run_branch in rw (dispatch, chosen))
          (λ g₁ p. count_Ends count g g₁ hg p valued) in
      (record u { client = c' }, g', rw called, next, hc', hg')
