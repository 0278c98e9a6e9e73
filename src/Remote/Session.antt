-- ===== src/Remote/Session.antt =====
-- A program that makes one remote call after another, over one client and one host.
use Prim.Native.String.{String}
use fan_master_thesis.Base.{
  ℕ, ◌≤◌, ◌<◌, ◌≡◌, refl, false, ◌∙◌, ap, Option, some, List, [], ◌∷◌, length, All, ◌>>=◌,
}
use fan_master_thesis.Stream.Items.{text, IsItem, encode_all}
use fan_master_thesis.Stream.Serializer.{buffer_size}
use fan_master_thesis.Stream.Response.{Effect}
use fan_master_thesis.Client.{CudaClient, CallArg, call_items, IsClient}
use fan_master_thesis.Gpu.Params.{Driver}
use fan_master_thesis.Gpu.Instance.{GpuInstance}
use fan_master_thesis.Gpu.Chain.{plain_call, branch_of}
use fan_master_thesis.Remote.{IsHost, hook_remote, givens, direct_effects, has_null, AllWritten}
use fan_master_thesis.Remote.Request.{params_of}
use fan_master_thesis.Remote.Reply.{IsReturned}
use fan_master_thesis.Remote.Refinement.{hook_remote-direct}

-- A call: the function's name and its arguments.
abbrev pub Call : Type 0
Call = List ℕ × List CallArg

-- What the program sees of a call: the code and the changes to its memory.
abbrev pub Seen : Type 0
Seen = ℕ × List Effect

-- A call that a plain branch of the host answers to and that fits the buffer, with no null pointer
-- to a result.
pub record IsCall (spell : String → List ℕ) (call : Call) : Type 0 where
  pub chosen : branch_of spell call.0 ≡ some (plain_call (params_of call.1))
  pub named : All (λ ch. 0 < ch) call.0
  pub items : All IsItem (call_items call.1)
  pub fits : length (encode_all (text call.0 ∷ call_items call.1)) ≤ buffer_size
  pub there : has_null call.1 ≡ false

module _ {S : Type 0} (spell : String → List ℕ) (driver : Driver S) (ptx_path : List ℕ)
    (prop_size : ℕ) where
  unfoldable pub session :
      List Call → CudaClient → GpuInstance S → Option (List Seen × GpuInstance S)
  session [] c g = some ([], g)
  session ((name, args) ∷ calls) c g = do
    (code, effects, c', g') ← hook_remote spell driver ptx_path prop_size name args c g
    (seen, end) ← session calls c' g'
    some ((code, effects) ∷ seen, end)

  -- The same calls made to the driver on the spot.
  unfoldable pub on_the_spot : List Call → S → List Seen × S
  on_the_spot [] s = ([], s)
  on_the_spot ((name, args) ∷ calls) s =
      let o = driver name (givens args) s in
      let (seen, end) = on_the_spot calls o.next in ((o.code, direct_effects o 0 args) ∷ seen, end)

  -- Whatever the driver returns to these calls, made from that state, a reply can carry, and it writes
  -- all their results.
  abbrev pub AllReturned : List Call → S → Type 0
  AllReturned [] s = Unit
  AllReturned ((name, args) ∷ calls) s =
      IsReturned (driver name (givens args) s) args
      × AllWritten (driver name (givens args) s) 0 args
      × AllReturned calls (driver name (givens args) s).next

  -- A program that makes its calls remotely sees what it would see with the driver on the spot: the
  -- same codes, the same changes to its memory, call by call, and the driver ends in the same state.
  -- Each call is one that a plain branch answers to and that fits the buffer, none of its pointers to
  -- results is null, each of its arrays for a text holds a C string, the driver writes all its
  -- results, and a reply can carry what it returns.
  pub session-on_the_spot :
      (calls : List Call) (c : CudaClient) (g : GpuInstance S)
      → IsClient c
      → IsHost g
      → All (IsCall spell) calls
      → AllReturned calls g.driver_state
      → (end : GpuInstance S) × (session calls c g
          ≡ some ((on_the_spot calls g.driver_state).0, end))
        × (end.driver_state ≡ (on_the_spot calls g.driver_state).1)
        × IsHost end
  unfolding session on_the_spot
  session-on_the_spot [] c g hc hg ok returned = (g, refl, refl, hg)
  session-on_the_spot ((name, args) ∷ calls) c g hc hg ok returned =
      let call = ok.0 in
      let (c', g', first, next, hc', hg') =
        hook_remote-direct spell driver ptx_path prop_size name args c g hc hg call.chosen
          call.named call.items call.fits returned.0 call.there returned.1 in
      let (end, rest, state, host) =
        session-on_the_spot calls c' g' hc' hg' ok.1 (rw next returned.2) in
      (end, rw (first, rest, next), state ∙ ap (λ s. (on_the_spot calls s).1) next, host)
