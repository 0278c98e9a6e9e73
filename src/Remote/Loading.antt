-- ===== src/Remote/Loading.antt =====
-- cuModuleLoad: the module that the driver loads, and the prototypes that the guest reads.
use Prim.Native.String.{String}
use fan_master_thesis.Base.{ℕ, List, [], ◌∷◌}
use fan_master_thesis.Stream.Items.{text}
use fan_master_thesis.Ptx.Input.{Stream}
use fan_master_thesis.Gpu.Params.{Param, local, Outcome, Driver}
use fan_master_thesis.Gpu.Params
use fan_master_thesis.Gpu.Instance.{GpuInstance}
use fan_master_thesis.Gpu.Handlers

module _ {S : Type 0} (spell : String → List ℕ) (driver : Driver S) (ptx_path : List ℕ)
    (prop_size : ℕ) where
  abbrev pub load_outcome : GpuInstance S → Outcome S
  load_outcome g =
      driver (spell "cuModuleLoad") (local 8 ∷ Params.text ptx_path ∷ []) g.driver_state
