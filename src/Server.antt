-- ===== src/Server.antt =====
-- class CUDAServer of interception/cuda_server.cpp: connections come in, each with its own
-- GPUInstance in a thread of its own, and all call the same driver.
pub mod Connections
use Prim.Native.String.{String}
use fan_master_thesis.Base.{
  ℕ, zero, suc, ◌≡◌, Bool, true, false, Option, some, List, [], ◌∷◌, ◌++◌, length, get_elem?,
}
use fan_master_thesis.Stream.Serializer.{buffer_size}
use fan_master_thesis.Stream.Response.{msize}
use fan_master_thesis.Gpu.Params.{Driver}
use fan_master_thesis.Gpu.Instance.{GpuInstance}
use fan_master_thesis.Gpu.Chain.{implement_cuda_function}
use fan_master_thesis.Gpu.Life.{Mapping, construct, destroy}

-- A thread in `handle`: its descriptor, its context, and its members. The driver's state is the
-- server's, so that the one among the members is that of the thread's last round.
pub record Connection (S : Type 0) : Type 0 where
  pub client_fd : ℕ
  pub context : ℕ
  pub gpu : GpuInstance S

-- `listening` is whether `server_fd_` is open.
pub record Server (S : Type 0) : Type 0 where
  pub listening : Bool
  pub connections : List (Connection S)
  pub driver_state : S

-- initialize_server(), where it succeeds
unfoldable pub start : {S : Type 0} → S → Server S
start s = record { listening = true; connections = []; driver_state = s }

-- The allocations have the sizes of Deserializer and Response.
abbrev pub IsMapping : Mapping → Type 0
IsMapping m = (length m.request ≡ buffer_size) × (length m.reply ≡ msize)

unfoldable pub replace : {A : Type 0} → ℕ → A → List A → List A
replace i a [] = []
replace zero a (x ∷ xs) = a ∷ xs
replace (suc i) a (x ∷ xs) = x ∷ replace i a xs

-- A thread's members as its next round finds them.
abbrev pub current : {S : Type 0} → Connection S → S → GpuInstance S
current c s = record c.gpu { driver_state = s }

module _ {S : Type 0} (spell : String → List ℕ) (driver : Driver S) (ptx_path : List ℕ)
    (prop_size : ℕ) where
  -- A step of the loop of `run`, or of a thread; a round of a thread is taken as one step.
  pub data Step (s : Server S) (t : Server S) : Type 0 where
    -- initialize_client() accepts a guest, and client_thread_function makes a GPUInstance for it.
    accepted :
        (fd context : ℕ) (m : Mapping) (g : GpuInstance S)
        → s.listening ≡ true
        → IsMapping m
        → construct spell driver ptx_path prop_size 0 m s.driver_state ≡ some (context, g)
        → t ≡ record s {
          connections =
              s.connections ++ ((record { client_fd = fd; context = context; gpu = g }) ∷ []);
          driver_state = g.driver_state;
        }
        → Step s t
    -- accept fails: the server's descriptor is closed, and the thread that is started with -1 makes
    -- a GPUInstance, finds nothing to handle, and destroys it.
    refused :
        (context : ℕ) (m : Mapping) (g : GpuInstance S)
        → IsMapping m
        → construct spell driver ptx_path prop_size 0 m s.driver_state ≡ some (context, g)
        → t ≡ record s {
          listening = false;
          driver_state = destroy spell driver ptx_path prop_size context g;
        }
        → Step s t
    -- A round of implement_cuda_function in the i-th thread.
    served :
        (i : ℕ) (c : Connection S) (chunk reply : List ℕ) (g : GpuInstance S)
        → get_elem? s.connections i ≡ some c
        → implement_cuda_function spell driver ptx_path prop_size chunk (current c s.driver_state)
          ≡ some (g, reply)
        → t ≡ record s {
          connections = replace i (record c { gpu = g }) s.connections;
          driver_state = g.driver_state;
        }
        → Step s t

  pub data Reach (s : Server S) : Server S → Type 0 where
    here : Reach s s
    next : {t u : Server S} → Reach s t → Step t u → Reach s u
