-- ===== src/Gpu/Life.antt =====
-- The constructor and the destructor of GPUInstance.
use Prim.Native.String.{String}
use fan_master_thesis.Base.{ℕ, Option, some, List, [], ◌∷◌, ◌>>=◌}
use fan_master_thesis.Stream.Deserializer
use fan_master_thesis.Stream.Response
use fan_master_thesis.Pinned
use fan_master_thesis.Pinned.Convert.{shared_size}
use fan_master_thesis.Gpu.Params.{local, number, handle_arg, address, Driver}
use fan_master_thesis.Gpu.Instance.{GpuInstance}

-- What the members are made of: the two allocations, and the addresses of the mapped window and of
-- the mapped pinned memory, `none` where `mmap` fails and the program exits.
pub record Mapping : Type 0 where
  pub request : List ℕ
  pub reply : List ℕ
  pub window : Option ℕ
  pub pinned : Option ℕ

module _ {S : Type 0} (spell : String → List ℕ) (driver : Driver S) (ptx_path : List ℕ)
    (prop_size : ℕ) where
  -- GPUInstance(device_id, client_fd): the context and the members. The results of cuDeviceGet and
  -- cuCtxCreate are not looked at.
  unfoldable pub construct : ℕ → Mapping → S → Option (ℕ × GpuInstance S)
  construct device_id m s = do
    window ← m.window
    pinned_memory ← Pinned.init m.pinned (shared_size)
    let device = driver (spell "cuDeviceGet") (local 4 ∷ number 4 device_id ∷ []) s
    let context =
        driver (spell "cuCtxCreate") (local 8 ∷ number 4 0 ∷ number 4 (device.value_at 0) ∷ [])
          device.next
    some (
      context.value_at 0,
      record {
        deserializer = Deserializer.init m.request;
        response = Response.init m.reply;
        vgpu_ptr = window;
        pinned_memory = pinned_memory;
        client_pin_start = 0;
        registered = [];
        driver_state = context.next;
      },
    )

  -- for(auto p : registered_) cuMemHostUnregister(p);
  unfoldable pub unregister_all : List ℕ → S → S
  unregister_all [] s = s
  unregister_all (p ∷ ps) s =
      unregister_all ps (driver (spell "cuMemHostUnregister") (address p ∷ []) s).next

  -- ~GPUInstance(): what the driver's state is afterwards.
  unfoldable pub destroy : ℕ → GpuInstance S → S
  unfolding unregister_all
  destroy context g =
      unregister_all g.registered
        (driver (spell "cuCtxDestroy") (handle_arg context ∷ []) g.driver_state).next
