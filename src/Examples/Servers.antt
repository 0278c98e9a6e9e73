-- ===== src/Examples/Servers.antt =====
-- A server with one guest, of which the next accept fails.
use fan_master_thesis.Base.{ℕ, ◌≡◌, refl, some, [], ◌∷◌, length, false, true}
use fan_master_thesis.Stream.Serializer.{buffer_size}
use fan_master_thesis.Stream.Deserializer
use fan_master_thesis.Stream.Response.{msize, result_size}
use fan_master_thesis.Stream.Response
use fan_master_thesis.Pinned
use fan_master_thesis.Pinned.Convert.{shared_size}
use fan_master_thesis.Gpu.Instance.{GpuInstance}
use fan_master_thesis.Gpu.Life.{Mapping, construct, destroy, unregister_all}
use fan_master_thesis.Server.{Server, start, Step, accepted, refused, Reach, here, next}
use fan_master_thesis.Server.Connections.{IsRefusal, closed-for_good}
use fan_master_thesis.Examples.Setup.{bytes, bytes-size, spelling, counting_driver}

abbrev mapping : Mapping
mapping = record {
  request = bytes buffer_size;
  reply = bytes msize;
  window = some 4096;
  pinned = some 8192;
}

-- The members of a new GPUInstance, made by a driver that has been called `n` times.
abbrev made : ℕ → GpuInstance ℕ
made n = record {
  deserializer = record { mdata = bytes buffer_size; mcount = 0 };
  response = record { mdata = bytes msize; at = result_size };
  vgpu_ptr = 4096;
  pinned_memory = record { alloc_pos = 0; pin_start = 8192; pin_size = shared_size; hashmap = [] };
  client_pin_start = 0;
  registered = [];
  driver_state = n;
}

construct-made : construct spelling counting_driver [] 0 0 mapping 5 ≡ some (0, made 7)
unfolding construct counting_driver Deserializer.init Response.init Pinned.init
construct-made = refl

construct-again : construct spelling counting_driver [] 0 0 mapping 7 ≡ some (0, made 9)
unfolding construct counting_driver Deserializer.init Response.init Pinned.init
construct-again = refl

abbrev one_guest : Server ℕ
one_guest = record {
  listening = true;
  connections = (record { client_fd = 3; context = 0; gpu = made 7 }) ∷ [];
  driver_state = 7;
}

abbrev closed : Server ℕ
closed = record one_guest { listening = false; driver_state = 10 }

mapping_sized : (length mapping.request ≡ buffer_size) × (length mapping.reply ≡ msize)
mapping_sized = (bytes-size buffer_size, bytes-size msize)

one_guest-Reach : Reach spelling counting_driver [] 0 (start 5) one_guest
unfolding start
one_guest-Reach = next here (accepted 3 0 mapping (made 7) refl mapping_sized construct-made refl)

unfoldable refuses : Step spelling counting_driver [] 0 one_guest closed
unfolding destroy unregister_all counting_driver
refuses = refused 0 mapping (made 9) mapping_sized construct-again refl

refuses-IsRefusal : IsRefusal spelling counting_driver [] 0 refuses
unfolding refuses
refuses-IsRefusal = tt

closed_refuses : Step spelling counting_driver [] 0 closed (record closed { driver_state = 13 })
unfolding construct destroy unregister_all counting_driver Deserializer.init Response.init
    Pinned.init
closed_refuses = refused 0 mapping (made 12) mapping_sized refl refl

closed-for_good_example :
    ((record closed { driver_state = 13 }).listening ≡ false)
    × (length (record closed { driver_state = 13 }).connections ≡ length one_guest.connections)
closed-for_good_example =
    closed-for_good spelling counting_driver [] 0 refuses refuses-IsRefusal
      (next here closed_refuses)
