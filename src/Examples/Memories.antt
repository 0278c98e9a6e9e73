-- ===== src/Examples/Memories.antt =====
-- Shared memory and the two VirtualGPU classes of interception/stream.h, and the translation of
-- addresses, at small sizes.
use fan_master_thesis.Base.{◌+◌, ◌≤◌, ◌≡◌, refl, true, some, none, [], ◌∷◌, ◌++◌, arith}
use fan_master_thesis.Pinned.{PinnedMemory}
use fan_master_thesis.Pinned.Regions.{register_all, sum, Tiles, register_all-Tiles}
use fan_master_thesis.Pinned.Convert.{in_client_pin, convert_pin, shared_size, convert_pin-offset}
use fan_master_thesis.Vgpu.Mapped
use fan_master_thesis.Gpu.HostMemory.{alloc_all, converted, alloc_all-converted}
use fan_master_thesis.Examples.Setup

abbrev memory : PinnedMemory
memory = record { alloc_pos = 16; pin_start = 4096; pin_size = 100; hashmap = [] }

sizes_fit : memory.alloc_pos + sum (32 ∷ 8 ∷ []) ≤ memory.pin_size
sizes_fit = omega arith

register_all-Tiles_example :
    Tiles (4096 + 16) (register_all (32 ∷ 8 ∷ []) memory).0 (4096 + 100)
    × ((register_all (32 ∷ 8 ∷ []) memory).1.alloc_pos ≡ 16 + sum (32 ∷ 8 ∷ []))
register_all-Tiles_example = register_all-Tiles (32 ∷ 8 ∷ []) memory sizes_fit (omega arith)

inside_window : in_client_pin 65536 65636 ≡ true
unfolding in_client_pin
inside_window = refl

convert_pin-offset_example :
    (convert_pin 4096 65536 65636 + 65536 ≡ 4096 + 65636)
    × (4096 ≤ convert_pin 4096 65536 65636)
    × (convert_pin 4096 65536 65636 ≤ 4096 + shared_size)
convert_pin-offset_example =
    convert_pin-offset 4096 65536 65636 (omega arith) (omega arith) inside_window

abbrev guest : Mapped.VirtualGpu
guest = record { window = some (0 ∷ 0 ∷ 0 ∷ 0 ∷ []); vgpu_size = 4 }

abbrev host : Mapped.VirtualGpu
host = record { window = none; vgpu_size = 4 }

alloc_all-converted_example :
    (alloc_all 65536 (16 ∷ 32 ∷ []) Setup.host).registered
    ≡ Setup.host.registered ++ converted 0 65536 0 (16 ∷ 32 ∷ [])
alloc_all-converted_example =
    alloc_all-converted 65536 (16 ∷ 32 ∷ []) Setup.host refl refl (omega arith) (omega arith)
      (omega arith)
