-- ===== src/Shm/Device.antt =====
-- VirtualGPU of interception/shared_memory_manager.h: a segment as large as the caller asks for.
use fan_master_thesis.Base.{
  ℕ, ◌≤◌, ◌<◌, ◌≡◌, ◌⊎◌, inl, inr, Option, none, some, List, length, arith, write_at, leb, leb→le,
  Bool-cases, read_at, splice, write_at-fits, read_at-write_at, length-write_at,
}

-- void to_device(const void*, size_t): a copy past the segment is `none`.
pub to_device : List ℕ → List ℕ → Option (List ℕ)
to_device data_bytes mem = write_at mem 0 data_bytes

-- void from_device(void*, size_t)
pub from_device : ℕ → List ℕ → Option (List ℕ)
from_device byte_size mem = read_at mem 0 byte_size

-- Data that fits the segment is read back as it was stored, and the segment keeps its size; data
-- that does not fit is copied past it, since no bound is checked.
pub from_device-to_device_bounds :
    (data_bytes mem : List ℕ)
    → ((length data_bytes ≤ length mem)
        × ((mem' : List ℕ) × (to_device data_bytes mem ≡ some mem')
            × (length mem' ≡ length mem)
            × (from_device (length data_bytes) mem' ≡ some data_bytes)))
      ⊎ ((length mem < length data_bytes) × (to_device data_bytes mem ≡ none))
unfolding to_device from_device write_at
from_device-to_device_bounds data_bytes mem =
    elim (Bool-cases (leb (length data_bytes) (length mem))) [
      | inl fits ↦
          let le : length data_bytes ≤ length mem = leb→le (length data_bytes) (length mem) fits in
          let written = write_at-fits mem data_bytes 0 (omega arith) in
          inl (
            le,
            (
              splice mem 0 data_bytes,
              written,
              length-write_at mem data_bytes 0 written,
              read_at-write_at mem data_bytes 0 written,
            ),
          )
      | inr over ↦ inr (ground arith, ground arith)
    ]
