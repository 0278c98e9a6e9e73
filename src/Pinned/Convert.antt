-- ===== src/Pinned/Convert.antt =====
-- `is_pinned` and `convert_pin` of interception/gpu_instance.h.
use fan_master_thesis.Base.{ℕ, ◌+◌, ◌*◌, ◌^◌, ◌≤◌, ◌<◌, ◌≡◌, Bool, true, ◌&&◌, leb, arith}
use fan_master_thesis.Pinned.{add64, sub64}

-- SHM_SIZE * 5: `(1 << 20) * sizeof(float) * 5`, the size of the file and of the guest's window.
abbrev pub shared_size : ℕ
shared_size = 2 ^ 20 * 4 * 5

-- GPUInstance::is_pinned; `start` is `client_pin_start_` as a number, 0 for a null pointer.
unfoldable pub in_client_pin : ℕ → ℕ → Bool
in_client_pin start ptr = leb start ptr && leb ptr (add64 start shared_size)

-- GPUInstance::convert_pin; `base` is `pinned_memory_.get()`.
unfoldable pub convert_pin : ℕ → ℕ → ℕ → ℕ
convert_pin base start ptr = add64 base (sub64 ptr start)

-- Where neither window wraps around, an address that the guest's window is taken to hold is
-- converted to the host's window at the same offset, so that offsets and order are kept.
pub convert_pin-offset :
    (base start ptr : ℕ)
    → base + shared_size < 2 ^ 64
    → start + shared_size < 2 ^ 64
    → in_client_pin start ptr ≡ true
    → (convert_pin base start ptr + start ≡ base + ptr)
      × (base ≤ convert_pin base start ptr)
      × (convert_pin base start ptr ≤ base + shared_size)
unfolding in_client_pin convert_pin
convert_pin-offset base start ptr hb hs h = ground arith

-- The test takes in the address just behind the guest's window, and that one is converted to the
-- first address behind the host's mapping.
pub convert_pin-past_end :
    (base start : ℕ)
    → base + shared_size < 2 ^ 64
    → start + shared_size < 2 ^ 64
    → (in_client_pin start (start + shared_size) ≡ true)
      × (convert_pin base start (start + shared_size) ≡ base + shared_size)
unfolding in_client_pin convert_pin
convert_pin-past_end base start hb hs = ground arith

-- Before any `cuMemHostAlloc` has set the window's start, every address up to `shared_size` passes.
pub in_client_pin-null : (ptr : ℕ) → ptr ≤ shared_size → in_client_pin 0 ptr ≡ true
unfolding in_client_pin
in_client_pin-null ptr h = ground arith
