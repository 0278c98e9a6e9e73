-- ===== src/Pinned.antt =====
-- Host memory that guest and host share: class PinnedMemory of interception/stream.h, and the
-- translation of guest addresses by `is_pinned` and `convert_pin` of interception/gpu_instance.h.
-- An address is its number; a `void*` and a `size_t` wrap at 2 ^ 64.
pub mod Regions
pub mod Convert
use fan_master_thesis.Base.{
  ℕ, ◌+◌, ◌-◌, ◌*◌, ◌%◌, ◌^◌, Bool, ◌&&◌, Option, none, some, List, [], ◌∷◌, leb, ◌==◌,
  if◌then◌else◌,
}

abbrev pub add64 : ℕ → ℕ → ℕ
add64 a b = (a + b) % 2 ^ 64

abbrev pub sub64 : ℕ → ℕ → ℕ
sub64 a b = (a + 2 ^ 64 - b) % 2 ^ 64

pub record PinnedMemory : Type 0 where
  pub alloc_pos : ℕ
  pub pin_start : ℕ
  pub pin_size : ℕ
  pub hashmap : List (ℕ × ℕ)

-- hashmap[key] = v
unfoldable pub insert : ℕ → ℕ → List (ℕ × ℕ) → List (ℕ × ℕ)
insert key v [] = (key, v) ∷ []
insert key v ((j, w) ∷ m) = if j == key then (key, v) ∷ m else (j, w) ∷ insert key v m

unfoldable pub find : ℕ → List (ℕ × ℕ) → Option ℕ
find key [] = none
find key ((j, w) ∷ m) = if j == key then some w else find key m

-- The constructor, where `mmap` has answered with an address; where it fails the program exits.
unfoldable pub init : Option ℕ → ℕ → Option PinnedMemory
init none mem_size = none
init (some start) mem_size =
    some (record { alloc_pos = 0; pin_start = start; pin_size = mem_size; hashmap = [] })

unfoldable pub register_pinned_memory : ℕ → PinnedMemory → ℕ × PinnedMemory
unfolding insert
register_pinned_memory byte_size p =
    let ret = add64 p.pin_start p.alloc_pos in
    (
      ret,
      record p {
        alloc_pos = add64 p.alloc_pos byte_size;
        hashmap = insert ret byte_size p.hashmap;
      },
    )

-- The length that `sync` hands to `msync`. A key that is missing is inserted with 0.
unfoldable pub sync : ℕ → PinnedMemory → ℕ × PinnedMemory
unfolding find insert
sync ptr p = elim (find ptr p.hashmap) [
  | some n ↦ (n, p)
  | none ↦ (0, record p { hashmap = insert ptr 0 p.hashmap })
]

unfoldable pub get : PinnedMemory → ℕ
get p = p.pin_start

-- The mapping is made again at the same address, or the program exits.
unfoldable pub remap : Option ℕ → PinnedMemory → Option PinnedMemory
remap none p = none
remap (some start) p = some (record p { pin_start = start })

unfoldable pub is_pinned : ℕ → PinnedMemory → Bool
is_pinned ptr p = leb p.pin_start ptr && leb ptr (add64 p.pin_start p.pin_size)
