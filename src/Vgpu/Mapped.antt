-- ===== src/Vgpu/Mapped.antt =====
-- VirtualGPU over a mapped file. An abort or an exit is `none`.
use fan_master_thesis.Base.{
  ℕ, ◌+◌, ◌≤◌, ◌<◌, ◌≡◌, refl, ◌∙◌, false, Option, none, some, List, length, ltb, ◌⊎◌,
  if◌then◌else◌, arith, write_at, read_at, write_at-fits, read_at-write_at, length-write_at, ◌>>=◌,
  splice, zero, suc, [], ◌∷◌, take, take-take, read_at-fits, ap, sym, leb, leb→le, Bool-cases, inl,
  inr,
}

-- `window` is the mapping that `vgpu_ptr_` points at, `none` for a null pointer.
pub record VirtualGpu : Type 0 where
  pub window : Option (List ℕ)
  pub vgpu_size : ℕ

-- initialize_vgpu: `file` is what the opened file holds, of which `mmap` maps `mem_size` bytes, and
-- `none` for MAP_FAILED. An access behind the end of a shorter file faults.
unfoldable pub initialize_vgpu : Option (List ℕ) → ℕ → Option VirtualGpu
initialize_vgpu none mem_size = none
initialize_vgpu (some file) mem_size =
    some (record { window = some (take mem_size file); vgpu_size = mem_size })

-- The copy and `sync`; the guards stand in the order of the source.
to_window : Option (List ℕ) → Option (List ℕ) → VirtualGpu → Option VirtualGpu
to_window none source g = none
to_window (some file) none g = none
to_window (some file) (some bytes) g =
    if ltb g.vgpu_size (length bytes)
    then none
    else (write_at file 0 bytes >>= λ file'. some (record g { window = some file' }))

-- void to_device(const void*, size_t): `source` is the data, `none` for a null pointer.
pub to_device : Option (List ℕ) → VirtualGpu → Option VirtualGpu
unfolding to_window
to_device source g = to_window g.window source g

-- void remap(): the mapping is dropped, and `vgpu_size_` bytes of the device file are mapped.
pub remap : Option (List ℕ) → VirtualGpu → Option VirtualGpu
remap none g = none
remap (some file) g = some (record g { window = some (take g.vgpu_size file) })

from_window : Option (List ℕ) → ℕ → Option (List ℕ)
from_window none byte_size = none
from_window (some file) byte_size = read_at file 0 byte_size

-- void from_device(void*, size_t): the bytes that the caller's array receives.
pub from_device : Option (List ℕ) → ℕ → VirtualGpu → Option (List ℕ × VirtualGpu)
unfolding remap from_window
from_device file byte_size g = do
  g' ← remap file g
  bytes ← from_window g'.window byte_size
  some (bytes, g')

-- A window of the size that the object was made with.
abbrev pub IsMapped : VirtualGpu → List ℕ → Type 0
IsMapped g file = (g.window ≡ some file) × (length file ≡ g.vgpu_size)

-- Data that fits the window is copied to its beginning.
pub to_device-fits :
    (bytes file : List ℕ) (g : VirtualGpu)
    → IsMapped g file
    → length bytes ≤ g.vgpu_size
    → (file' : List ℕ) × (g' : VirtualGpu) × (to_device (some bytes) g ≡ some g')
      × IsMapped g' file'
      × (read_at file' 0 (length bytes) ≡ some bytes)
unfolding to_device
to_device-fits bytes file g m fits =
    let (opened, size) = m in
    let room : 0 + length bytes ≤ length file = omega arith in
    let file' : List ℕ = splice file 0 bytes in
    let copied = write_at-fits file bytes 0 room in
    let small : ltb g.vgpu_size (length bytes) ≡ false = ground arith in
    (
      file',
      record g { window = some file' },
      rw (opened, to_window, small, copied),
      (refl, length-write_at file bytes 0 copied ∙ size),
      read_at-write_at file bytes 0 copied,
    )

length-take_le : (n m : ℕ) (xs : List ℕ) → n ≤ m → n ≤ length xs → n ≤ length (take m xs)
length-take_le zero m xs h k = omega arith
length-take_le (suc n) zero xs h k = absurd (omega arith)
length-take_le (suc n) (suc m) [] h k = absurd (omega arith)
length-take_le (suc n) (suc m) (x ∷ xs) h k =
    let ih = length-take_le n m xs (omega arith) (omega arith) in omega arith

-- A read within the first bytes needs no more of the list than these.
read_at-take :
    (file bytes : List ℕ) (n size : ℕ)
    → n ≤ size
    → read_at file 0 n ≡ some bytes
    → read_at (take size file) 0 n ≡ some bytes
unfolding read_at
read_at-take file bytes n size h e = elim (Bool-cases (leb (0 + n) (length file))) [
  | inr short ↦ let gone : none ≡ some bytes = rw short at e in absurd (cc)
  | inl room ↦
      let within : n ≤ length file = let fits = leb→le (0 + n) (length file) room in omega arith in
      let mapped = length-take_le n size file h within in
      read_at-fits (take size file) 0 n (omega arith)
      ∙ ap some (take-take n size file h)
      ∙ sym (read_at-fits file 0 n (omega arith))
      ∙ e
]

-- What the file begins with is what is read out of it, as far as the mapping reaches.
pub from_device-read_at :
    (file bytes : List ℕ) (n : ℕ) (g : VirtualGpu)
    → n ≤ g.vgpu_size
    → read_at file 0 n ≡ some bytes
    → from_device (some file) n g ≡ some (bytes, record g { window = some (take g.vgpu_size file) })
unfolding from_device
from_device-read_at file bytes n g h e = rw (read_at-take file bytes n g.vgpu_size h e)

-- Data that is larger than the window, and a null pointer on either side, abort before any byte is
-- copied.
pub to_device-aborts :
    (g : VirtualGpu) (source : Option (List ℕ))
    → (g.window ≡ none)
      ⊎ (source ≡ none)
      ⊎ ((bytes : List ℕ) × (source ≡ some bytes) × (g.vgpu_size < length bytes))
    → to_device source g ≡ none
unfolding to_device
to_device-aborts g source h = ground arith
