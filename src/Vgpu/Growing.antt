-- ===== src/Vgpu/Growing.antt =====
-- vsock::VirtualGPU: a buffer that is replaced by a larger one when a copy needs it.
use fan_master_thesis.Base.{
  ℕ, ◌+◌, ◌≤◌, ◌<◌, ◌≡◌, ◌⊎◌, refl, Bool, true, false, Option, none, some, List, length, take, ltb,
  if◌then◌else◌, arith, write_at, ◌>>=◌, splice, write_at-fits, length-write_at, take-append, drop,
  ◌∙◌,
}

-- `vgpu` is the allocation that `vgpu_` points at, `none` for a null pointer.
pub record VirtualGpu : Type 0 where
  pub vgpu : Option (List ℕ)
  pub vgpu_size : ℕ

abbrev pub init : VirtualGpu
init = record { vgpu = none; vgpu_size = 0 }

copy_in : List ℕ → Option (List ℕ) → VirtualGpu → Option VirtualGpu
copy_in bytes none g = none
copy_in bytes (some m) g = write_at m 0 bytes >>= λ m'. some (record g { vgpu = some m' })

-- `malloc n` is the content of a new allocation of `n` bytes.
module _ (malloc : ℕ → List ℕ) where
  unfoldable pub allocate_vgpu : ℕ → VirtualGpu → VirtualGpu
  allocate_vgpu size g = record { vgpu = some (malloc size); vgpu_size = size }

  -- void* prepare(size_t), and void from_device(size_t), which makes the same call.
  unfoldable pub prepare : ℕ → VirtualGpu → VirtualGpu
  unfolding allocate_vgpu
  prepare data_size g = if ltb g.vgpu_size data_size then allocate_vgpu data_size g else g

  -- void to_device(void*, size_t)
  unfoldable pub to_device : List ℕ → VirtualGpu → Option VirtualGpu
  unfolding prepare copy_in
  to_device bytes g = let g' = prepare (length bytes) g in copy_in bytes g'.vgpu g'

-- ~VirtualGPU(): whether it calls `free`.
unfoldable pub frees : VirtualGpu → Bool
frees g = elim g.vgpu [ none ↦ true | some m ↦ false ]

-- The size that is recorded is that of the allocation.
abbrev pub IsSized : VirtualGpu → Type 0
IsSized g = elim g.vgpu [ none ↦ g.vgpu_size ≡ 0 | some m ↦ length m ≡ g.vgpu_size ]

-- A buffer that is as large as a positive number is there.
allocated :
    (n : ℕ) (g : VirtualGpu)
    → IsSized g
    → 0 < n
    → n ≤ g.vgpu_size
    → (m : List ℕ) × (g.vgpu ≡ some m) × (length m ≡ g.vgpu_size)
allocated n g h p q = go g.vgpu refl
  where
    go : (o : Option (List ℕ)) → g.vgpu ≡ o → (m : List ℕ) × (o ≡ some m) × (length m ≡ g.vgpu_size)
    go none e = absurd (omega (arith, rw e at h))
    go (some m) e = (m, refl, rw e at h)

module _ (malloc : ℕ → List ℕ) (gives : (n : ℕ) → length (malloc n) ≡ n) where
  -- With an allocator that gives what it is asked for: after `prepare` the size on record is that
  -- of the allocation again, it covers what was asked for, it has not shrunk, and a buffer that was
  -- large enough has been kept with its content.
  pub prepare-IsSized :
      (n : ℕ) (g : VirtualGpu)
      → IsSized g
      → IsSized (prepare malloc n g)
        × (n ≤ (prepare malloc n g).vgpu_size)
        × (g.vgpu_size ≤ (prepare malloc n g).vgpu_size)
        × ((prepare malloc n g ≡ g) ⊎ (g.vgpu_size < n))
  unfolding prepare
  prepare-IsSized n g h = ground (arith, gives n)

  -- Data that is not empty is always taken in: the buffer then begins with it, and the destructor
  -- of an object that holds it does not free it.
  pub to_device-holds :
      (bytes : List ℕ) (g : VirtualGpu)
      → IsSized g
      → 0 < length bytes
      → (m : List ℕ) × (g' : VirtualGpu) × (to_device malloc bytes g ≡ some g')
        × (g'.vgpu ≡ some m)
        × (take (length bytes) m ≡ bytes)
        × IsSized g'
        × (frees g' ≡ false)
  unfolding to_device frees
  to_device-holds bytes g h some_data =
      let g' : VirtualGpu = prepare malloc (length bytes) g in
      let (sized, covers, _, _) = prepare-IsSized (length bytes) g h in
      let (m, there, size) = allocated (length bytes) g' sized some_data covers in
      let m' : List ℕ = splice m 0 bytes in
      let copied : write_at m 0 bytes ≡ some m' = write_at-fits m bytes 0 (omega arith) in
      let front : take (length bytes) m' ≡ bytes = take-append bytes (drop (0 + length bytes) m) in
      (
        m',
        record g' { vgpu = some m' },
        rw (there, copy_in, copied),
        refl,
        front,
        length-write_at m bytes 0 copied ∙ size,
        refl,
      )
