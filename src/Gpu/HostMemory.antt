-- ===== src/Gpu/HostMemory.antt =====
-- cuMemHostAlloc on the host: the regions that are registered, and the translation of the guest's
-- addresses, which goes by the first address that the guest sent.
use mathlib.Core.List.{append_assoc, append-nil}
use fan_master_thesis.Base.{
  ℕ, ◌+◌, ◌^◌, ◌<◌, ◌≡◌, refl, sym, ap, ◌∙◌, List, [], ◌∷◌, ◌++◌, ◌==◌, if◌then◌else◌, arith,
}
use fan_master_thesis.Pinned.{register_pinned_memory}
use fan_master_thesis.Pinned.Regions.{sum}
use fan_master_thesis.Pinned.Convert.{convert_pin}
use fan_master_thesis.Gpu.Params.{address, number}
use fan_master_thesis.Gpu.Instance.{GpuInstance}
use fan_master_thesis.Gpu.Handlers.{register_host, argument_at}

-- Where `convert_pin` finds the guest's blocks, from an offset on.
unfoldable pub converted : ℕ → ℕ → ℕ → List ℕ → List ℕ
converted base start off [] = []
converted base start off (n ∷ ns) =
    convert_pin base start (start + off) ∷ converted base start (off + n) ns

module _ {S : Type 0} where
  -- A call for each size, for memory that the guest has at `p` and behind it without a gap.
  unfoldable pub alloc_all : ℕ → List ℕ → GpuInstance S → GpuInstance S
  unfolding register_host
  alloc_all p [] g = g
  alloc_all p (n ∷ ns) g =
      alloc_all (p + n) ns (register_host (address p ∷ number 8 n ∷ number 4 0 ∷ []) g).1

  alloc_step :
      (start off n : ℕ) (g : GpuInstance S)
      → g.pinned_memory.alloc_pos ≡ off
      → (if g.client_pin_start == 0 then start + off else g.client_pin_start) ≡ start
      → 0 < start
      → start + (off + n) < 2 ^ 64
      → g.pinned_memory.pin_start + (off + n) < 2 ^ 64
      → let g' : GpuInstance S =
          (register_host (address (start + off) ∷ number 8 n ∷ number 4 0 ∷ []) g).1 in
        (g'.pinned_memory.alloc_pos ≡ off + n)
        × (g'.pinned_memory.pin_start ≡ g.pinned_memory.pin_start)
        × (g'.client_pin_start ≡ start)
        × (g'.registered
            ≡ g.registered ++ (convert_pin g.pinned_memory.pin_start start (start + off) ∷ []))
  unfolding register_host argument_at register_pinned_memory convert_pin
  alloc_step start off n g pos first some_start top top' =
      (omega arith, refl, first, ap (λ a. g.registered ++ (a ∷ [])) (omega arith))

  alloc_all-from :
      (start off : ℕ) (ns : List ℕ) (g : GpuInstance S)
      → g.pinned_memory.alloc_pos ≡ off
      → (if g.client_pin_start == 0 then start + off else g.client_pin_start) ≡ start
      → 0 < start
      → start + (off + sum ns) < 2 ^ 64
      → g.pinned_memory.pin_start + (off + sum ns) < 2 ^ 64
      → (alloc_all (start + off) ns g).registered
        ≡ g.registered ++ converted g.pinned_memory.pin_start start off ns
  unfolding alloc_all converted
  alloc_all-from start off [] g pos first some_start top top' = sym (append-nil g.registered)
  alloc_all-from start off (n ∷ ns) g pos first some_start top top' =
      let g' : GpuInstance S =
        (register_host (address (start + off) ∷ number 8 n ∷ number 4 0 ∷ []) g).1 in
      let (pos', base, first', added) =
        alloc_step start off n g pos first some_start (omega arith) (omega arith) in
      let kept : (if g'.client_pin_start == 0 then start + (off + n) else g'.client_pin_start)
          ≡ start =
        ground arith in
      let next : start + off + n ≡ start + (off + n) = omega arith in
      let rest =
        alloc_all-from start (off + n) ns g' pos' kept some_start (omega arith) (omega arith) in
      ap (λ p. (alloc_all p ns g').registered) next
      ∙ rest
      ∙ rw (base, added)
          (append_assoc g.registered
            (convert_pin g.pinned_memory.pin_start start (start + off) ∷ [])
            (converted g.pinned_memory.pin_start start (off + n) ns))

  -- A guest whose pinned blocks lie one behind the other, from its first address on, gets for each of
  -- them, in order, the registered region at which `convert_pin` will look for it. The host has
  -- handed out nothing before, and neither side's memory wraps around.
  pub alloc_all-converted :
      (start : ℕ) (ns : List ℕ) (g : GpuInstance S)
      → g.pinned_memory.alloc_pos ≡ 0
      → g.client_pin_start ≡ 0
      → 0 < start
      → start + sum ns < 2 ^ 64
      → g.pinned_memory.pin_start + sum ns < 2 ^ 64
      → (alloc_all start ns g).registered
        ≡ g.registered ++ converted g.pinned_memory.pin_start start 0 ns
  alloc_all-converted start ns g pos fresh some_start top top' =
      let first : (if g.client_pin_start == 0 then start + 0 else g.client_pin_start) ≡ start =
        ground arith in
      let here : start + 0 ≡ start = omega arith in
      ap (λ p. (alloc_all p ns g).registered) (sym here)
      ∙ alloc_all-from start 0 ns g pos first some_start (omega arith) (omega arith)
