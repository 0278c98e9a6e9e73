-- ===== src/Pinned/Regions.antt =====
-- Regions handed out by `register_pinned_memory`.
use fan_master_thesis.Base.{
  ℕ, ◌+◌, ◌^◌, ◌≤◌, ◌<◌, ◌≡◌, refl, some, List, [], ◌∷◌, arith, ◌==◌, if◌then◌else◌,
}
use fan_master_thesis.Pinned.{PinnedMemory, add64, insert, find, register_pinned_memory, sync}

-- A call for each size: the regions, as (start, size), and the memory afterwards.
unfoldable pub register_all : List ℕ → PinnedMemory → List (ℕ × ℕ) × PinnedMemory
unfolding register_pinned_memory
register_all [] p = ([], p)
register_all (n ∷ ns) p =
    let (ret, p₁) = register_pinned_memory n p in
    let (rest, p₂) = register_all ns p₁ in ((ret, n) ∷ rest, p₂)

abbrev pub sum : List ℕ → ℕ
sum [] = 0
sum (n ∷ ns) = n + sum ns

-- The regions lie between the two addresses, in order and without overlap.
abbrev pub Tiles : ℕ → List (ℕ × ℕ) → ℕ → Type 0
Tiles lo [] hi = lo ≤ hi
Tiles lo ((start, size) ∷ rs) hi = (lo ≤ start) × (start + size ≤ hi) × Tiles (start + size) rs hi

Tiles-cons :
    (lo a b n : ℕ) (rs : List (ℕ × ℕ)) (hi : ℕ)
    → a ≡ b
    → lo ≤ b
    → b + n ≤ hi
    → Tiles (b + n) rs hi
    → Tiles lo ((a, n) ∷ rs) hi
Tiles-cons lo a b n rs hi e p q t = rw e (p, q, t)

-- As long as the sizes add up to no more than what is left of the mapping, and the mapping ends
-- below 2 ^ 64, the regions that the calls return are disjoint, in order, and inside the mapping
-- behind what had been handed out before; and the allocation position moves by their sum.
pub register_all-Tiles :
    (ns : List ℕ) (p : PinnedMemory)
    → p.alloc_pos + sum ns ≤ p.pin_size
    → p.pin_start + p.pin_size < 2 ^ 64
    → Tiles (p.pin_start + p.alloc_pos) (register_all ns p).0 (p.pin_start + p.pin_size)
      × ((register_all ns p).1.alloc_pos ≡ p.alloc_pos + sum ns)
unfolding register_all
register_all-Tiles [] p fits top = (omega arith, omega arith)
register_all-Tiles (n ∷ ns) p fits top =
    let p₁ : PinnedMemory = (register_pinned_memory n p).1 in
    let next : p₁.alloc_pos ≡ p.alloc_pos + n = omega arith in
    let (tiles, pos) = register_all-Tiles ns p₁ (omega arith) top in
    let start : add64 p.pin_start p.alloc_pos ≡ p.pin_start + p.alloc_pos = omega arith in
    let end : p.pin_start + p.alloc_pos + n ≡ p.pin_start + p₁.alloc_pos = omega arith in
    (Tiles-cons _ _ _ n _ _ start (omega arith) (omega arith) (rw end tiles), omega arith)

pub find-insert :
    (k j v : ℕ) (m : List (ℕ × ℕ)) → find j (insert k v m) ≡ (if k == j then some v else find j m)
unfolding find insert
find-insert k j v [] = refl
find-insert k j v ((i, w) ∷ m) = ground (arith, find-insert k j v m)

-- `sync` of an address that has just been handed out flushes the size it was registered with, and
-- leaves the table alone.
pub sync-register :
    (n : ℕ) (p : PinnedMemory)
    → sync (register_pinned_memory n p).0 (register_pinned_memory n p).1
      ≡ (n, (register_pinned_memory n p).1)
unfolding sync register_pinned_memory
sync-register n p =
    let ret = add64 p.pin_start p.alloc_pos in ground (arith, find-insert ret ret n p.hashmap)

-- The class checks no bound: a size that is larger than what is left is handed out all the same,
-- and the region then ends behind the mapping.
pub register-past_end :
    (n : ℕ) (p : PinnedMemory)
    → p.pin_size < p.alloc_pos + n
    → p.pin_start + p.alloc_pos < 2 ^ 64
    → p.pin_start + p.pin_size < (register_pinned_memory n p).0 + n
unfolding register_pinned_memory
register-past_end n p over top = omega arith
