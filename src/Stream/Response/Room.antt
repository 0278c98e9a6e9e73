-- ===== src/Stream/Response/Room.antt =====
-- How many operands a reply has room for.
use fan_master_thesis.Base.{
  ℕ, ◌+◌, ◌≤◌, ◌≡◌, refl, Option, some, List, [], ◌∷◌, ◌++◌, length, length-append, arith, le_bytes,
  length-le_bytes, write_at-fits, splice,
}
use fan_master_thesis.Stream.Items.{word_size}
use fan_master_thesis.Stream.Response.{
  Response, Operand, handle, chars, opaque, ptr, plain, emit, put, put_all,
}
use fan_master_thesis.Stream.Response.Frame.{emit-Emits}

-- The bytes that an operand takes up in a reply.
abbrev pub footprint : Operand → ℕ
footprint (handle v) = word_size
footprint (chars cs) = word_size + (length cs + 1)
footprint opaque = 0
footprint (ptr n v) = n
footprint (plain n v) = n

abbrev pub footprints : List Operand → ℕ
footprints [] = 0
footprints (x ∷ xs) = footprint x + footprints xs

abbrev Moves : ℕ → Response → Option Response → Type 0
Moves n r o =
    (r' : Response) × (o ≡ some r') × (r'.at ≡ r.at + n) × (length r'.mdata ≡ length r.mdata)

emit-Moves :
    (bs : List ℕ) (r : Response)
    → r.at + length bs ≤ length r.mdata
    → Moves (length bs) r (emit bs r)
unfolding emit
emit-Moves bs r h =
    let r' : Response = record { mdata = splice r.mdata r.at bs; at = r.at + length bs } in
    let done : emit bs r ≡ some r' = rw (write_at-fits r.mdata bs r.at h) in
    (r', done, refl, (emit-Emits bs done).extends.size)

emit_value :
    (n v : ℕ) (r : Response) → r.at + n ≤ length r.mdata → Moves n r (emit (le_bytes n v) r)
emit_value n v r h =
    let size = length-le_bytes n v in
    let (r₁, done, at₁, size₁) = emit-Moves (le_bytes n v) r (omega arith) in
    (r₁, done, omega arith, size₁)

put-Moves :
    (x : Operand) (r : Response)
    → r.at + footprint x ≤ length r.mdata
    → Moves (footprint x) r (put x r)
unfolding put
put-Moves (handle v) r h = (record r { at = r.at + word_size }, refl, refl, refl)
put-Moves (chars cs) r h =
    let size = length-le_bytes word_size (length cs + 1) in
    let len = length-append cs (0 ∷ []) in
    let (r₁, first, at₁, size₁) = emit-Moves (le_bytes word_size (length cs + 1)) r (omega arith) in
    let (r₂, second, at₂, size₂) = emit-Moves (cs ++ (0 ∷ [])) r₁ (omega arith) in
    (r₂, rw (first, second), omega arith, omega arith)
put-Moves opaque r h = (r, refl, omega arith, refl)
put-Moves (ptr n v) r h = emit_value n v r h
put-Moves (plain n v) r h = emit_value n v r h

-- Operands that fit behind `return_buffer_` are written without a fault, and move it by their
-- total size.
pub put_all-Moves :
    (xs : List Operand) (r : Response)
    → r.at + footprints xs ≤ length r.mdata
    → (r' : Response) × (put_all xs r ≡ some r')
      × (r'.at ≡ r.at + footprints xs)
      × (length r'.mdata ≡ length r.mdata)
unfolding put_all
put_all-Moves [] r h = (r, refl, omega arith, refl)
put_all-Moves (x ∷ xs) r h =
    let (r₁, first, at₁, size₁) = put-Moves x r (omega arith) in
    let (r₂, rest, at₂, size₂) = put_all-Moves xs r₁ (omega arith) in
    (r₂, rw (first, rest), omega arith, omega arith)
