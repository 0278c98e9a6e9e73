-- ===== src/Stream/Response/Frame.antt =====
-- What `operator<<` leaves alone: everything before `return_buffer_`.
use fan_master_thesis.Base.{
  ℕ, ◌+◌, ◌≤◌, ◌≡◌, refl, ap, ◌∙◌, some, List, [], ◌∷◌, length, arith, le_bytes, write_at, read_at,
  length-write_at, read_at-frame, read_at-write_at, write_at-some_fits, >>=-eq-some,
}
use fan_master_thesis.Stream.Items.{word_size}
use fan_master_thesis.Stream.Response.{
  Response, Operand, handle, chars, opaque, ptr, plain, emit, put, put_all,
}

-- `r'` comes from `r` by writes at or behind `return_buffer_`, which moves forward only.
pub record Extends (r r' : Response) : Type 0 where
  pub size : length r'.mdata ≡ length r.mdata
  pub forward : r.at ≤ r'.at
  pub frame : (i n : ℕ) → i + n ≤ r.at → read_at r'.mdata i n ≡ read_at r.mdata i n

pub Extends-refl : (r : Response) → Extends r r
Extends-refl r = record { size = refl; forward = omega arith; frame = λ i n h. refl }

pub Extends-trans : {a b c : Response} → Extends a b → Extends b c → Extends a c
Extends-trans p q = record {
  size = q.size ∙ p.size;
  forward = omega (arith, p.forward, q.forward);
  frame = λ i n h. q.frame i n (omega (arith, p.forward)) ∙ p.frame i n h;
}

-- The copy, and what it leaves.
pub record Emits (bs : List ℕ) (r r' : Response) : Type 0 where
  pub extends : Extends r r'
  pub moved : r'.at ≡ r.at + length bs
  pub readable : read_at r'.mdata r.at (length bs) ≡ some bs

pub emit-Emits : (bs : List ℕ) {r r' : Response} → emit bs r ≡ some r' → Emits bs r r'
unfolding emit
emit-Emits bs {r} {r'} e =
    let (m, written, same) = >>=-eq-some (write_at r.mdata r.at bs) _ e in
    let at : r'.at ≡ r.at + length bs = ground arith in
    let mem : r'.mdata ≡ m = ground arith in
    record {
      extends = record {
        size = rw mem (length-write_at r.mdata bs r.at written);
        forward = omega arith;
        frame = λ i n h. rw mem (read_at-frame r.mdata bs r.at written i n h);
      };
      moved = at;
      readable = rw mem (read_at-write_at r.mdata bs r.at written);
    }

pub put-Extends : (x : Operand) {r r' : Response} → put x r ≡ some r' → Extends r r'
unfolding put
put-Extends (handle v) {r} {r'} e =
    let at : r'.at ≡ r.at + word_size = ground arith in
    let mem : r'.mdata ≡ r.mdata = ground arith in
    record { size = ap (λ l. length l) mem; forward = omega arith; frame = λ i n h. rw mem refl }
put-Extends (chars cs) {r} e =
    let (r₁, first, second) = >>=-eq-some (emit (le_bytes word_size (length cs + 1)) r) _ e in
    Extends-trans (emit-Emits _ first).extends (emit-Emits _ second).extends
put-Extends opaque {r} {r'} e = let same : r' ≡ r = ground arith in rw same (Extends-refl r)
put-Extends (ptr n v) e = (emit-Emits (le_bytes n v) e).extends
put-Extends (plain n v) e = (emit-Emits (le_bytes n v) e).extends

-- Whatever the operands, `operator<<` at a tuple changes no byte before `return_buffer_`, which it
-- only moves forward, and keeps the size of the reply.
pub put_all-Extends : (xs : List Operand) {r r' : Response} → put_all xs r ≡ some r' → Extends r r'
unfolding put_all
put_all-Extends [] {r} {r'} e = let same : r' ≡ r = ground arith in rw same (Extends-refl r)
put_all-Extends (x ∷ xs) {r} e =
    let (r₁, first, rest) = >>=-eq-some (put x r) (put_all xs) e in
    Extends-trans (put-Extends x first) (put_all-Extends xs rest)

-- A copy that succeeded ends within the allocation.
pub emit-fits :
    (bs : List ℕ) (r : Response) {r' : Response}
    → emit bs r ≡ some r'
    → r.at + length bs ≤ length r.mdata
unfolding emit
emit-fits bs r e =
    let (m, written, same) = >>=-eq-some (write_at r.mdata r.at bs) _ e in
    (write_at-some_fits r.mdata bs r.at written).0
