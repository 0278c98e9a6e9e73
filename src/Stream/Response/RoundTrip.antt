-- ===== src/Stream/Response/RoundTrip.antt =====
-- The client's `operator>>` reads back what the server's `operator<<` wrote.
use fan_master_thesis.Base.{
  false, ℕ, ◌+◌, ◌^◌, ◌≤◌, ◌<◌, ◌≡◌, ◌∙◌, some, List, [], ◌∷◌, ◌++◌, length, length-append, arith,
  le_bytes, from_le, length-le_bytes, from_le-le_bytes, read_at, read_at-write_at, write_at, ltb,
  >>=-eq-some,
}
use fan_master_thesis.Stream.Items.{word_size}
use fan_master_thesis.Stream.Response.{
  Response, Operand, handle, chars, opaque, ptr, plain, Target, handle_target, chars_target,
  opaque_target, ptr_target, plain_target, Effect, untouched, filled, stored, result_size, msize,
  emit, put, put_all, fetch, fill, get, get_all, curesult, set_curesult, reset,
}
use fan_master_thesis.Stream.Response.Frame.{
  emit-fits, Extends, Extends-trans, emit-Emits, put_all-Extends, put-Extends,
}

-- The client's operand has the type of the server's: sizes agree, a value fits its size, and the
-- caller's array has room for the string and its terminator.
abbrev pub Answers : Operand → Target → Type 0
Answers (handle v) handle_target = Unit
Answers (chars cs) (chars_target room) = length cs + 1 ≤ room
Answers opaque opaque_target = Unit
Answers (ptr n v) (ptr_target m) = (m ≡ n) × (v < 256 ^ n)
Answers (plain n v) (plain_target m) = m ≡ n
Answers _ _ = ⊥

abbrev pub AnswersAll : List Operand → List Target → Type 0
AnswersAll [] [] = Unit
AnswersAll (x ∷ xs) (t ∷ ts) = Answers x t × AnswersAll xs ts
AnswersAll _ _ = ⊥

-- What the caller of the intercepted function should find in its memory.
abbrev pub effect : Operand → Effect
effect (handle v) = untouched
effect (chars cs) = filled (cs ++ (0 ∷ []))
effect opaque = untouched
effect (ptr n v) = stored v
effect (plain n v) = untouched

abbrev pub effects : List Operand → List Effect
effects [] = []
effects (x ∷ xs) = effect x ∷ effects xs

-- A reply read from an earlier offset.
abbrev from : Response → ℕ → Response
from r p = record r { at = p }

emitted :
    (bs : List ℕ) (r r₁ r₂ : Response)
    → emit bs r ≡ some r₁
    → Extends r₁ r₂
    → fetch (length bs) (from r₂ r.at) ≡ some (bs, from r₂ r₁.at)
unfolding fetch
emitted bs r r₁ r₂ e later =
    let em = emit-Emits bs e in
    let read : read_at r₂.mdata r.at (length bs) ≡ some bs =
      later.frame r.at (length bs) (omega (arith, em.moved)) ∙ em.readable in
    rw (read, em.moved)

get-put :
    (x : Operand) (t : Target) (r r₁ r₂ : Response)
    → put x r ≡ some r₁
    → length r.mdata ≡ msize
    → Extends r₁ r₂
    → Answers x t
    → get t (from r₂ r.at) ≡ some (effect x, from r₂ r₁.at)
unfolding put get
get-put (handle v) handle_target r r₁ r₂ e size later ok =
    let at : r₁.at ≡ r.at + word_size = ground arith in rw at
get-put (chars cs) (chars_target room) r r₁ r₂ e size later ok =
    let head : List ℕ = le_bytes word_size (length cs + 1) in
    let body : List ℕ = cs ++ (0 ∷ []) in
    let (r', first, second) = >>=-eq-some (emit head r) (emit body) e in
    let len = length-append cs (0 ∷ []) in
    let len' : length body ≡ length cs + 1 = omega arith in
    let fits = emit-fits body r' second in
    let held : length r'.mdata ≡ length r.mdata = (emit-Emits head first).extends.size in
    let ext = Extends-trans (emit-Emits body second).extends later in
    let read = emitted head r r' r₂ first ext in
    let read' = emitted body r' r₁ r₂ second later in
    let size' = length-le_bytes word_size (length cs + 1) in
    let count : from_le head ≡ length cs + 1 =
      from_le-le_bytes word_size (length cs + 1) (omega arith) in
    let roomy : ltb room (length cs + 1) ≡ false = ground arith in
    rw (rw size' at read, count, fill, roomy, rw len' at read')
get-put opaque opaque_target r r₁ r₂ e size later ok = let at : r₁.at ≡ r.at = ground arith in rw at
get-put (ptr n v) (ptr_target m) r r₁ r₂ e size later ok =
    let read = rw (length-le_bytes n v) at (emitted (le_bytes n v) r r₁ r₂ e later) in
    rw (ok.0, read, from_le-le_bytes n v ok.1)
get-put (plain n v) (plain_target m) r r₁ r₂ e size later ok =
    rw (ok, (emit-Emits (le_bytes n v) e).moved, length-le_bytes n v)
get-put _ _ r r₁ r₂ e size later ok = absurd ok

pub get_all-put_all-from :
    (xs : List Operand) (ts : List Target) (r r₁ : Response)
    → put_all xs r ≡ some r₁
    → length r.mdata ≡ msize
    → AnswersAll xs ts
    → get_all ts (from r₁ r.at) ≡ some (effects xs, r₁)
unfolding put_all get_all
get_all-put_all-from [] [] r r₁ e size ok = let same : r ≡ r₁ = ground arith in rw same
get_all-put_all-from (x ∷ xs) (t ∷ ts) r r₁ e size ok =
    let (r', first, rest) = >>=-eq-some (put x r) (put_all xs) e in
    let step = get-put x t r r' r₁ first size (put_all-Extends xs rest) ok.0 in
    let size' : length r'.mdata ≡ msize = (put-Extends x first).size ∙ size in
    rw (step, get_all-put_all-from xs ts r' r₁ rest size' ok.1)
get_all-put_all-from _ _ r r₁ e size ok = absurd ok

-- The client resets its reply, receives the bytes that the server's operator<< left, and applies
-- operator>> to operands of the same types: each caller's operand is changed as the server's
-- operand says, and both ends stop at the same offset.
pub get_all-put_all_reply :
    (xs : List Operand) (ts : List Target) (server server' client : Response)
    → length server.mdata ≡ msize
    → put_all xs (reset server) ≡ some server'
    → AnswersAll xs ts
    → get_all ts (reset (record client { mdata = server'.mdata })) ≡ some (effects xs, server')
unfolding reset
get_all-put_all_reply xs ts server server' client size sent ok =
    get_all-put_all-from xs ts (record server { at = result_size }) server' sent size ok

-- The result code that the server set is what the client reads, whatever operands follow it.
pub curesult-put_all :
    (xs : List Operand) (code : ℕ) (r r₁ r₂ : Response)
    → code < 256 ^ result_size
    → set_curesult code (reset r) ≡ some r₁
    → put_all xs r₁ ≡ some r₂
    → curesult r₂ ≡ some code
unfolding set_curesult curesult reset
curesult-put_all xs code r r₁ r₂ fits set sent =
    let bytes : List ℕ = le_bytes result_size code in
    let (m, written, same) = >>=-eq-some (write_at r.mdata 0 bytes) _ set in
    let at : r₁.at ≡ result_size = ground arith in
    let mem : r₁.mdata ≡ m = ground arith in
    let back =
      rw (length-le_bytes result_size code) at (read_at-write_at r.mdata bytes 0 written) in
    let kept = (put_all-Extends xs sent).frame 0 result_size (omega arith) in
    rw (kept, mem, back, from_le-le_bytes result_size code fits)
