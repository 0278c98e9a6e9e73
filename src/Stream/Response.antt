-- ===== src/Stream/Response.antt =====
-- class Response of interception/stream.h: the reply to a call. The server writes the result code
-- and the values behind the call's pointer arguments; the client reads them back by the types of
-- its own arguments.
pub mod Frame
pub mod RoundTrip
pub mod Room
use fan_master_thesis.Base.{
  ℕ, ◌+◌, ◌*◌, ◌≤◌, ◌≡◌, Option, none, some, List, [], ◌∷◌, ◌++◌, length, le_bytes, from_le,
  write_at, read_at, ltb, if◌then◌else◌, ◌>>=◌,
}
use fan_master_thesis.Stream.Items.{word_size}

-- sizeof(CUresult)
abbrev pub result_size : ℕ
result_size = 4

-- msize_, the size of every reply
abbrev pub msize : ℕ
msize = result_size + 300 * word_size

-- `mdata` is the allocation, `at` the offset of `return_buffer_` in it.
pub record Response : Type 0 where
  pub mdata : List ℕ
  pub at : ℕ

-- What operator<< distinguishes in its operand: a CUDA handle, a `char*` with the C string that it
-- points at, a pointer that is not followed (`void*`, `const char*`, `const void*`), a pointer to a
-- value of `n` bytes, and a value of `n` bytes.
pub data Operand : Type 0 where
  handle : ℕ → Operand
  chars : List ℕ → Operand
  opaque : Operand
  ptr : ℕ → ℕ → Operand
  plain : ℕ → ℕ → Operand

-- What operator>> distinguishes in its operand; `char*` comes with the size of the caller's array.
pub data Target : Type 0 where
  handle_target : Target
  chars_target : ℕ → Target
  opaque_target : Target
  table_target : Target
  ptr_target : ℕ → Target
  plain_target : ℕ → Target

-- What operator>> does to the caller's memory: nothing, bytes copied to a `char*`, a value stored
-- through a pointer, or, at `const void**`, a pointer into the reply itself.
pub data Effect : Type 0 where
  untouched : Effect
  filled : List ℕ → Effect
  stored : ℕ → Effect
  inside : ℕ → Effect

-- The constructor: return_buffer_ starts where scalar_result_buffer_ does.
unfoldable pub init : List ℕ → Response
init heap = record { mdata = heap; at = result_size }

-- CUresult curesult()
unfoldable pub curesult : Response → Option ℕ
curesult r = read_at r.mdata 0 result_size >>= λ bs. some (from_le bs)

-- uint64_t cuscalar()
unfoldable pub cuscalar : Response → Option ℕ
cuscalar r = read_at r.mdata result_size word_size >>= λ bs. some (from_le bs)

unfoldable pub set_curesult : ℕ → Response → Option Response
set_curesult code r =
    write_at r.mdata 0 (le_bytes result_size code) >>= λ m. some (record r { mdata = m })

unfoldable pub set_cuscalar : ℕ → Response → Option Response
set_cuscalar v r =
    write_at r.mdata result_size (le_bytes word_size v) >>= λ m. some (record r { mdata = m })

-- void reset()
unfoldable pub reset : Response → Response
reset r = record r { at = result_size }

-- std::memcpy(return_buffer_, bytes, n); return_buffer_ += n
unfoldable pub emit : List ℕ → Response → Option Response
emit bs r = write_at r.mdata r.at bs >>= λ m. some (record { mdata = m; at = r.at + length bs })

-- operator<<
unfoldable pub put : Operand → Response → Option Response
unfolding emit
put (handle v) r = some (record r { at = r.at + word_size })
put (chars cs) r = do r₁ ← emit (le_bytes word_size (length cs + 1)) r; emit (cs ++ (0 ∷ [])) r₁
put opaque r = some r
put (ptr n v) r = emit (le_bytes n v) r
put (plain n v) r = emit (le_bytes n v) r

-- operator<< at a tuple
unfoldable pub put_all : List Operand → Response → Option Response
unfolding put
put_all [] r = some r
put_all (x ∷ xs) r = put x r >>= put_all xs

-- std::memcpy(content, return_buffer_, n); return_buffer_ += n
unfoldable pub fetch : ℕ → Response → Option (List ℕ × Response)
fetch n r = read_at r.mdata r.at n >>= λ bs. some (bs, record r { at = r.at + n })

-- The copy of `len` bytes into an array of `cap` bytes.
unfoldable pub fill : ℕ → ℕ → Response → Option (Effect × Response)
unfolding fetch
fill cap len r = if ltb cap len then none else (fetch len r >>= λ (bs, r₁). some (filled bs, r₁))

-- operator>>
unfoldable pub get : Target → Response → Option (Effect × Response)
unfolding fetch fill
get handle_target r = some (untouched, record r { at = r.at + word_size })
get (chars_target cap) r = do (bs, r₁) ← fetch word_size r; fill cap (from_le bs) r₁
get opaque_target r = some (untouched, r)
get table_target r = some (inside r.at, record r { at = r.at + word_size })
get (ptr_target n) r = do (bs, r₁) ← fetch n r; some (stored (from_le bs), r₁)
get (plain_target n) r = some (untouched, record r { at = r.at + n })

-- operator>> at a tuple or a pack
unfoldable pub get_all : List Target → Response → Option (List Effect × Response)
unfolding get
get_all [] r = some ([], r)
get_all (t ∷ ts) r = do (e, r₁) ← get t r; (es, r₂) ← get_all ts r₁; some (e ∷ es, r₂)
