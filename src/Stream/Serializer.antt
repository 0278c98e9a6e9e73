-- ===== src/Stream/Serializer.antt =====
-- class Serializer of interception/stream.h: a call is flattened into a buffer of fixed size.
pub mod Message
use fan_master_thesis.Base.{
  ℕ, ◌+◌, ◌≤◌, ◌≡◌, Option, none, some, List, [], ◌∷◌, length, take, le_bytes, write_at, ◌>>=◌,
}
use fan_master_thesis.Stream.Items.{Item, raw, text, words, word_size, size_add, word_bytes}

-- BUFFER_SIZE
abbrev pub buffer_size : ℕ
buffer_size = 10000

-- `mdata` is the allocation, `mcount` the offset at which the next value goes.
pub record Serializer : Type 0 where
  pub mdata : List ℕ
  pub mcount : ℕ

-- `heap` is what the `malloc` of the constructor finds in its BUFFER_SIZE bytes.
unfoldable pub init : List ℕ → Serializer
init heap = record { mdata = heap; mcount = 0 }

-- std::memcpy(mdata_ + mcount_, bytes, n); mcount_ += n
unfoldable pub append : List ℕ → Serializer → Option Serializer
append bs s = write_at s.mdata s.mcount bs >>= λ m.
    some (record { mdata = m; mcount = size_add s.mcount (length bs) })

-- The generic operator<< at a type of `n` bytes.
unfoldable pub put_value : ℕ → ℕ → Serializer → Option Serializer
unfolding append
put_value n v s = append (le_bytes n v) s

-- operator<< at `const char*` and `char*`: the length, the characters, the terminator.
unfoldable pub put_text : List ℕ → Serializer → Option Serializer
unfolding put_value append
put_text cs s = do s₁ ← put_value word_size (length cs) s; s₂ ← append cs s₁; append (0 ∷ []) s₂

-- operator<< at `std::vector<uint64_t>&`: the count and one copy of all elements.
unfoldable pub put_words : List ℕ → Serializer → Option Serializer
unfolding put_value append
put_words ws s = do s₁ ← put_value word_size (length ws) s; append (word_bytes ws) s₁

unfoldable pub put : Item → Serializer → Option Serializer
unfolding put_value put_text put_words
put (raw n v) = put_value n v
put (text cs) = put_text cs
put (words ws) = put_words ws

-- operator<< at a tuple or a pack: the elements, left to right.
unfoldable pub put_all : List Item → Serializer → Option Serializer
unfolding put
put_all [] s = some s
put_all (it ∷ its) s = put it s >>= put_all its

-- void clean()
unfoldable pub clean : Serializer → Serializer
clean s = record s { mcount = 0 }

-- data() and size(), the bytes that a client transmits.
unfoldable pub message : Serializer → List ℕ
message s = take s.mcount s.mdata

pub record IsSerializer (s : Serializer) : Type 0 where
  pub sized : length s.mdata ≡ buffer_size
  pub within : s.mcount ≤ buffer_size
