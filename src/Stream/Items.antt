-- ===== src/Stream/Items.antt =====
-- The values that `operator<<` and `operator>>` of interception/stream.h are applied to, and the
-- wire form of a message: the layout that both ends have in common.
use fan_master_thesis.Base.{ℕ, ◌+◌, ◌<◌, ◌%◌, ◌^◌, List, [], ◌∷◌, ◌++◌, length, All, le_bytes}

-- sizeof(size_t) and sizeof(uint64_t); a `size_t` wraps at 2 ^ 64.
abbrev pub word_size : ℕ
word_size = 8

abbrev pub size_add : ℕ → ℕ → ℕ
size_add a b = (a + b) % 2 ^ 64

-- An argument of a call, as the overloads of `operator<<` tell them apart: a value of `n` bytes, a C
-- string (the characters before its terminator), or the `std::vector<uint64_t>` of kernel arguments.
pub data Item : Type 0 where
  raw : ℕ → ℕ → Item
  text : List ℕ → Item
  words : List ℕ → Item

-- The type of an item, which is what the receiving end knows of it.
pub data Kind : Type 0 where
  raw_kind : ℕ → Kind
  text_kind : Kind
  words_kind : Kind

abbrev pub kind : Item → Kind
kind (raw n v) = raw_kind n
kind (text cs) = text_kind
kind (words ws) = words_kind

abbrev pub kinds : List Item → List Kind
kinds [] = []
kinds (it ∷ its) = kind it ∷ kinds its

-- The items that a C++ value can be: a number fits its size, a C string holds no zero byte, a
-- kernel argument is 64 bits wide, and there are fewer of them than an `int` counts.
abbrev pub IsItem : Item → Type 0
IsItem (raw n v) = v < 256 ^ n
IsItem (text cs) = All (λ c. 0 < c) cs
IsItem (words ws) = All (λ w. w < 256 ^ word_size) ws × (length ws < 2 ^ 31)

unfoldable pub word_bytes : List ℕ → List ℕ
word_bytes [] = []
word_bytes (w ∷ ws) = le_bytes word_size w ++ word_bytes ws

-- The wire form, written down independently of the buffer that carries it.
unfoldable pub encode : Item → List ℕ
unfolding word_bytes
encode (raw n v) = le_bytes n v
encode (text cs) = le_bytes word_size (length cs) ++ (cs ++ (0 ∷ []))
encode (words ws) = le_bytes word_size (length ws) ++ word_bytes ws

unfoldable pub encode_all : List Item → List ℕ
unfolding encode
encode_all [] = []
encode_all (it ∷ its) = encode it ++ encode_all its
