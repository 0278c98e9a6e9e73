-- ===== src/Stream/Deserializer.antt =====
-- class Deserializer of interception/stream.h: arguments are read out of the receive buffer, and
-- strings and kernel arguments are left in it and pointed at.
pub mod RoundTrip
use fan_master_thesis.Base.{
  ℕ, zero, suc, ◌+◌, ◌^◌, ◌≤◌, ◌≡◌, Option, none, some, List, [], ◌∷◌, length, from_le, read_at,
  c_string, ltb, if◌then◌else◌, ◌>>=◌,
}
use fan_master_thesis.Stream.Items.{
  Item, raw, text, words, Kind, raw_kind, text_kind, words_kind, word_size, size_add,
}
use fan_master_thesis.Stream.Serializer.{buffer_size}

-- `mdata` is the receive buffer, `mcount` the offset of the next value.
pub record Deserializer : Type 0 where
  pub mdata : List ℕ
  pub mcount : ℕ

unfoldable pub init : List ℕ → Deserializer
init heap = record { mdata = heap; mcount = 0 }

-- What `operator>>` leaves in its operand: a value, a `char*` into the buffer, or the vector of
-- pointers to kernel arguments; a pointer is an offset into `mdata`.
pub data Got : Type 0 where
  value : ℕ → Got
  pointer : ℕ → Got
  pointers : List ℕ → Got

-- The generic operator>> at a type of `n` bytes.
unfoldable pub get_value : ℕ → Deserializer → Option (ℕ × Deserializer)
get_value n d = read_at d.mdata d.mcount n >>= λ bs.
    some (from_le bs, record d { mcount = size_add d.mcount n })

-- operator>> at `const char*&` and `char*&`: the length is read and skipped with its terminator.
unfoldable pub get_text : Deserializer → Option (Got × Deserializer)
unfolding get_value
get_text d = do
  (size, d₁) ← get_value word_size d
  some (pointer d₁.mcount, record d₁ { mcount = size_add d₁.mcount (size_add size 1) })

-- The `for` loop over the resized vector, with the rounds that are left.
unfoldable pub get_pointers : ℕ → ℕ → List ℕ × ℕ
get_pointers zero at = ([], at)
get_pointers (suc n) at =
    let (rest, end) = get_pointers n (size_add at word_size) in (at ∷ rest, end)

-- operator>> at `std::vector<uint64_t*>&`. The `int` counter of the loop cannot count 2 ^ 31 rounds.
unfoldable pub get_words : Deserializer → Option (Got × Deserializer)
unfolding get_value get_pointers
get_words d = do
  (size, d₁) ← get_value word_size d
  let (slots, end) = get_pointers size d₁.mcount
  if ltb size (2 ^ 31) then some (pointers slots, record d₁ { mcount = end }) else none

unfoldable pub get : Kind → Deserializer → Option (Got × Deserializer)
unfolding get_value get_text get_words
get (raw_kind n) d = do (v, d₁) ← get_value n d; some (value v, d₁)
get text_kind d = get_text d
get words_kind d = get_words d

-- operator>> at a tuple: the elements, left to right.
unfoldable pub get_all : List Kind → Deserializer → Option (List Got × Deserializer)
unfolding get
get_all [] d = some ([], d)
get_all (k ∷ ks) d = do (g, d₁) ← get k d; (gs, d₂) ← get_all ks d₁; some (g ∷ gs, d₂)

unfoldable pub clean : Deserializer → Deserializer
clean d = record d { mcount = 0 }

-- The callee's reads through the pointers that the vector holds.
load_words : List ℕ → List ℕ → Option (List ℕ)
load_words mem [] = some []
load_words mem (p ∷ ps) = do
  bs ← read_at mem p word_size
  ws ← load_words mem ps
  some (from_le bs ∷ ws)

-- The item that an operand stands for, while the buffer holds `mem`. A value is of the size that it
-- was read at.
unfoldable pub view : List ℕ → Kind → Got → Option Item
unfolding load_words
view mem (raw_kind n) (value v) = some (raw n v)
view mem text_kind (pointer p) = c_string mem p >>= λ cs. some (text cs)
view mem words_kind (pointers ps) = load_words mem ps >>= λ ws. some (words ws)
view mem _ _ = none

unfoldable pub view_all : List ℕ → List Kind → List Got → Option (List Item)
unfolding view
view_all mem [] [] = some []
view_all mem (k ∷ ks) (g ∷ gs) = do it ← view mem k g; its ← view_all mem ks gs; some (it ∷ its)
view_all mem _ _ = none
