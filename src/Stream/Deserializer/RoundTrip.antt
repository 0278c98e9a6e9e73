-- ===== src/Stream/Deserializer/RoundTrip.antt =====
-- `Deserializer` undoes the wire form that `Serializer` writes.
use mathlib.Core.List.{append_assoc}
use native.Mathlib.Nat.{add-zero, add_assoc}
use fan_master_thesis.Base.{
  true, ℕ, ◌+◌, ◌^◌, ◌≤◌, ◌<◌, ◌≡◌, refl, sym, ap, ◌∙◌, some, List, [], ◌∷◌, ◌++◌, length, All,
  arith, le_bytes, length-le_bytes, from_le-le_bytes, length-append, read_at, read_at-middle,
  c_string-middle, ltb, lt→ltb,
}
use fan_master_thesis.Stream.Items.{
  Item, raw, text, words, Kind, raw_kind, text_kind, words_kind, word_size, size_add, word_bytes,
  kind, kinds, IsItem, encode, encode_all,
}
use fan_master_thesis.Stream.Serializer.{buffer_size}
use fan_master_thesis.Stream.Deserializer.{
  Deserializer, Got, value, pointer, pointers, get_value, get_text, get_pointers, get_words, get,
  get_all, load_words, view, view_all,
}

-- `d` has read `pre` of its buffer, and `bs` and then `post` are what it reads next.
pub record Reads (d : Deserializer) (pre bs post : List ℕ) : Type 0 where
  pub holds : d.mdata ≡ pre ++ (bs ++ post)
  pub at : d.mcount ≡ length pre
  pub sized : length d.mdata ≤ buffer_size

-- The deserializer after `bs` has been read.
abbrev pub past : Deserializer → List ℕ → Deserializer
past d bs = record d { mcount = d.mcount + length bs }

-- What is read next is in the buffer.
Reads-fits :
    {d : Deserializer} {pre bs post : List ℕ}
    → Reads d pre bs post
    → d.mcount + length bs ≤ buffer_size
Reads-fits {d} {pre} {bs} {post} r = omega (
  arith,
  ap (λ l. length l) r.holds,
  r.at,
  r.sized,
  length-append pre (bs ++ post),
  length-append bs post,
)

-- A message in two parts: the second is next once the first has been read.
pub Reads-fst :
    {d : Deserializer} (pre xs ys post : List ℕ)
    → Reads d pre (xs ++ ys) post
    → Reads d pre xs (ys ++ post)
Reads-fst pre xs ys post r = record {
  holds = r.holds ∙ ap (λ l. pre ++ l) (append_assoc xs ys post);
  at = r.at;
  sized = r.sized;
}

pub Reads-snd :
    {d : Deserializer} (pre xs ys post : List ℕ)
    → Reads d pre (xs ++ ys) post
    → Reads (past d xs) (pre ++ xs) ys post
Reads-snd {d} pre xs ys post r = record {
  holds =
      r.holds
      ∙ ap (λ l. pre ++ l) (append_assoc xs ys post)
      ∙ sym (append_assoc pre xs (ys ++ post));
  at = omega (arith, r.at, length-append pre xs);
  sized = r.sized;
}

get_value-le_bytes :
    (n v : ℕ) (d : Deserializer) (pre post : List ℕ)
    → v < 256 ^ n
    → Reads d pre (le_bytes n v) post
    → get_value n d ≡ some (v, record d { mcount = d.mcount + n })
unfolding get_value
get_value-le_bytes n v d pre post fits r =
    let read : read_at d.mdata d.mcount n ≡ some (le_bytes n v) =
      rw (r.holds, r.at) (rw (length-le_bytes n v) at (read_at-middle pre (le_bytes n v) post)) in
    let end : size_add d.mcount n ≡ d.mcount + n =
      omega (arith, Reads-fits r, length-le_bytes n v) in
    rw (read, from_le-le_bytes n v fits, end)

-- `k` is read as `it`, and the offset moves over the bytes `bs`.
abbrev pub Yields : Kind → Deserializer → List ℕ → Item → Type 0
Yields k d bs it = (g : Got) × (get k d ≡ some (g, past d bs)) × (view d.mdata k g ≡ some it)

get_raw :
    (n v : ℕ) (d : Deserializer) (pre post : List ℕ)
    → v < 256 ^ n
    → Reads d pre (le_bytes n v) post
    → Yields (raw_kind n) d (le_bytes n v) (raw n v)
unfolding get view
get_raw n v d pre post fits r =
    (value v, rw (get_value-le_bytes n v d pre post fits r, length-le_bytes n v), refl)

get_text_lem :
    (cs : List ℕ) (d : Deserializer) (pre post : List ℕ)
    → All (λ c. 0 < c) cs
    → Reads d pre (encode (text cs)) post
    → Yields text_kind d (encode (text cs)) (text cs)
unfolding get get_text view encode
get_text_lem cs d pre post ok r =
    let head : List ℕ = le_bytes word_size (length cs) in
    let body : List ℕ = cs ++ (0 ∷ []) in
    let room = Reads-fits r in
    let size = length-le_bytes word_size (length cs) in
    let len = length-append head body in
    let len' = length-append cs (0 ∷ []) in
    let r₁ = Reads-fst pre head body post r in
    let r₂ = Reads-snd pre head body post r in
    let first = get_value-le_bytes word_size (length cs) d pre (body ++ post) (omega arith) r₁ in
    let end : size_add (d.mcount + word_size) (size_add (length cs) 1)
        ≡ d.mcount + length (head ++ body) =
      omega arith in
    let here : d.mcount + word_size ≡ length (pre ++ head) = omega (arith, r₂.at) in
    let mem : d.mdata ≡ (pre ++ head) ++ (cs ++ (0 ∷ post)) =
      r₂.holds ∙ ap (λ l. (pre ++ head) ++ l) (append_assoc cs (0 ∷ []) post) in
    (
      pointer (d.mcount + word_size),
      rw (first, end),
      rw (mem, here, c_string-middle (pre ++ head) cs post ok),
    )

words_loop :
    (ws : List ℕ) (d : Deserializer) (pre post : List ℕ)
    → All (λ w. w < 256 ^ word_size) ws
    → Reads d pre (word_bytes ws) post
    → ((get_pointers (length ws) d.mcount).1 ≡ d.mcount + length (word_bytes ws))
      × (load_words d.mdata (get_pointers (length ws) d.mcount).0 ≡ some ws)
unfolding get_pointers load_words word_bytes
words_loop [] d pre post ok r = (omega arith, refl)
words_loop (w ∷ ws) d pre post ok r =
    let head : List ℕ = le_bytes word_size w in
    let room = Reads-fits r in
    let size = length-le_bytes word_size w in
    let len = length-append head (word_bytes ws) in
    let r₁ = Reads-fst pre head (word_bytes ws) post r in
    let (end, loaded) =
      words_loop ws (past d head) (pre ++ head) post ok.1
        (Reads-snd pre head (word_bytes ws) post r) in
    let next : size_add d.mcount word_size ≡ d.mcount + length head = omega arith in
    let read : read_at d.mdata d.mcount word_size ≡ some head =
      rw (r₁.holds, r.at) (rw size at (read_at-middle pre head (word_bytes ws ++ post))) in
    (
      rw (get_pointers, next) (omega arith),
      rw (get_pointers, next, read, loaded, from_le-le_bytes word_size w ok.0),
    )

get_words_lem :
    (ws : List ℕ) (d : Deserializer) (pre post : List ℕ)
    → IsItem (words ws)
    → Reads d pre (encode (words ws)) post
    → Yields words_kind d (encode (words ws)) (words ws)
unfolding get get_words view encode
get_words_lem ws d pre post ok r =
    let head : List ℕ = le_bytes word_size (length ws) in
    let size = length-le_bytes word_size (length ws) in
    let len = length-append head (word_bytes ws) in
    let r₁ = Reads-fst pre head (word_bytes ws) post r in
    let r₂ = Reads-snd pre head (word_bytes ws) post r in
    let first =
      get_value-le_bytes word_size (length ws) d pre (word_bytes ws ++ post) (omega arith) r₁ in
    let (end, loaded) = words_loop ws (past d head) (pre ++ head) post ok.0 r₂ in
    let start : d.mcount + length head ≡ d.mcount + word_size = omega arith in
    let slots : List ℕ = (get_pointers (length ws) (d.mcount + word_size)).0 in
    let end' : (get_pointers (length ws) (d.mcount + word_size)).1
        ≡ d.mcount + length (head ++ word_bytes ws) =
      rw (← start, end) (omega arith) in
    let small : ltb (length ws) (2 ^ 31) ≡ true = lt→ltb _ _ ok.1 in
    (pointers slots, rw (first, small, end'), rw (rw start at loaded))

pub get_item :
    (it : Item) (d : Deserializer) (pre post : List ℕ)
    → IsItem it
    → Reads d pre (encode it) post
    → Yields (kind it) d (encode it) it
unfolding encode
get_item (raw n v) = get_raw n v
get_item (text cs) = get_text_lem cs
get_item (words ws) = get_words_lem ws

pub get_items :
    (its : List Item) (d : Deserializer) (pre post : List ℕ)
    → All IsItem its
    → Reads d pre (encode_all its) post
    → (gs : List Got) × (get_all (kinds its) d ≡ some (gs, past d (encode_all its)))
      × (view_all d.mdata (kinds its) gs ≡ some its)
unfolding get_all view_all encode_all
get_items [] d pre post ok r = ([], rw add-zero, refl)
get_items (it ∷ its) d pre post ok r =
    let (g, got, seen) =
      get_item it d pre (encode_all its ++ post) ok.0
        (Reads-fst pre (encode it) (encode_all its) post r) in
    let (gs, rest, seen') =
      get_items its (past d (encode it)) (pre ++ encode it) post ok.1
        (Reads-snd pre (encode it) (encode_all its) post r) in
    (
      g ∷ gs,
      rw (got, rest, length-append (encode it) (encode_all its), ← add_assoc d.mcount),
      rw (seen, seen'),
    )
