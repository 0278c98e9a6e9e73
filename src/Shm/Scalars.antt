-- ===== src/Shm/Scalars.antt =====
-- ScalarArgs: a count of eight bytes, and behind it the words of a kernel's arguments.
use fan_master_thesis.Base.{
  ℕ, zero, suc, ◌+◌, ◌*◌, ◌^◌, ◌≤◌, ◌<◌, ◌≡◌, refl, sym, ap, subst, ◌∙◌, ◌⊎◌, inl, inr, false,
  Option, none, some, List, [], ◌∷◌, ◌++◌, length, take, drop, get_elem?, All, leb, if◌then◌else◌,
  arith, le_bytes, from_le, length-le_bytes, from_le-le_bytes, write_at, read_at, splice,
  write_at-fits, length-write_at, read_at-write_at, read_at-frame, ◌>>=◌, length-append,
  length-take, le→leb, read_at-middle,
}
use mathlib.Core.List.{append_assoc}

-- sizeof(size_t) + sizeof(uint64_t) * 100
abbrev pub segment_size : ℕ
segment_size = 808

-- `scalar_args.data()` as bytes.
unfoldable pub data_bytes : List ℕ → List ℕ
data_bytes [] = []
data_bytes (w ∷ ws) = le_bytes 8 w ++ data_bytes ws

-- void set(std::vector<uint64_t>&): no bound is checked, and a copy past the segment is `none`.
unfoldable pub set : List ℕ → List ℕ → Option (List ℕ)
unfolding data_bytes
set scalar_args mem = do
  mem' ← write_at mem 0 (le_bytes 8 (length scalar_args))
  write_at mem' 8 (data_bytes scalar_args)

-- size_t size()
unfoldable pub size : List ℕ → Option ℕ
size mem = read_at mem 0 8 >>= λ bs. some (from_le bs)

-- What operator[] does: throw std::out_of_range, or refer to a word.
pub data Element : Type 0 where
  out_of_range : (requested max : ℕ) → Element
  element : ℕ → Element

-- uint64_t& operator[](size_t), both overloads
unfoldable pub index : ℕ → List ℕ → Option Element
unfolding size
index i mem = do
  n ← size mem
  (if leb n i
      then some (out_of_range i n)
      else (read_at mem (8 + 8 * i) 8 >>= λ bs. some (element (from_le bs))))

-- The count of eight bytes, and the words are numbers of 64 bits.
abbrev pub IsScalars : List ℕ → Type 0
IsScalars ws = (length ws < 2 ^ 64) × All (λ w. w < 2 ^ 64) ws

pub length-data_bytes : (ws : List ℕ) → length (data_bytes ws) ≡ 8 * length ws
unfolding data_bytes
length-data_bytes [] = refl
length-data_bytes (w ∷ ws) =
    omega (
      arith,
      length-append (le_bytes 8 w) (data_bytes ws),
      length-le_bytes 8 w,
      length-data_bytes ws,
    )

-- What operator[] is to find: the word, or the exception.
abbrev element_or : (requested max : ℕ) → Option ℕ → Element
element_or requested max none = out_of_range requested max
element_or requested max (some w) = element w

abbrev pub element_at : List ℕ → ℕ → Element
element_at ws i = element_or i (length ws) (get_elem? ws i)

-- A word stands eight bytes behind the one before it.
get_elem?-data_bytes :
    (ws : List ℕ) (i : ℕ) (w : ℕ)
    → get_elem? ws i ≡ some w
    → (pre post : List ℕ) × (data_bytes ws ≡ pre ++ (le_bytes 8 w ++ post)) × (length pre ≡ 8 * i)
unfolding data_bytes
get_elem?-data_bytes (v ∷ ws) zero w e =
    ([], data_bytes ws, ap (λ x. le_bytes 8 x ++ data_bytes ws) (cc), refl)
get_elem?-data_bytes (v ∷ ws) (suc i) w e =
    let (pre, post, split, size) = get_elem?-data_bytes ws i w e in
    (
      le_bytes 8 v ++ pre,
      post,
      ap (λ l. le_bytes 8 v ++ l) split ∙ sym (append_assoc (le_bytes 8 v) pre _),
      omega (arith, length-append (le_bytes 8 v) pre, length-le_bytes 8 v),
    )
get_elem?-data_bytes [] i w e = absurd (cc)

-- A read of eight bytes in the middle of the copied words.
read_at-word :
    (front rest ws : List ℕ) (i w : ℕ)
    → get_elem? ws i ≡ some w
    → read_at (front ++ (data_bytes ws ++ rest)) (length front + 8 * i) 8 ≡ some (le_bytes 8 w)
read_at-word front rest ws i w e =
    let (pre, post, split, size) = get_elem?-data_bytes ws i w e in
    let bs : List ℕ = le_bytes 8 w in
    let whole : front ++ (data_bytes ws ++ rest) ≡ (front ++ pre) ++ (bs ++ (post ++ rest)) =
      ap (λ l. front ++ (l ++ rest)) split
      ∙ ap (λ l. front ++ l) (append_assoc pre (bs ++ post) rest)
      ∙ ap (λ l. front ++ (pre ++ l)) (append_assoc bs post rest)
      ∙ sym (append_assoc front pre (bs ++ (post ++ rest))) in
    let place : length (front ++ pre) ≡ length front + 8 * i =
      omega (arith, length-append front pre) in
    let found = read_at-middle (front ++ pre) bs (post ++ rest) in
    rw (whole, ← place) (rw (length-le_bytes 8 w) at found)

get_elem?-cases :
    {A : Type 0} (xs : List A) (i : ℕ)
    → ((get_elem? xs i ≡ none) × (length xs ≤ i))
      ⊎ ((x : A) × (get_elem? xs i ≡ some x) × (i < length xs))
get_elem?-cases [] i = inl (refl, omega arith)
get_elem?-cases (x ∷ xs) zero = inr (x, refl, omega arith)
get_elem?-cases (x ∷ xs) (suc i) = elim (get_elem?-cases xs i) [
  | inl (e, h) ↦ inl (e, omega arith)
  | inr (y, e, h) ↦ inr (y, e, omega arith)
]

All-get_elem? :
    {A : Type 0} (P : A → Type 0) (xs : List A) (i : ℕ) (x : A)
    → All P xs
    → get_elem? xs i ≡ some x
    → P x
All-get_elem? P [] i x h e = absurd (cc)
All-get_elem? P (y ∷ ys) zero x h e = subst P (cc) h.0
All-get_elem? P (y ∷ ys) (suc i) x h e = All-get_elem? P ys i x h.1 e

module _ (ws mem : List ℕ) where
  -- The segment after the two copies.
  abbrev filled : List ℕ
  filled = splice (splice mem 0 (le_bytes 8 (length ws))) 8 (data_bytes ws)

  set-fits :
      length mem ≡ segment_size
      → length ws ≤ 100
      → (set ws mem ≡ some filled)
        × (length filled ≡ segment_size)
        × (read_at filled 0 8 ≡ some (le_bytes 8 (length ws)))
  unfolding set
  set-fits room few =
      let head : List ℕ = le_bytes 8 (length ws) in
      let whole = length-data_bytes ws in
      let eight = length-le_bytes 8 (length ws) in
      let first = write_at-fits mem head 0 (omega arith) in
      let kept = length-write_at mem head 0 first in
      let second =
        write_at-fits (splice mem 0 head) (data_bytes ws) 8 (omega (arith, kept, room, whole)) in
      (
        rw (first, second),
        length-write_at (splice mem 0 head) (data_bytes ws) 8 second ∙ kept ∙ room,
        read_at-frame (splice mem 0 head) (data_bytes ws) 8 second 0 8 (omega arith)
            ∙ subst (λ n. read_at (splice mem 0 head) 0 n ≡ some head) eight
                (read_at-write_at mem head 0 first),
      )

  size-filled : length mem ≡ segment_size → length ws ≤ 100 → size filled ≡ some (length ws)
  unfolding size
  size-filled room few =
      let (written, kept, head) = set-fits room few in
      rw head (ap some (from_le-le_bytes 8 (length ws) (omega arith)))

  index-filled :
      length mem ≡ segment_size
      → length ws ≤ 100
      → All (λ w. w < 2 ^ 64) ws
      → (i : ℕ) → index i filled ≡ some (element_at ws i)
  unfolding index
  index-filled room few words i =
      let counted = size-filled room few in
      let eight = length-le_bytes 8 (length ws) in
      elim (get_elem?-cases ws i) [
        | inl (e, h) ↦
            rw (counted, le→leb (length ws) i h)
              (ap (λ o. some (element_or i (length ws) o)) (sym e))
        | inr (w, e, h) ↦
            let front : List ℕ = take 8 (splice mem 0 (le_bytes 8 (length ws))) in
            let place : length front ≡ 8 = length-take 8 _ (
              omega (
                arith,
                length-append (le_bytes 8 (length ws))
                    (drop (0 + length (le_bytes 8 (length ws))) mem),
              )) in
            let found = read_at-word front _ ws i w e in
            let inside : leb (length ws) i ≡ false = ground arith in
            rw (counted, inside)
              (rw (subst (λ n. read_at filled (n + 8 * i) 8 ≡ some (le_bytes 8 w)) place found) (
                ap (λ v. some (element v))
                  (from_le-le_bytes 8 w (All-get_elem? (λ v. v < 2 ^ 64) ws i w words e))
                ∙ ap (λ o. some (element_or i (length ws) o)) (sym e)))
      ]

-- Up to a hundred arguments of 64 bits are stored into a segment of the declared size without a
-- fault, the count is read back, and operator[] gives each of them and throws at every index
-- behind them, naming the index and the count.
pub index-set :
    (ws mem : List ℕ) (i : ℕ)
    → length mem ≡ segment_size
    → All (λ w. w < 2 ^ 64) ws
    → length ws ≤ 100
    → (mem' : List ℕ) × (set ws mem ≡ some mem')
      × (length mem' ≡ segment_size)
      × (size mem' ≡ some (length ws))
      × (index i mem' ≡ some (element_at ws i))
index-set ws mem i room words few =
    let (written, kept, head) = set-fits ws mem room few in
    (
      filled ws mem,
      written,
      kept,
      size-filled ws mem room few,
      index-filled ws mem room few words i,
    )

-- More than a hundred arguments are copied past the segment.
pub set-overflow :
    (ws mem : List ℕ) → length mem ≡ segment_size → 100 < length ws → set ws mem ≡ none
unfolding set write_at
set-overflow ws mem room many =
    let whole = length-data_bytes ws in
    let eight = length-le_bytes 8 (length ws) in
    let first = write_at-fits mem (le_bytes 8 (length ws)) 0 (omega arith) in
    let kept = length-write_at mem (le_bytes 8 (length ws)) 0 first in rw first (ground arith)
