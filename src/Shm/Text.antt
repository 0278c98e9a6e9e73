-- ===== src/Shm/Text.antt =====
-- StringArg: a length of four bytes, and behind it a string with its final zero.
use fan_master_thesis.Base.{
  ℕ, suc, ◌+◌, ◌-◌, ◌%◌, ◌^◌, ◌≤◌, ◌<◌, ◌≡◌, refl, ap, ◌∙◌, Option, some, List, [], ◌∷◌, ◌++◌,
  length, take, drop, replicate, All, ltb, if◌then◌else◌, arith, le_bytes, length-le_bytes,
  write_at, splice, write_at-fits, length-write_at, length-append, length-take, c_string,
  c_string-middle, subst, ◌>>=◌,
}
use mathlib.Core.List.{append_assoc}
use native.Mathlib.Numerals.{unary_clauses}

-- sizeof(char) * 100
abbrev pub segment_size : ℕ
segment_size = 100

-- strncpy(dst, content, n): the bytes that `dst` receives, filled up with zeros.
unfoldable pub strncpy : List ℕ → ℕ → List ℕ
strncpy content n = take n content ++ replicate (n - length content) 0

-- An `int` of these 32 bits passed as a `size_t`.
abbrev pub int_to_size : ℕ → ℕ
int_to_size v = if ltb v (2 ^ 31) then v else v + (2 ^ 64 - 2 ^ 32)

-- void set(const char*)
unfoldable pub set : List ℕ → List ℕ → Option (List ℕ)
unfolding strncpy
set content mem =
    let size = (length content + 1) % 2 ^ 32 in
    write_at mem 0 (le_bytes 4 size) >>= λ mem'.
    write_at mem' 4 (strncpy content (int_to_size size))

-- const char* get(): what the characters read as, up to the first zero.
unfoldable pub get : List ℕ → Option (List ℕ)
get mem = c_string mem 4

-- The characters of a C string.
abbrev pub IsText : List ℕ → Type 0
IsText cs = All (λ c. 0 < c) cs

-- What strncpy copies when it is given the string's length and one.
strncpy-length : (cs : List ℕ) → strncpy cs (suc (length cs)) ≡ cs ++ (0 ∷ [])
unfolding strncpy
strncpy-length [] = refl
strncpy-length (c ∷ cs) = simp unary_clauses (ap (λ l. c ∷ l) (strncpy-length cs))

strncpy-whole : (cs : List ℕ) → strncpy cs (length cs + 1) ≡ cs ++ (0 ∷ [])
strncpy-whole cs =
    let size : length cs + 1 ≡ suc (length cs) = omega arith in rw size (strncpy-length cs)

set_size : (cs : List ℕ) → length cs ≤ 95 → int_to_size ((length cs + 1) % 2 ^ 32) ≡ length cs + 1
set_size cs few = ground arith

-- A string of up to 95 characters is stored into a segment of the declared size without a fault,
-- and is read back; the segment keeps its size.
pub get-set :
    (cs mem : List ℕ)
    → length mem ≡ segment_size
    → IsText cs
    → length cs ≤ 95
    → (mem' : List ℕ) × (set cs mem ≡ some mem')
      × (length mem' ≡ segment_size)
      × (get mem' ≡ some cs)
unfolding set get
get-set cs mem room chars few =
    let head : List ℕ = le_bytes 4 ((length cs + 1) % 2 ^ 32) in
    let four : length head ≡ 4 = length-le_bytes 4 _ in
    let copied : strncpy cs (int_to_size ((length cs + 1) % 2 ^ 32)) ≡ cs ++ (0 ∷ []) =
      ap (strncpy cs) (set_size cs few) ∙ strncpy-whole cs in
    let tail = length-append cs (0 ∷ []) in
    let first = write_at-fits mem head 0 (omega arith) in
    let kept = length-write_at mem head 0 first in
    let mem₁ : List ℕ = splice mem 0 head in
    let second = write_at-fits mem₁ (cs ++ (0 ∷ [])) 4 (omega arith) in
    let front : List ℕ = take 4 mem₁ in
    let place : length front ≡ 4 = length-take 4 mem₁ (omega arith) in
    let rest : List ℕ = drop (4 + length (cs ++ (0 ∷ []))) mem₁ in
    let found = c_string-middle front cs rest chars in
    (
      splice mem₁ 4 (cs ++ (0 ∷ [])),
      rw (first, copied) second,
      length-write_at mem₁ (cs ++ (0 ∷ [])) 4 second ∙ kept ∙ room,
      ap (λ l. c_string (front ++ l) 4) (append_assoc cs (0 ∷ []) rest)
          ∙ subst (λ n. c_string (front ++ (cs ++ (0 ∷ rest))) n ≡ some cs) place found,
    )
