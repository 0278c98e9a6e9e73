-- ===== src/Base/Memory.antt =====
-- An allocation of fixed size as the list of its bytes: `memcpy` into it and out of it, and the
-- C string at an offset. An access past the allocation is undefined behaviour, `none`.
use Prim.Native.Nat.{ℕ, ◌+◌, ◌≤◌, ◌<◌}
use mathlib.Core.Path.{◌≡◌, refl, sym, ap, ◌∙◌}
use mathlib.Core.Bool.{true}
use mathlib.Core.Logic.{inl, inr}
use mathlib.Core.List.{List, [], ◌∷◌, ◌++◌, append_assoc}
use mathlib.Core.Option.{Option, none, some}
use native.Mathlib.Omega.{arith}
use native.Mathlib.Nat.{add_assoc}
use fan_master_thesis.Base.Tests.{leb, ◌==◌, if◌then◌else◌, Bool-cases, ◌>>=◌, leb→le, le→leb}
use fan_master_thesis.Base.Lists.{
  length, take, drop, drop-append_add, drop-drop, All, length-append, length-take, length-drop,
  take-append, drop-append, take-append_eq, take-drop-take,
}

abbrev pub splice : List ℕ → ℕ → List ℕ → List ℕ
splice buf off bs = take off buf ++ (bs ++ drop (off + length bs) buf)

-- memcpy(buf + off, bs, n), where `bs` are the n bytes of the source.
unfoldable pub write_at : List ℕ → ℕ → List ℕ → Option (List ℕ)
write_at buf off bs = if leb (off + length bs) (length buf) then some (splice buf off bs) else none

-- memcpy(dst, buf + off, n), the bytes that `dst` receives.
unfoldable pub read_at : List ℕ → ℕ → ℕ → Option (List ℕ)
read_at buf off n = if leb (off + n) (length buf) then some (take n (drop off buf)) else none

-- The bytes before the first zero byte, `none` where the allocation holds no zero byte.
c_string_of : List ℕ → Option (List ℕ)
c_string_of [] = none
c_string_of (b ∷ bs) =
    let rest = c_string_of bs in
    if b == 0 then some [] else elim rest [ none ↦ none | some s ↦ some (b ∷ s) ]

-- What a `char*` at that offset reads as.
unfoldable pub c_string : List ℕ → ℕ → Option (List ℕ)
unfolding c_string_of
c_string buf off = if leb off (length buf) then c_string_of (drop off buf) else none

module _ (buf bs : List ℕ) (off : ℕ) where
  length-splice : off + length bs ≤ length buf → length (splice buf off bs) ≡ length buf
  length-splice h = omega (
    arith,
    length-append (take off buf) (bs ++ drop (off + length bs) buf),
    length-append bs (drop (off + length bs) buf),
    length-take off buf,
    length-drop (off + length bs) buf,
  )

  pub write_at-fits : off + length bs ≤ length buf → write_at buf off bs ≡ some (splice buf off bs)
  unfolding write_at
  write_at-fits h = ground (arith, le→leb (off + length bs) (length buf))

  pub write_at-some_fits :
      {out : List ℕ}
      → write_at buf off bs ≡ some out
      → (off + length bs ≤ length buf) × (out ≡ splice buf off bs)
  unfolding write_at
  write_at-some_fits e = ground arith

  pub length-write_at : {out : List ℕ} → write_at buf off bs ≡ some out → length out ≡ length buf
  length-write_at {out} e =
      let (fits, same) = write_at-some_fits e in ap (λ l. length l) same ∙ length-splice fits

  -- What stands before the end of the write, after it.
  pub take-write_at :
      {out : List ℕ}
      → write_at buf off bs ≡ some out
      → take (off + length bs) out ≡ take off buf ++ bs
  take-write_at {out} e =
      let (fits, same) = write_at-some_fits e in
      let front : List ℕ = take off buf ++ bs in
      let back : List ℕ = drop (off + length bs) buf in
      let split : out ≡ front ++ back = same ∙ sym (append_assoc (take off buf) bs back) in
      let size : length front ≡ off + length bs =
        omega (arith, length-append (take off buf) bs, length-take off buf) in
      rw split (take-append_eq (off + length bs) front back size)

pub read_at-middle :
    (pre bs post : List ℕ) → read_at (pre ++ (bs ++ post)) (length pre) (length bs) ≡ some bs
unfolding read_at
read_at-middle pre bs post =
    let inside : leb (length pre + length bs) (length (pre ++ (bs ++ post))) ≡ true =
      le→leb _ _ (omega (arith, length-append pre (bs ++ post), length-append bs post)) in
    rw (inside, drop-append pre (bs ++ post), take-append bs post)

pub read_at-fits :
    (buf : List ℕ) (off n : ℕ)
    → off + n ≤ length buf
    → read_at buf off n ≡ some (take n (drop off buf))
unfolding read_at
read_at-fits buf off n h = rw (le→leb (off + n) (length buf) h)

module _ (buf bs : List ℕ) (off : ℕ) {out : List ℕ} (written : write_at buf off bs ≡ some out) where
  -- What was written is read back.
  pub read_at-write_at : read_at out off (length bs) ≡ some bs
  read_at-write_at =
      let (fits, same) = write_at-some_fits buf bs off written in
      let h = read_at-middle (take off buf) bs (drop (off + length bs) buf) in
      rw (same) (rw (length-take off buf (omega arith)) at h)

  -- A read that ends before the write sees what was there.
  pub read_at-frame : (i n : ℕ) → i + n ≤ off → read_at out i n ≡ read_at buf i n
  read_at-frame i n h =
      let (fits, same) = write_at-some_fits buf bs off written in
      let size = length-write_at buf bs off written in
      let front : take off out ≡ take off buf =
        rw same (take-append_eq off (take off buf) _ (length-take off buf (omega arith))) in
      let window : take n (drop i out) ≡ take n (drop i buf) =
        sym (take-drop-take i n off out h)
        ∙ ap (λ l. take n (drop i l)) front
        ∙ take-drop-take i n off buf h in
      rw (read_at-fits out i n (omega arith), read_at-fits buf i n (omega arith)) (ap some window)

pub c_string-middle :
    (pre cs post : List ℕ)
    → All (λ c. 0 < c) cs
    → c_string (pre ++ (cs ++ (0 ∷ post))) (length pre) ≡ some cs
unfolding c_string c_string_of
c_string-middle pre cs post h =
    let inside : leb (length pre) (length (pre ++ (cs ++ (0 ∷ post)))) ≡ true =
      le→leb _ _ (omega (arith, length-append pre (cs ++ (0 ∷ post)))) in
    rw (inside, drop-append pre (cs ++ (0 ∷ post))) (go cs h)
  where
    go : (cs : List ℕ) → All (λ c. 0 < c) cs → c_string_of (cs ++ (0 ∷ post)) ≡ some cs
    go [] h = refl
    go (c ∷ cs) h = let ih = go cs h.1 in ground arith

module _ (buf xs ys : List ℕ) (off : ℕ) where
  splice-splice :
      off + length xs ≤ length buf
      → splice (splice buf off xs) (off + length xs) ys ≡ splice buf off (xs ++ ys)
  splice-splice h =
      let n : ℕ = off + length xs in
      let front : List ℕ = take off buf ++ xs in
      let size : length front ≡ n =
        omega (arith, length-append (take off buf) xs, length-take off buf) in
      let whole : splice buf off xs ≡ front ++ drop n buf =
        sym (append_assoc (take off buf) xs (drop n buf)) in
      let kept : take n (splice buf off xs) ≡ front =
        ap (take n) whole ∙ take-append_eq n front (drop n buf) size in
      let rest : drop (n + length ys) (splice buf off xs) ≡ drop (n + length ys) buf =
        ap (drop (n + length ys)) whole
        ∙ ap (λ k. drop (k + length ys) (front ++ drop n buf)) (sym size)
        ∙ drop-append_add (length ys) front (drop n buf)
        ∙ drop-drop (length ys) n buf in
      let total : off + length (xs ++ ys) ≡ n + length ys = omega (arith, length-append xs ys) in
      ap (λ l. l ++ (ys ++ drop (n + length ys) (splice buf off xs))) kept
      ∙ append_assoc (take off buf) xs _
      ∙ ap (λ l. take off buf ++ (xs ++ (ys ++ l))) rest
      ∙ ap (λ l. take off buf ++ l) (sym (append_assoc xs ys _))
      ∙ ap (λ k. take off buf ++ ((xs ++ ys) ++ drop k buf)) (sym total)

  -- One copy of two byte strings is a copy of the first and one of the second behind it.
  pub write_at-append :
      write_at buf off (xs ++ ys) ≡ (write_at buf off xs >>= λ m. write_at m (off + length xs) ys)
  unfolding write_at
  write_at-append = elim (Bool-cases (leb (off + length xs) (length buf))) [
    | inl fits ↦
        let h = leb→le (off + length xs) (length buf) fits in
        rw fits (
          rw (length-splice buf xs off h, splice-splice h, length-append xs ys, add_assoc off) refl)
    | inr over ↦ rw over (ground (arith, length-append xs ys))
  ]
