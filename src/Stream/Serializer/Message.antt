-- ===== src/Stream/Serializer/Message.antt =====
-- What a serializer holds after any sequence of `operator<<`: the wire form of the items.
use native.Mathlib.Nat.{add_assoc, add-zero}
use fan_master_thesis.Base.{
  ℕ, ◌+◌, ◌≤◌, ◌<◌, ◌≡◌, refl, sym, ap, ◌∙◌, none, some, List, [], ◌∷◌, ◌++◌, length, take, arith,
  le_bytes, length-append, write_at, ◌>>=◌, write_at-append, write_at-some_fits, length-write_at,
  take-write_at, write_at-fits, splice, >>=-eq-some, Option-cases, bind_congr, take-append-drop,
  drop, inl, inr,
}
use fan_master_thesis.Stream.Items.{
  Item, raw, text, words, word_size, size_add, word_bytes, encode, encode_all,
}
use fan_master_thesis.Stream.Serializer.{
  Serializer, IsSerializer, buffer_size, append, put, put_all, message,
}

-- A copy keeps the buffer's size and the count within it.
append-IsSerializer :
    (bs : List ℕ) {s t : Serializer} → IsSerializer s → append bs s ≡ some t → IsSerializer t
unfolding append
append-IsSerializer bs {s} {t} v e =
    let (m, written, same) = >>=-eq-some (write_at s.mdata s.mcount bs) _ e in
    let (fits, _) = write_at-some_fits s.mdata bs s.mcount written in
    let size = length-write_at s.mdata bs s.mcount written in ground arith

-- The offset behind a copy that succeeded.
size_add_fits :
    (bs : List ℕ) (s : Serializer)
    → IsSerializer s
    → s.mcount + length bs ≤ length s.mdata
    → size_add s.mcount (length bs) ≡ s.mcount + length bs
size_add_fits bs s v h = omega arith

-- Two copies in a row are one copy of both.
append-append :
    (xs ys : List ℕ) (s : Serializer)
    → IsSerializer s
    → (append xs s >>= append ys) ≡ append (xs ++ ys) s
unfolding append
append-append xs ys s v = elim (Option-cases (write_at s.mdata s.mcount xs)) [
  | inl e ↦ rw (write_at-append, e) refl
  | inr (m, e) ↦
      let at = size_add_fits xs s v (write_at-some_fits s.mdata xs s.mcount e).0 in
      rw (write_at-append, e, length-append xs ys, at, add_assoc s.mcount) refl
]

append_three :
    (xs ys zs : List ℕ) (s : Serializer)
    → IsSerializer s
    → (append xs s >>= λ s₁. append ys s₁ >>= append zs) ≡ append (xs ++ (ys ++ zs)) s
append_three xs ys zs s v =
    bind_congr (append xs s) (λ s₁. append ys s₁ >>= append zs) (append (ys ++ zs))
      (λ s₁ e. append-append ys zs s₁ (append-IsSerializer xs v e))
    ∙ append-append xs (ys ++ zs) s v

append_nil : (s : Serializer) → IsSerializer s → append [] s ≡ some s
unfolding append
append_nil s v =
    let whole : take s.mcount s.mdata ++ drop (s.mcount + 0) s.mdata ≡ s.mdata =
      rw add-zero (take-append-drop s.mcount s.mdata) in
    let count : size_add s.mcount 0 ≡ s.mcount = omega arith in
    rw (write_at-fits s.mdata [] s.mcount (omega arith), whole, count)

-- Each overload of `operator<<` copies the wire form of its item, and nothing else.
pub put-append : (it : Item) (s : Serializer) → IsSerializer s → put it s ≡ append (encode it) s
unfolding put encode
put-append (raw n v) s h = refl
put-append (text cs) s h = append_three (le_bytes word_size (length cs)) cs (0 ∷ []) s h
put-append (words ws) s h = append-append (le_bytes word_size (length ws)) (word_bytes ws) s h

put_all-append :
    (its : List Item) (s : Serializer) → IsSerializer s → put_all its s ≡ append (encode_all its) s
unfolding put_all encode_all
put_all-append [] s h = sym (append_nil s h)
put_all-append (it ∷ its) s h = rw (put-append it s h) (
    bind_congr (append (encode it) s) (put_all its) (append (encode_all its))
      (λ s₁ e. put_all-append its s₁ (append-IsSerializer (encode it) h e))
    ∙ append-append (encode it) (encode_all its) s h)

append_fits :
    (bs : List ℕ) (s : Serializer)
    → IsSerializer s
    → s.mcount + length bs ≤ buffer_size
    → append bs s
      ≡ some (record { mdata = splice s.mdata s.mcount bs; mcount = size_add s.mcount (length bs) })
unfolding append
append_fits bs s h fits = rw (write_at-fits s.mdata bs s.mcount (omega arith))

message-append :
    (bs : List ℕ) {s t : Serializer}
    → IsSerializer s
    → append bs s ≡ some t
    → message t ≡ message s ++ bs
unfolding append message
message-append bs {s} {t} h e =
    let (m, written, same) = >>=-eq-some (write_at s.mdata s.mcount bs) _ e in
    let (fits, _) = write_at-some_fits s.mdata bs s.mcount written in
    let end = size_add_fits bs s h fits in
    let got = take-write_at s.mdata bs s.mcount written in
    let count : t.mcount ≡ s.mcount + length bs = ground arith in
    let bytes : t.mdata ≡ m = ground arith in rw (count, bytes) got

-- Items that fit behind what a serializer holds are accepted: it then holds its old message and
-- behind it their wire forms in order, and its buffer and count are in range again.
pub put_all-message :
    (its : List Item) (s : Serializer)
    → IsSerializer s
    → s.mcount + length (encode_all its) ≤ buffer_size
    → (t : Serializer) × (put_all its s ≡ some t)
      × (message t ≡ message s ++ encode_all its)
      × IsSerializer t
put_all-message its s h fits =
    let bs : List ℕ = encode_all its in
    let m : List ℕ = splice s.mdata s.mcount bs in
    let t : Serializer = record { mdata = m; mcount = size_add s.mcount (length bs) } in
    let done = append_fits bs s h fits in
    (t, put_all-append its s h ∙ done, message-append bs h done, append-IsSerializer bs h done)

-- Items that do not fit behind what it holds make it write past its allocation.
pub put_all-overflow :
    (its : List Item) (s : Serializer)
    → IsSerializer s
    → buffer_size < s.mcount + length (encode_all its)
    → put_all its s ≡ none
put_all-overflow its s h over = rw (put_all-append its s h) (unfold append write_at in ground arith)

-- What an empty serializer holds once it has accepted the items.
pub message-put_all :
    (its : List Item) {s t : Serializer}
    → IsSerializer s
    → s.mcount ≡ 0
    → put_all its s ≡ some t
    → message t ≡ encode_all its
message-put_all its {s} {t} h empty e =
    let held = message-append (encode_all its) h (sym (put_all-append its s h) ∙ e) in
    let none_yet : message s ≡ [] = unfold message in rw empty refl in
    held ∙ ap (λ l. l ++ encode_all its) none_yet
