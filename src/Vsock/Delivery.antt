-- ===== src/Vsock/Delivery.antt =====
-- What the loops of `VsockHandle` deliver, however the kernel cuts the traffic up.
use mathlib.Core.List.{append_assoc, append-nil}
use native.Mathlib.Nat.{add-zero, zero-add}
use fan_master_thesis.Base.{
  drop-drop, take-add, ℕ, zero, suc, ◌+◌, ◌-◌, ◌≤◌, ◌<◌, ◌≡◌, refl, sym, ap, subst, ◌∙◌, ◌≢◌, List,
  [], ◌∷◌, ◌++◌, length, take, drop, arith, length-drop, take-append-drop,
}
use fan_master_thesis.Vsock.{
  Answer, failed, moved, Kernel, IsHonest, Outcome, done, broken, stuck, transmit_loop, on_answer,
  transmit, receive_loop, receive,
}

-- Either everything was moved, or the loop broke off with something left over.
abbrev pub Delivers : List ℕ → Outcome → Type 0
Delivers whole (done moved_bytes) = moved_bytes ≡ whole
Delivers whole (broken moved_bytes) = (rest : List ℕ) × (moved_bytes ++ rest ≡ whole) × (rest ≢ [])
Delivers whole stuck = ⊥

-- The two ways on from a system call.
on_answer_rule {ℓ} :
    (P : Outcome → Type ℓ) (a : Answer) (give_up : Outcome) (next : ℕ → Outcome)
    → P give_up
    → ((n : ℕ) → a ≡ moved (suc n) → P (next (suc n)))
    → P (on_answer a give_up next)
on_answer_rule P failed give_up next p q = p
on_answer_rule P (moved zero) give_up next p q = p
on_answer_rule P (moved (suc n)) give_up next p q = q n refl

transmit_loop-Delivers :
    (k : Kernel) (fuel i : ℕ) (sent rest : List ℕ)
    → length rest ≤ fuel
    → Delivers (sent ++ rest) (transmit_loop k fuel i sent rest)
unfolding transmit_loop
transmit_loop-Delivers k fuel i sent [] f = sym (append-nil sent)
transmit_loop-Delivers k zero i sent (b ∷ bs) f = absurd (omega arith)
transmit_loop-Delivers k (suc fuel) i sent (b ∷ bs) f =
    let whole : List ℕ = b ∷ bs in
    on_answer_rule (Delivers (sent ++ whole)) (k i (length whole)) (broken sent) _
      (whole, refl, λ p. cc)
      (λ n e.
        let front : List ℕ = take (suc n) whole in
        let back : List ℕ = drop (suc n) whole in
        let joined : (sent ++ front) ++ back ≡ sent ++ whole =
          append_assoc sent front back ∙ ap (λ l. sent ++ l) (take-append-drop (suc n) whole) in
        subst (λ l. Delivers l (transmit_loop k fuel (suc i) (sent ++ front) back)) joined
          (transmit_loop-Delivers k fuel (suc i) (sent ++ front) back
            (omega (arith, length-drop (suc n) whole))))

-- `transmit` ends on every message: it returns with exactly the message sent, or it throws, and
-- then what was sent is the message less a non-empty rest.
pub transmit-Delivers : (k : Kernel) (msg : List ℕ) → Delivers msg (transmit k msg)
unfolding transmit
transmit-Delivers k msg = transmit_loop-Delivers k (length msg) 0 [] msg (omega arith)

-- What `receive` is to leave behind: the first `size` bytes of the wire, or, if it broke off, fewer.
abbrev pub Fills : List ℕ → ℕ → Outcome → Type 0
Fills wire size (done got) = got ≡ take size wire
Fills wire size (broken got) = (n : ℕ) × (n < size) × (got ≡ take n wire)
Fills wire size stuck = ⊥

receive_loop-Fills :
    (k : Kernel) (fuel i n : ℕ) (wire : List ℕ) (want : ℕ)
    → IsHonest k
    → want ≤ fuel
    → Fills wire (n + want) (receive_loop k fuel i (drop n wire) (take n wire) want)
unfolding receive_loop
receive_loop-Fills k fuel i n wire zero h f = rw add-zero refl
receive_loop-Fills k zero i n wire (suc want) h f = absurd (omega arith)
receive_loop-Fills k (suc fuel) i n wire (suc want) h f =
    on_answer_rule (Fills wire (n + suc want)) (k i (suc want)) (broken (take n wire)) _
      (n, omega arith, refl)
      (λ m e.
        let fits = h i (suc want) (suc m) e in
        let total : n + suc m + (suc want - suc m) ≡ n + suc want = omega arith in
        rw (drop-drop (suc m) n wire, take-add n (suc m) wire, ← total)
          (receive_loop-Fills k fuel (suc i) (n + suc m) wire (suc want - suc m) h (omega arith)))

-- With a kernel that moves at most what it is asked to, `receive` ends: it returns with the first
-- `size` bytes that the peer sent, or it exits with a shorter beginning of them.
pub receive-Fills :
    (k : Kernel) (wire : List ℕ) (size : ℕ) → IsHonest k → Fills wire size (receive k wire size)
unfolding receive
receive-Fills k wire size h =
    rw zero-add at (receive_loop-Fills k size 0 0 wire size h (omega arith))
