-- ===== src/Vsock.antt =====
-- class VsockHandle of interception/stream.h: whole messages over a stream socket, by loops over
-- `send` and `recv`, each of which may move fewer bytes than it was asked to.
pub mod Delivery
use fan_master_thesis.Base.{
  ℕ, zero, suc, ◌+◌, ◌-◌, ◌≤◌, ◌<◌, ◌≡◌, List, [], ◌∷◌, ◌++◌, length, take, drop, ltb, ◌==◌,
  if◌then◌else◌,
}

-- What a system call answers: a negative number, or how many bytes it moved (0 from `recv` when
-- the peer has closed).
pub data Answer : Type 0 where
  failed : Answer
  moved : ℕ → Answer

-- The kernel: what the n-th call answers when it is asked to move so many bytes.
abbrev pub Kernel : Type 0
Kernel = ℕ → ℕ → Answer

-- A system call moves at most what it is asked to move.
abbrev pub IsHonest : Kernel → Type 0
IsHonest k = (i n m : ℕ) → k i n ≡ moved m → m ≤ n

-- How a loop ends. `done` and `broken` carry the bytes that were moved, and `broken` stands for the
-- exception of `transmit` and the exit of `receive`. `stuck` is no outcome of the code: the
-- recursion ran out of fuel.
pub data Outcome : Type 0 where
  done : List ℕ → Outcome
  broken : List ℕ → Outcome
  stuck : Outcome

-- `if(n <= 0)` throw or exit, else go on with what the call moved.
abbrev pub on_answer : Answer → Outcome → (ℕ → Outcome) → Outcome
on_answer failed give_up next = give_up
on_answer (moved zero) give_up next = give_up
on_answer (moved (suc n)) give_up next = next (suc n)

-- `while(data_size > 0)`: `rest` is what `remain_data` points at, `sent` what is on the wire.
transmit_loop : Kernel → ℕ → ℕ → List ℕ → List ℕ → Outcome
transmit_loop k fuel i sent [] = done sent
transmit_loop k zero i sent (b ∷ bs) = stuck
transmit_loop k (suc fuel) i sent (b ∷ bs) =
    let data_left : List ℕ = b ∷ bs in
    on_answer (k i (length data_left)) (broken sent)
      λ n. transmit_loop k fuel (suc i) (sent ++ take n data_left) (drop n data_left)

-- void transmit(const void*, size_t). Each round moves a byte at least.
pub transmit : Kernel → List ℕ → Outcome
unfolding transmit_loop
transmit k msg = transmit_loop k (length msg) 0 [] msg

-- `while(total_size < data_size)`: `wire` is what the peer has sent and nobody has read, `want` is
-- `data_size - total_size`.
receive_loop : Kernel → ℕ → ℕ → List ℕ → List ℕ → ℕ → Outcome
receive_loop k fuel i wire got zero = done got
receive_loop k zero i wire got (suc want) = stuck
receive_loop k (suc fuel) i wire got (suc want) =
    on_answer (k i (suc want)) (broken got)
      λ n. receive_loop k fuel (suc i) (drop n wire) (got ++ take n wire) (suc want - n)

-- void receive(void*, size_t)
pub receive : Kernel → List ℕ → ℕ → Outcome
unfolding receive_loop
receive k wire size = receive_loop k size 0 wire [] size
