-- ===== src/Shm/Calls/Agreement.antt =====
-- One command is under way at a time, and what the client reads is what the host stored for it.
use fan_master_thesis.Base.{
  ℕ, zero, suc, ◌≡◌, ◌⊎◌, inl, inr, refl, subst, none, some, List, ◌∷◌, length, arith,
}
use fan_master_thesis.Shm.Text
use fan_master_thesis.Shm.Buffer.{ResponseBuffer, pull_get}
use fan_master_thesis.Shm.Calls.Steps.{
  Client, idle, posting, waiting, returned, Host, pulling, reading, serving, Call, System, start,
  Reach,
}
use fan_master_thesis.Shm.Calls.Invariant.{host_turn, Holds, Serves, Pending, Reach-Keeps}

-- The call that is under way between impl_finish and the client's reading of the results.
pub InFlight : Client → List Call → List Call → Type 0
InFlight c done got = (k : Call) × (done ≡ k ∷ got) × ((c ≡ waiting k.name) ⊎ (c ≡ returned k.name))

Pending-cases :
    (c : Client) (n : ℕ) (done got : List Call) (response : ResponseBuffer)
    → Pending c n done got response
    → (done ≡ got) ⊎ InFlight c done got
unfolding Pending InFlight
Pending-cases idle n done got response p = inl p
Pending-cases (posting name) n done got response p = inl p
Pending-cases (waiting name) zero done got response p = inl p
Pending-cases (waiting name) (suc n) done got response p = inr (_, p, inl refl)
Pending-cases (returned name) n done got response p = inr (_, p, inr refl)

-- Where the semaphores were new, the calls whose results the client has read are, at every moment,
-- exactly the calls that the host has finished, in their order, each with its own command and with
-- the results that the host had stored for it, except for at most the last one, which is that of
-- the command that the client still waits for or is about to read the results of.
pub received-served :
    (segment : List ℕ) (response : ResponseBuffer) (s : System)
    → length segment ≡ Text.segment_size
    → Reach (start segment response none none) s
    → (s.served ≡ s.received) ⊎ InFlight s.client s.served s.received
received-served segment response s room r =
    let inv = Reach-Keeps segment response room r in
    Pending-cases s.client s.buffer.guest_trigger s.served s.received s.buffer.response inv.pending

pub Serves-serving :
    (h : Host) (c : Client) (name : List ℕ) → h ≡ serving name → Serves h c → c ≡ waiting name
unfolding Serves
Serves-serving pulling c name e v = absurd (cc)
Serves-serving reading c name e v = absurd (cc)
Serves-serving (serving x) c name e v = cc

Holds-waiting :
    (c : Client) (name mem : List ℕ) → c ≡ waiting name → Holds c mem → Text.get mem ≡ some name
unfolding Holds
Holds-waiting c name mem e h = (subst (λ d. Holds d mem) e h).0

host_turn-serving : (h : Host) (name : List ℕ) → h ≡ serving name → host_turn h ≡ 1
unfolding host_turn
host_turn-serving h name e = rw e

-- Where the semaphores were new, a host that has pulled a command has pulled the one that the
-- client waits for, it still stands in the segment, and both semaphores are at zero: the host is
-- alone with the buffer.
pub serving-alone :
    (segment : List ℕ) (response : ResponseBuffer) (s : System) (name : List ℕ)
    → length segment ≡ Text.segment_size
    → Reach (start segment response none none) s
    → s.host ≡ serving name
    → (s.client ≡ waiting name)
      × (pull_get s.buffer ≡ some name)
      × (s.buffer.host_trigger ≡ 0)
      × (s.buffer.guest_trigger ≡ 0)
unfolding pull_get
serving-alone segment response s name room r e =
    let inv = Reach-Keeps segment response room r in
    let waits = Serves-serving s.host s.client name e inv.serves in
    let turn = host_turn-serving s.host name e in
    (
      waits,
      Holds-waiting s.client name s.buffer.segment waits inv.holds,
      omega (arith, inv.token),
      omega (arith, inv.token),
    )
