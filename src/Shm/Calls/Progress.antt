-- ===== src/Shm/Calls/Progress.antt =====
-- A push is answered: the steps that lead there exist from every state in which the client waits.
use fan_master_thesis.Base.{
  ℕ, zero, suc, ◌≡◌, ◌⊎◌, inl, inr, refl, sym, ap, subst, none, some, List, [], ◌∷◌, length, arith,
}
use fan_master_thesis.Shm.Text
use fan_master_thesis.Shm.Buffer.{
  ResponseBuffer, CommandBuffer, init, push_post, push_wait, pull_wait, pull_get, impl_finish,
  push_set-fits, sem_post, sem_open, sem_wait,
}
use fan_master_thesis.Shm.Calls.Steps.{
  idle, waiting, Host, pulling, reading, serving, Call, System, IsCommand, Step, set, post, wait,
  read_results, wake, read_command, finish, start, Reach, here, next,
}
use fan_master_thesis.Shm.Calls.Invariant.{
  client_turn, host_turn, Holds, Serves, Inv, Keeps, Reach-Keeps,
}

-- Steps from `s` after which the client has received one result more, for its command.
abbrev pub Answered : System → List ℕ → Type 0
Answered s name =
    (t : System) × (response : ResponseBuffer) × Reach s t
    × (t.client ≡ idle)
    × (t.received ≡ (record { name = name; response = response }) ∷ s.received)

zero_or_suc : (n : ℕ) → (n ≡ 0) ⊎ ((m : ℕ) × (n ≡ suc m))
zero_or_suc zero = inl refl
zero_or_suc (suc m) = inr (m, refl)

before : {s t u : System} → Step s t → Reach t u → Reach s u
before st here = next here st
before st (next r last) = next (before st r) last

Answered-before :
    {s t : System} (name : List ℕ)
    → Step s t
    → s.received ≡ t.received
    → Answered t name
    → Answered s name
Answered-before name st same (u, response, r, back, got) =
    (u, response, before st r, back, rw same got)

module _ (b : CommandBuffer) (done got : List Call) (name : List ℕ) where
  abbrev at_host : Host → CommandBuffer → List Call → System
  at_host h buffer served = record {
    buffer = buffer;
    client = waiting name;
    host = h;
    served = served;
    received = got;
  }

  woken : (h : Host) (n : ℕ) → b.guest_trigger ≡ suc n → Answered (at_host h b done) name
  unfolding push_wait sem_wait
  woken h n one =
      let taken : push_wait b ≡ some (record b { guest_trigger = n }) = rw one in
      (_, b.response, next (next here (wait taken)) read_results, refl, refl)

module _ (b : CommandBuffer) (done got : List Call) (name : List ℕ) where
  finishing : Answered (at_host b done got name (serving name) b done) name
  unfolding impl_finish sem_post
  finishing =
      Answered-before name finish refl
        (woken (impl_finish b) _ got name pulling b.guest_trigger refl)

  pulled : pull_get b ≡ some name → Answered (at_host b done got name reading b done) name
  pulled e = Answered-before name (read_command e) refl finishing

module _ (b : CommandBuffer) (done got : List Call) (name : List ℕ) where
  posted :
      (n : ℕ)
      → b.host_trigger ≡ suc n
      → Text.get b.segment ≡ some name
      → Answered (at_host b done got name pulling b done) name
  unfolding pull_wait sem_wait pull_get
  posted n one found =
      let taken : pull_wait b ≡ some (record b { host_trigger = n }) = rw one in
      Answered-before name (wake taken) refl
        (pulled (record b { host_trigger = n }) done got name found)

  phase-Answered :
      (h : Host)
      → Inv b (waiting name) h done got
      → Answered (at_host b done got name h b done) name
  unfolding client_turn host_turn Holds Serves pull_get
  phase-Answered pulling inv = elim (zero_or_suc b.guest_trigger) [
    | inl none_yet ↦ posted 0 (omega (arith, inv.token)) inv.holds.0
    | inr (m, one) ↦ woken b done got name pulling m one
  ]
  phase-Answered reading inv = pulled b done got name inv.holds.0
  phase-Answered (serving x) inv =
      let same : x ≡ name = cc in
      subst (λ y. Answered (at_host b done got name (serving y) b done) name) (sym same)
        (finishing b done got name)

Keeps-Answered : (s : System) (name : List ℕ) → s.client ≡ waiting name → Keeps s → Answered s name
Keeps-Answered s name e inv =
    let at : System → System = λ x. record x { client = waiting name } in
    let same : at s ≡ s = ap (λ c. record s { client = c }) (sym e) in
    subst (λ x. Answered x name) same
      (phase-Answered s.buffer s.served s.received name s.host
        (subst (λ c. Inv s.buffer c s.host s.served s.received) e inv))

-- Where the semaphores were new, from every state in which the client waits in push for a command
-- there are steps after which push has returned and the client has received one result more, for
-- that command: the two sides never block each other.
pub waiting-Answered :
    (segment : List ℕ) (response : ResponseBuffer) (s : System) (name : List ℕ)
    → length segment ≡ Text.segment_size
    → Reach (start segment response none none) s
    → s.client ≡ waiting name
    → Answered s name
waiting-Answered segment response s name room r e =
    Keeps-Answered s name e (Reach-Keeps segment response room r)

-- A semaphore for the client that an earlier run has left above zero lets push return, and the
-- client receive the results that stand in the buffer, before the host has pulled anything.
pub stale-answered :
    (segment : List ℕ) (response : ResponseBuffer) (name : List ℕ) (n : ℕ)
    → length segment ≡ Text.segment_size
    → IsCommand name
    → (t : System) × Reach (start segment response none (some (suc n))) t
      × (t.host ≡ pulling)
      × (t.served ≡ [])
      × (t.received ≡ (record { name = name; response = response }) ∷ [])
unfolding start init sem_open push_post push_wait sem_wait
stale-answered segment response name n room ok =
    let b = init segment response none (some (suc n)) in
    let (mem, written, kept, found) = push_set-fits name b room ok.0 ok.1 in
    (
      _,
      next (next (next (next here (set name ok written)) post) (wait refl)) read_results,
      refl,
      refl,
      refl,
    )
