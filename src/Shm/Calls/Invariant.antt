-- ===== src/Shm/Calls/Invariant.antt =====
-- The invariant of the protocol, kept by every step.
use fan_master_thesis.Base.{
  ℕ, zero, suc, ◌+◌, ◌≡◌, refl, sym, ap, subst, none, some, List, ◌∷◌, length, arith,
}
use fan_master_thesis.Shm.Text
use fan_master_thesis.Shm.Buffer.{
  ResponseBuffer, CommandBuffer, init, push_set, push_post, push_wait, pull_wait, pull_get,
  set_scalar_result, set_curesult, impl_finish, push_wait-some, pull_wait-some, push_set-fits,
  sem_post, sem_open,
}
use fan_master_thesis.Shm.Calls.Steps.{
  Client, idle, posting, waiting, returned, Host, pulling, reading, serving, Call, System,
  IsCommand, Step, set, post, wait, read_results, wake, read_command, store_scalar, store_curesult,
  finish, start, Reach, here, next,
}

-- Whether the turn is the client's, or the host's.
unfoldable pub client_turn : Client → ℕ
client_turn idle = 1
client_turn (posting name) = 1
client_turn (waiting name) = 0
client_turn (returned name) = 1

unfoldable pub host_turn : Host → ℕ
host_turn pulling = 0
host_turn reading = 1
host_turn (serving name) = 1

-- The command's name stands in the segment from set to the end of push.
unfoldable pub Holds : Client → List ℕ → Type 0
Holds idle mem = Unit
Holds (posting name) mem = (Text.get mem ≡ some name) × IsCommand name
Holds (waiting name) mem = (Text.get mem ≡ some name) × IsCommand name
Holds (returned name) mem = Unit

unfoldable pub Serves : Host → Client → Type 0
Serves pulling c = Unit
Serves reading c = Unit
Serves (serving name) c = c ≡ waiting name

-- The calls that are finished and not yet received.
unfoldable pub Pending : Client → ℕ → List Call → List Call → ResponseBuffer → Type 0
Pending idle n done got response = done ≡ got
Pending (posting name) n done got response = done ≡ got
Pending (waiting name) zero done got response = done ≡ got
Pending (waiting name) (suc n) done got response =
    done ≡ (record { name = name; response = response }) ∷ got
Pending (returned name) n done got response =
    done ≡ (record { name = name; response = response }) ∷ got

pub record Inv (b : CommandBuffer) (c : Client) (h : Host) (done got : List Call) : Type 0 where
  pub token : client_turn c + (b.host_trigger + (host_turn h + b.guest_trigger)) ≡ 1
  pub room : length b.segment ≡ Text.segment_size
  pub holds : Holds c b.segment
  pub serves : Serves h c
  pub pending : Pending c b.guest_trigger done got b.response

abbrev pub Keeps : System → Type 0
Keeps s = Inv s.buffer s.client s.host s.served s.received

-- Without the turn, the host is in no call.
Serves-pulling : (h : Host) (c : Client) → host_turn h ≡ 0 → Serves h c
unfolding host_turn Serves
Serves-pulling pulling c e = tt
Serves-pulling reading c e = absurd (omega arith)
Serves-pulling (serving name) c e = absurd (omega arith)

Pending-none :
    (name : List ℕ) (n : ℕ) (done got : List Call) (response : ResponseBuffer)
    → n ≡ 0
    → done ≡ got
    → Pending (waiting name) n done got response
unfolding Pending
Pending-none name zero done got response z e = e
Pending-none name (suc n) done got response z e = absurd (omega arith)

-- While the client waits unanswered, the results are the host's to change, and to finish with.
module _ (c : Client) (name : List ℕ) (n : ℕ) (done got : List Call) (response : ResponseBuffer)
    (same : c ≡ waiting name) (unanswered : n ≡ 0) (p : Pending c n done got response) where
  Pending-equal : done ≡ got
  unfolding Pending
  Pending-equal =
      subst (λ m. Pending (waiting name) m done got response) unanswered
        (subst (λ d. Pending d n done got response) same p)

  Pending-stored : (response' : ResponseBuffer) → Pending c n done got response'
  Pending-stored response' =
      subst (λ d. Pending d n done got response') (sym same)
        (Pending-none name n done got response' unanswered Pending-equal)

  Pending-finished :
      Pending c (suc n) ((record { name = name; response = response }) ∷ done) got response
  unfolding Pending
  Pending-finished =
      subst
        (λ d. Pending d (suc n) ((record { name = name; response = response }) ∷ done) got response)
        (sym same) (ap (λ l. (record { name = name; response = response }) ∷ l) Pending-equal)

-- Whoever the host has read the command of is waiting.
read-waiting :
    (c : Client) (mem name : List ℕ)
    → client_turn c ≡ 0
    → Holds c mem
    → Text.get mem ≡ some name
    → c ≡ waiting name
unfolding client_turn Holds
read-waiting idle mem name z h e = absurd (omega arith)
read-waiting (posting x) mem name z h e = absurd (omega arith)
read-waiting (waiting x) mem name z h e = cc
read-waiting (returned x) mem name z h e = absurd (omega arith)

module _ (b : CommandBuffer) (h : Host) (done got : List Call) where
  set-Inv :
      (name : List ℕ) {b' : CommandBuffer}
      → IsCommand name
      → push_set name b ≡ some b'
      → Inv b idle h done got
      → Inv b' (posting name) h done got
  unfolding client_turn Holds Pending
  set-Inv name {b'} ok e inv =
      let (mem, written, kept, found) = push_set-fits name b inv.room ok.0 ok.1 in
      let same : record b { segment = mem } ≡ b' = cc in
      subst (λ x. Inv x (posting name) h done got) same
        (record {
          token = inv.token;
          room = kept;
          holds = (found, ok);
          serves = Serves-pulling h (posting name) (omega (arith, inv.token));
          pending = inv.pending;
        })

  wait-Inv :
      (name : List ℕ) {b' : CommandBuffer}
      → push_wait b ≡ some b'
      → Inv b (waiting name) h done got
      → Inv b' (returned name) h done got
  unfolding client_turn Holds Pending
  wait-Inv name e inv =
      let (n, one, same) = push_wait-some b e in
      subst (λ x. Inv x (returned name) h done got) (sym same)
        (record {
          token = omega (arith, inv.token);
          room = inv.room;
          holds = tt;
          serves = Serves-pulling h (returned name) (omega (arith, inv.token));
          pending = subst (λ m. Pending (waiting name) m done got b.response) one inv.pending;
        })

module _ (b : CommandBuffer) (c : Client) (done got : List Call) where
  wake-Inv :
      {b' : CommandBuffer}
      → pull_wait b ≡ some b'
      → Inv b c pulling done got
      → Inv b' c reading done got
  unfolding host_turn Serves
  wake-Inv e inv =
      let (n, one, same) = pull_wait-some b e in
      subst (λ x. Inv x c reading done got) (sym same)
        (record {
          token = omega (arith, inv.token);
          room = inv.room;
          holds = inv.holds;
          serves = tt;
          pending = inv.pending;
        })

  store-Inv :
      (name : List ℕ) (response : ResponseBuffer)
      → Inv b c (serving name) done got
      → Inv (record b { response = response }) c (serving name) done got
  unfolding host_turn Serves
  store-Inv name response inv = record {
    token = inv.token;
    room = inv.room;
    holds = inv.holds;
    serves = inv.serves;
    pending =
        Pending-stored c name b.guest_trigger done got b.response inv.serves
          (omega (arith, inv.token)) inv.pending response;
  }

Step-Keeps : {s t : System} → Step s t → Keeps s → Keeps t
unfolding client_turn host_turn Holds Serves Pending push_post pull_get impl_finish
    set_scalar_result set_curesult sem_post
Step-Keeps (set {b} {b'} {h} {done} {got} name ok e) inv = set-Inv b h done got name ok e inv
Step-Keeps (post {b} {h} {done} {got} {name}) inv = record {
  token = omega (arith, inv.token);
  room = inv.room;
  holds = inv.holds;
  serves = Serves-pulling h (waiting name) (omega (arith, inv.token));
  pending =
      Pending-none name b.guest_trigger done got b.response (omega (arith, inv.token)) inv.pending;
}
Step-Keeps (wait {b} {b'} {h} {done} {got} {name} e) inv = wait-Inv b h done got name e inv
Step-Keeps (read_results {h = h}) inv = record {
  token = inv.token;
  room = inv.room;
  holds = tt;
  serves = Serves-pulling h idle (omega (arith, inv.token));
  pending = inv.pending;
}
Step-Keeps (wake {b} {b'} {c} {done} {got} e) inv = wake-Inv b c done got e inv
Step-Keeps (read_command {b} {c} {name = name} e) inv = record {
  token = inv.token;
  room = inv.room;
  holds = inv.holds;
  serves = read-waiting c b.segment name (omega (arith, inv.token)) inv.holds e;
  pending = inv.pending;
}
Step-Keeps (store_scalar {b} {c} {done} {got} {name} v) inv = store-Inv b c done got name _ inv
Step-Keeps (store_curesult {b} {c} {done} {got} {name} v) inv = store-Inv b c done got name _ inv
Step-Keeps (finish {b} {c} {done} {got} {name}) inv = record {
  token = omega (arith, inv.token);
  room = inv.room;
  holds = inv.holds;
  serves = tt;
  pending =
      Pending-finished c name b.guest_trigger done got b.response inv.serves
        (omega (arith, inv.token)) inv.pending;
}

start-Keeps :
    (segment : List ℕ) (response : ResponseBuffer)
    → length segment ≡ Text.segment_size
    → Keeps (start segment response none none)
unfolding start init sem_open client_turn host_turn Holds Serves Pending
start-Keeps segment response room = record {
  token = refl;
  room = room;
  holds = tt;
  serves = tt;
  pending = refl;
}

pub Reach-Keeps :
    (segment : List ℕ) (response : ResponseBuffer) {s : System}
    → length segment ≡ Text.segment_size
    → Reach (start segment response none none) s
    → Keeps s
Reach-Keeps segment response room here = start-Keeps segment response room
Reach-Keeps segment response room (next r st) = Step-Keeps st (Reach-Keeps segment response room r)
