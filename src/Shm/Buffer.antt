-- ===== src/Shm/Buffer.antt =====
-- ResponseBuffer and CommandBuffer: a command's name, two semaphores and the results. Each function
-- is one step that the other side may come between; `none` stands for a call that blocks, or for a
-- copy past the segment.
use fan_master_thesis.Base.{
  ℕ, zero, suc, ◌≤◌, ◌≡◌, Option, none, some, List, length, ◌>>=◌, >>=-eq-some,
}
use fan_master_thesis.Shm.Text

-- ResponseBuffer: the struct Response.
pub record ResponseBuffer : Type 0 where
  pub scalar : ℕ
  pub curesult : ℕ

pub record CommandBuffer : Type 0 where
  pub segment : List ℕ
  pub host_trigger : ℕ
  pub guest_trigger : ℕ
  pub response : ResponseBuffer

-- sem_open(name, O_CREAT, 0644, 0): the count of a semaphore that exists already is kept.
unfoldable pub sem_open : Option ℕ → ℕ
sem_open none = 0
sem_open (some n) = n

unfoldable pub sem_post : ℕ → ℕ
sem_post n = suc n

-- A wait blocks at zero.
unfoldable pub sem_wait : ℕ → Option ℕ
sem_wait zero = none
sem_wait (suc n) = some n

-- CommandBuffer(): the segments as they are found, and the semaphores as they are found.
unfoldable pub init : List ℕ → ResponseBuffer → Option ℕ → Option ℕ → CommandBuffer
unfolding sem_open
init segment response host guest = record {
  segment = segment;
  host_trigger = sem_open host;
  guest_trigger = sem_open guest;
  response = response;
}

-- void push(const char*), its three steps: set(command_name)
unfoldable pub push_set : List ℕ → CommandBuffer → Option CommandBuffer
push_set name b = Text.set name b.segment >>= λ mem. some (record b { segment = mem })

-- sem_post(sem_host_trigger_)
unfoldable pub push_post : CommandBuffer → CommandBuffer
unfolding sem_post
push_post b = record b { host_trigger = sem_post b.host_trigger }

-- sem_wait(sem_guest_trigger_)
unfoldable pub push_wait : CommandBuffer → Option CommandBuffer
unfolding sem_wait
push_wait b = sem_wait b.guest_trigger >>= λ n. some (record b { guest_trigger = n })

-- std::string pull(), its two steps: sem_wait(sem_host_trigger_)
unfoldable pub pull_wait : CommandBuffer → Option CommandBuffer
unfolding sem_wait
pull_wait b = sem_wait b.host_trigger >>= λ n. some (record b { host_trigger = n })

-- get()
unfoldable pub pull_get : CommandBuffer → Option (List ℕ)
pull_get b = Text.get b.segment

unfoldable pub set_scalar_result : ℕ → CommandBuffer → CommandBuffer
set_scalar_result v b = record b { response = record b.response { scalar = v } }

unfoldable pub set_curesult : ℕ → CommandBuffer → CommandBuffer
set_curesult v b = record b { response = record b.response { curesult = v } }

-- void impl_finish()
unfoldable pub impl_finish : CommandBuffer → CommandBuffer
unfolding sem_post
impl_finish b = record b { guest_trigger = sem_post b.guest_trigger }

-- A wait that returns has taken one from the count.
sem_wait-some : (m : ℕ) {n : ℕ} → sem_wait m ≡ some n → m ≡ suc n
unfolding sem_wait
sem_wait-some zero e = absurd (cc)
sem_wait-some (suc m) e = cc

pub push_wait-some :
    (b : CommandBuffer) {b' : CommandBuffer}
    → push_wait b ≡ some b'
    → (n : ℕ) × (b.guest_trigger ≡ suc n) × (b' ≡ record b { guest_trigger = n })
unfolding push_wait
push_wait-some b e =
    let (n, waited, same) = >>=-eq-some (sem_wait b.guest_trigger) _ e in
    (n, sem_wait-some b.guest_trigger waited, cc)

pub pull_wait-some :
    (b : CommandBuffer) {b' : CommandBuffer}
    → pull_wait b ≡ some b'
    → (n : ℕ) × (b.host_trigger ≡ suc n) × (b' ≡ record b { host_trigger = n })
unfolding pull_wait
pull_wait-some b e =
    let (n, waited, same) = >>=-eq-some (sem_wait b.host_trigger) _ e in
    (n, sem_wait-some b.host_trigger waited, cc)

-- A name that fits is what the other side then gets.
pub push_set-fits :
    (name : List ℕ) (b : CommandBuffer)
    → length b.segment ≡ Text.segment_size
    → Text.IsText name
    → length name ≤ 95
    → (mem : List ℕ) × (push_set name b ≡ some (record b { segment = mem }))
      × (length mem ≡ Text.segment_size)
      × (Text.get mem ≡ some name)
unfolding push_set
push_set-fits name b room chars few =
    let (mem, written, kept, found) = Text.get-set name b.segment room chars few in
    (mem, rw written, kept, found)
