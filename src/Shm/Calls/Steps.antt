-- ===== src/Shm/Calls/Steps.antt =====
-- The two sides of a CommandBuffer as a step relation on the buffer and their places.
use fan_master_thesis.Base.{ℕ, ◌≤◌, ◌≡◌, Option, some, List, [], ◌∷◌, length}
use fan_master_thesis.Shm.Text
use fan_master_thesis.Shm.Buffer.{
  ResponseBuffer, CommandBuffer, init, push_set, push_post, push_wait, pull_wait, pull_get,
  set_scalar_result, set_curesult, impl_finish,
}

-- Where the client is: before push, in it behind set, in it behind sem_post, behind push.
pub data Client : Type 0 where
  idle : Client
  posting : List ℕ → Client
  waiting : List ℕ → Client
  returned : List ℕ → Client

-- Where the host is: in pull before sem_wait, in pull behind it, behind pull.
pub data Host : Type 0 where
  pulling : Host
  reading : Host
  serving : List ℕ → Host

-- A call: its command, and the results.
pub record Call : Type 0 where
  pub name : List ℕ
  pub response : ResponseBuffer

-- `served` are the calls that the host has finished, with the results that it had stored, and
-- `received` those whose results the client has read, the last one first.
pub record System : Type 0 where
  pub buffer : CommandBuffer
  pub client : Client
  pub host : Host
  pub served : List Call
  pub received : List Call

abbrev pub IsCommand : List ℕ → Type 0
IsCommand name = Text.IsText name × (length name ≤ 95)

-- One step of either side.
pub data Step : System → System → Type 0 where
  set :
      {b b' : CommandBuffer} {h : Host} {done got : List Call}
      → (name : List ℕ) → IsCommand name
      → push_set name b ≡ some b'
      → Step
          (record { buffer = b; client = idle; host = h; served = done; received = got })
          (record { buffer = b'; client = posting name; host = h; served = done; received = got })
  post :
      {b : CommandBuffer} {h : Host} {done got : List Call} {name : List ℕ}
      → Step
          (record { buffer = b; client = posting name; host = h; served = done; received = got })
          (record {
            buffer = push_post b;
            client = waiting name;
            host = h;
            served = done;
            received = got;
          })
  wait :
      {b b' : CommandBuffer} {h : Host} {done got : List Call} {name : List ℕ}
      → push_wait b ≡ some b'
      → Step
          (record { buffer = b; client = waiting name; host = h; served = done; received = got })
          (record { buffer = b'; client = returned name; host = h; served = done; received = got })
  read_results :
      {b : CommandBuffer} {h : Host} {done got : List Call} {name : List ℕ}
      → Step
          (record { buffer = b; client = returned name; host = h; served = done; received = got })
          (record {
            buffer = b;
            client = idle;
            host = h;
            served = done;
            received = (record { name = name; response = b.response }) ∷ got;
          })
  wake :
      {b b' : CommandBuffer} {c : Client} {done got : List Call}
      → pull_wait b ≡ some b'
      → Step
          (record { buffer = b; client = c; host = pulling; served = done; received = got })
          (record { buffer = b'; client = c; host = reading; served = done; received = got })
  read_command :
      {b : CommandBuffer} {c : Client} {done got : List Call} {name : List ℕ}
      → pull_get b ≡ some name
      → Step
          (record { buffer = b; client = c; host = reading; served = done; received = got })
          (record { buffer = b; client = c; host = serving name; served = done; received = got })
  store_scalar :
      {b : CommandBuffer} {c : Client} {done got : List Call} {name : List ℕ}
      → (v : ℕ)
      → Step
          (record { buffer = b; client = c; host = serving name; served = done; received = got })
          (record {
            buffer = set_scalar_result v b;
            client = c;
            host = serving name;
            served = done;
            received = got;
          })
  store_curesult :
      {b : CommandBuffer} {c : Client} {done got : List Call} {name : List ℕ}
      → (v : ℕ)
      → Step
          (record { buffer = b; client = c; host = serving name; served = done; received = got })
          (record {
            buffer = set_curesult v b;
            client = c;
            host = serving name;
            served = done;
            received = got;
          })
  finish :
      {b : CommandBuffer} {c : Client} {done got : List Call} {name : List ℕ}
      → Step
          (record { buffer = b; client = c; host = serving name; served = done; received = got })
          (record {
            buffer = impl_finish b;
            client = c;
            host = pulling;
            served = (record { name = name; response = b.response }) ∷ done;
            received = got;
          })

-- Both sides have opened the buffer, with the counts that the semaphores then have.
unfoldable pub start : List ℕ → ResponseBuffer → Option ℕ → Option ℕ → System
unfolding init
start segment response host guest = record {
  buffer = init segment response host guest;
  client = idle;
  host = pulling;
  served = [];
  received = [];
}

pub data Reach (s : System) : System → Type 0 where
  here : Reach s s
  next : {t u : System} → Reach s t → Step t u → Reach s u
