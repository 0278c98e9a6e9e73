-- ===== src/Examples/Shared.antt =====
-- A command `cu` through the command buffer, the arguments of a kernel, and a server with one guest.
use fan_master_thesis.Base.{
  ℕ, suc, ◌≡◌, ◌⊎◌, refl, none, some, List, [], ◌∷◌, arith, le_bytes, write_at, c_string,
}
use fan_master_thesis.Shm.Text
use fan_master_thesis.Shm.Buffer.{
  ResponseBuffer, CommandBuffer, init, sem_open, sem_post, sem_wait, push_set, push_post, pull_wait,
  pull_get, set_curesult, impl_finish,
}
use fan_master_thesis.Shm.Calls.Steps.{
  waiting, pulling, serving, System, IsCommand, Reach, here, next, start, set, post, wake,
  read_command, store_curesult, finish,
}
use fan_master_thesis.Shm.Calls.Agreement.{InFlight, received-served, serving-alone}
use fan_master_thesis.Shm.Calls.Progress.{Answered, waiting-Answered, stale-answered}
use fan_master_thesis.Examples.Setup.{bytes, bytes-size}

abbrev segment : List ℕ
segment = bytes 100

abbrev results : ResponseBuffer
results = record { scalar = 0; curesult = 0 }

abbrev command : List ℕ
command = 99 ∷ 117 ∷ []

command-IsCommand : IsCommand command
command-IsCommand = ((omega arith, (omega arith, tt)), omega arith)

-- The buffer with the command in it.
abbrev holding : ℕ → ℕ → ℕ → CommandBuffer
holding host guest code = record {
  segment = 3 ∷ 0 ∷ 0 ∷ 0 ∷ 99 ∷ 117 ∷ bytes 94;
  host_trigger = host;
  guest_trigger = guest;
  response = record { scalar = 0; curesult = code };
}

command_set : push_set command (init segment results none none) ≡ some (holding 0 0 0)
unfolding push_set Text.set Text.strncpy init sem_open write_at le_bytes
command_set = refl

command_get : (host guest code : ℕ) → pull_get (holding host guest code) ≡ some command
unfolding pull_get Text.get c_string
command_get host guest code = refl

-- The host has pulled the command and stored the code 2.
abbrev in_service : System
in_service = record {
  buffer = holding 0 0 2;
  client = waiting command;
  host = serving command;
  served = [];
  received = [];
}

in_service-Reach : Reach (start segment results none none) in_service
unfolding start push_post pull_wait sem_post sem_wait set_curesult
in_service-Reach =
    next
      (next (next (next (next here (set command command-IsCommand command_set)) post) (wake refl))
        (read_command (command_get 0 0 0)))
      (store_curesult 2)

-- The host has finished.
abbrev finished : System
finished = record {
  buffer = holding 0 1 2;
  client = waiting command;
  host = pulling;
  served = (record { name = command; response = record { scalar = 0; curesult = 2 } }) ∷ [];
  received = [];
}

finished-Reach : Reach (start segment results none none) finished
unfolding impl_finish sem_post
finished-Reach = next in_service-Reach finish

received-served_example :
    (finished.served ≡ finished.received)
    ⊎ InFlight finished.client finished.served finished.received
received-served_example = received-served segment results finished (bytes-size 100) finished-Reach

serving-alone_example :
    (in_service.client ≡ waiting command)
    × (pull_get in_service.buffer ≡ some command)
    × (in_service.buffer.host_trigger ≡ 0)
    × (in_service.buffer.guest_trigger ≡ 0)
serving-alone_example =
    serving-alone segment results in_service command (bytes-size 100) in_service-Reach refl

waiting-Answered_example : Answered in_service command
waiting-Answered_example =
    waiting-Answered segment results in_service command (bytes-size 100) in_service-Reach refl

stale-answered_example :
    (t : System) × Reach (start segment results none (some (suc 0))) t
    × (t.host ≡ pulling)
    × (t.served ≡ [])
    × (t.received ≡ (record { name = command; response = results }) ∷ [])
stale-answered_example = stale-answered segment results command 0 (bytes-size 100) command-IsCommand
