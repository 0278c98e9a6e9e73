-- ===== src/Examples/Replies.antt =====
-- Response of interception/stream.h at the reply to a call with a text and a number as results.
use fan_master_thesis.Base.{
  ℕ, ◌+◌, ◌≤◌, ◌≡◌, refl, some, List, [], ◌∷◌, length, replicate, length-replicate, arith,
}
use fan_master_thesis.Stream.Response.{
  Response, Operand, handle, chars, opaque, ptr, plain, Target, handle_target, chars_target,
  opaque_target, ptr_target, plain_target, msize, result_size, put_all, get_all, reset,
}
use fan_master_thesis.Stream.Response.Room.{put_all-Moves, footprints}
use fan_master_thesis.Stream.Response.RoundTrip.{effects, get_all-put_all_reply}

abbrev zeros : List ℕ
zeros = replicate msize 0

zeros-size : length zeros ≡ msize
zeros-size = length-replicate {A = ℕ} msize 0

abbrev server : Response
server = record { mdata = zeros; at = result_size }

abbrev client : Response
client = record { mdata = replicate msize 1; at = 77 }

abbrev results : List Operand
results = chars (71 ∷ 80 ∷ 85 ∷ []) ∷ opaque ∷ handle 5 ∷ ptr 4 46 ∷ plain 4 3 ∷ []

abbrev targets : List Target
targets = chars_target 16 ∷ opaque_target ∷ handle_target ∷ ptr_target 4 ∷ plain_target 4 ∷ []

room : server.at + footprints results ≤ length server.mdata
room = omega (arith, zeros-size)

abbrev replied : Response
replied = (put_all-Moves results server room).0

sent : put_all results (reset server) ≡ some replied
unfolding reset
sent = (put_all-Moves results server room).1

get_all-put_all_reply_example :
    get_all targets (reset (record client { mdata = replied.mdata }))
    ≡ some (effects results, replied)
get_all-put_all_reply_example =
    get_all-put_all_reply results targets server replied client (zeros-size) sent
      (omega arith, (tt, (tt, ((refl, omega arith), (refl, tt)))))
