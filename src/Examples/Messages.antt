-- ===== src/Examples/Messages.antt =====
-- Serializer and Deserializer of interception/stream.h at a call of cuDeviceGet.
use fan_master_thesis.Base.{
  ℕ, ◌+◌, ◌<◌, ◌≤◌, ◌≡◌, refl, ap, length-append, le_bytes, some, none, List, [], ◌∷◌, ◌++◌, length,
  replicate, length-replicate, arith, write_at-fits, splice,
}
use fan_master_thesis.Stream.Items.{Item, raw, text, words, encode_all, kinds}
use fan_master_thesis.Stream.Serializer.{Serializer, IsSerializer, buffer_size, put_all, message}
use fan_master_thesis.Stream.Serializer.Message.{put_all-message, put_all-overflow}
use fan_master_thesis.Stream.Deserializer.{Deserializer, Got, get_all, view_all, clean}
use fan_master_thesis.Stream.RoundTrip.{get_all-put_all}

-- The name "cu", a device pointer, a device, and two kernel arguments.
abbrev call : List Item
call = text (99 ∷ 117 ∷ []) ∷ raw 8 4096 ∷ raw 4 1 ∷ words (7 ∷ 8 ∷ []) ∷ []

abbrev zeros : List ℕ
zeros = replicate buffer_size 0

zeros-size : length zeros ≡ buffer_size
zeros-size = length-replicate {A = ℕ} buffer_size 0

abbrev empty : Serializer
empty = record { mdata = zeros; mcount = 0 }

abbrev full : Serializer
full = record { mdata = zeros; mcount = buffer_size }

empty-IsSerializer : IsSerializer empty
empty-IsSerializer = record { sized = zeros-size; within = omega arith }

full-IsSerializer : IsSerializer full
full-IsSerializer = record { sized = zeros-size; within = omega arith }

call_fits : 0 + length (encode_all call) ≤ buffer_size
unfolding encode_all le_bytes
call_fits = omega arith

abbrev sent : Serializer
sent = (put_all-message call empty empty-IsSerializer call_fits).0

put_all-message_example :
    (t : Serializer) × (put_all call empty ≡ some t)
    × (message t ≡ message empty ++ encode_all call)
    × IsSerializer t
put_all-message_example = put_all-message call empty empty-IsSerializer call_fits

call_overflows : buffer_size < buffer_size + length (encode_all call)
unfolding encode_all le_bytes
call_overflows = omega arith

put_all-overflow_example : put_all call full ≡ none
put_all-overflow_example = put_all-overflow call full full-IsSerializer call_overflows

abbrev receiver : Deserializer
receiver = record { mdata = zeros; mcount = 5 }

empty_message : length (message empty) ≡ 0
unfolding message
empty_message = refl

received_fits : 0 + length (message sent) ≤ length receiver.mdata
received_fits =
    let same = ap (λ l. length l) (put_all-message call empty empty-IsSerializer call_fits).2 in
    omega (
      arith,
      zeros-size,
      same,
      length-append (message empty) (encode_all call),
      empty_message,
      call_fits,
    )

abbrev received : List ℕ
received = splice receiver.mdata 0 (message sent)

get_all-put_all_example :
    (gs : List Got) × (get_all (kinds call) (clean (record receiver { mdata = received }))
      ≡ some (gs, record { mdata = received; mcount = length (message sent) }))
    × (view_all received (kinds call) gs ≡ some call)
get_all-put_all_example =
    get_all-put_all call empty sent receiver received empty-IsSerializer refl
      (
        (omega arith, (omega arith, tt)),
        (omega arith, (omega arith, (((omega arith, (omega arith, tt)), omega arith), tt))),
      )
      (put_all-message call empty empty-IsSerializer call_fits).1 (zeros-size)
      (write_at-fits receiver.mdata (message sent) 0 received_fits)
