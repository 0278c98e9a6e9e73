-- ===== src/Examples/Sockets.antt =====
-- VsockHandle of interception/stream.h over a kernel that moves two bytes at a time.
use fan_master_thesis.Base.{ℕ, List, [], ◌∷◌, leb, if◌then◌else◌, arith}
use fan_master_thesis.Vsock.{moved, Kernel, IsHonest, transmit, receive}
use fan_master_thesis.Vsock.Delivery.{Delivers, Fills, transmit-Delivers, receive-Fills}

unfoldable two_at_a_time : Kernel
two_at_a_time i n = if leb 2 n then moved 2 else moved n

abbrev bytes : List ℕ
bytes = 1 ∷ 2 ∷ 3 ∷ 4 ∷ 5 ∷ []

transmit-Delivers_example : Delivers bytes (transmit two_at_a_time bytes)
transmit-Delivers_example = transmit-Delivers two_at_a_time bytes

two_at_a_time-IsHonest : IsHonest two_at_a_time
unfolding two_at_a_time
two_at_a_time-IsHonest i n m e = ground arith

receive-Fills_example : Fills bytes 3 (receive two_at_a_time bytes 3)
receive-Fills_example = receive-Fills two_at_a_time bytes 3 two_at_a_time-IsHonest
