-- ===== src/SndBuffer/Tests.antt =====
-- Runs of the send buffer on concrete messages, which show that the hypotheses of its theorems hold.
use udt_patch_for_epoll.Prelude.{ℕ, ◌≡◌, refl, true, false, none, some, List, [], ◌∷◌, ◌++◌, arith}
use udt_patch_for_epoll.RcvBuffer.{RcvBuffer, done, new_buffer, read_msg}
use udt_patch_for_epoll.SndBuffer.{
  Block, SndBuffer, new_snd_buffer, packet_of, add_buffer, expired, packet, pass_expired,
  read_data_at,
}
use udt_patch_for_epoll.SndBuffer.Chunks.{segment}
use udt_patch_for_epoll.SndBuffer.Growing.{IsQueue}
use udt_patch_for_epoll.SndBuffer.Adding.{add_buffer-IsQueue}
use udt_patch_for_epoll.SndBuffer.Refines.{
  Op, send, next, ack, run, spec_run, new_sender, Refines, run_sends_in_order,
}
use udt_patch_for_epoll.SndBuffer.Delivery.{deliver}
use udt_patch_for_epoll.SndBuffer.RoundTrip.{send_and_read, message_arrives}

-- Memory that was not written.
abbrev memory : Block
memory = record { payload = []; msg_no = 5; origin_time = 0; ttl = none }

abbrev five : List ℕ
five = 1 ∷ 2 ∷ 3 ∷ 4 ∷ 5 ∷ []

abbrev fresh : SndBuffer
fresh = new_snd_buffer 2 2 memory

fresh-IsQueue : IsQueue fresh []
unfolding new_snd_buffer
fresh-IsQueue = record {
  free = record memory { msg_no = 0 } ∷ memory ∷ [];
  split = refl;
  room = omega arith;
  count = refl;
  last = refl;
  size = refl;
  sent = omega arith;
  unit_size = omega arith;
}

-- Three packets in a buffer of two, which grows.
add_buffer-IsQueue_example :
    (b1 : SndBuffer) × (add_buffer fresh five none true 9 memory ≡ done b1)
    × IsQueue b1 ([] ++ segment (packet_of 2 1 five none true 9) 0 3)
    × (b1.curr ≡ 0)
    × (b1.mss ≡ 2)
    × (b1.next_msg_no ≡ 2)
unfolding new_snd_buffer
add_buffer-IsQueue_example = add_buffer-IsQueue fresh [] five none true 9 memory fresh-IsQueue

abbrev calls : List Op
calls = send five none false 0 ∷ next ∷ ack 1 ∷ next ∷ next ∷ next ∷ []

run_sends_in_order_example :
    (b1 : SndBuffer) × (run fresh memory calls
      ≡ done (segment (packet_of 2 1 five none false 0) 0 3, b1))
    × Refines b1 (spec_run (new_sender 2) calls).1
run_sends_in_order_example =
    run_sends_in_order 2 2 memory calls (omega arith)
      (tt, (tt, (omega arith, (tt, (tt, (tt, tt))))))

message_arrives_example :
    (packets : List Block) × (b1 : SndBuffer) × (b2 : RcvBuffer) × (run
        (new_snd_buffer 2 2 memory)
        memory
        (send_and_read 2 five none false 0)
      ≡ done (packets, b1))
    × (read_msg (deliver (new_buffer 4 0) packets) 10 ≡ done (five, b2))
message_arrives_example =
    message_arrives 2 2 4 0 10 five none false 0 memory (omega arith) (omega arith) (omega arith)
      (omega arith) (omega arith)

abbrev dying : Block
dying = record { payload = five; msg_no = 5; origin_time = 0; ttl = some 1 }

-- The last block of a new buffer has whatever number its memory holds: a message of one packet, in
-- the block before it, that expires under that number counts two packets, and `m_pCurrBlock` passes
-- `m_pLastBlock`.
abbrev one_packet : SndBuffer
one_packet = record {
  blocks = dying ∷ memory ∷ record memory { msg_no = 4 } ∷ [];
  curr = 1;
  last = 1;
  next_msg_no = 6;
  size = 3;
  mss = 10;
  count = 1;
  unit_size = 3;
}

counted_twice :
    read_data_at 5 one_packet 0 9000 ≡ done (expired 5 2, record one_packet { curr = 2 })
unfolding read_data_at pass_expired
counted_twice = refl

-- With time left the packet is sent again.
sent_again : read_data_at 5 one_packet 0 900 ≡ done (packet dying, one_packet)
unfolding read_data_at pass_expired
sent_again = refl
