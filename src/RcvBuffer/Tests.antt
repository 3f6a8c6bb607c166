-- ===== src/RcvBuffer/Tests.antt =====
-- Runs of the receive buffer on concrete rings, which show that the hypotheses of its theorems hold.
use udt_patch_for_epoll.Prelude.{
  ℕ, ◌+◌, ◌*◌, ◌^◌, ◌≤◌, ◌<◌, ◌≡◌, refl, none, some, [], ◌∷◌, ◌==◌, if◌then◌else◌, length, arith,
}
use udt_patch_for_epoll.SendMsgBuf.{Bytes}
use udt_patch_for_epoll.RcvBuffer.{
  RcvUnit, RcvBuffer, done, new_buffer, msg_boundary, rcv_data_size, avail_buf_size, add_data,
  ack_data, read_buffer, dropped, look_ahead, whole_msg, skip_bad, visit, find_msg, scan_msg,
  read_msg_units, read_msg, rcv_msg_num, msg_order_flag,
}
use udt_patch_for_epoll.RcvBuffer.Skip.{InRing}
use udt_patch_for_epoll.RcvBuffer.Safe.{SameShape, read_msg_returns}
use udt_patch_for_epoll.RcvBuffer.Message.{released}
use udt_patch_for_epoll.RcvBuffer.Whole.{read_msg-message}
use udt_patch_for_epoll.RcvBuffer.Pending.{IsStream, pending, Left}
use udt_patch_for_epoll.RcvBuffer.Stream.{read_buffer-Left}
use udt_patch_for_epoll.RcvBuffer.Acked.{ack_data-IsStream}
use udt_patch_for_epoll.RcvBuffer.Reach.{
  Step, packet_arrives, acknowledged, constructed, stepped, IsValid, Reached-IsValid,
}

abbrev packet : ℕ → ℕ → Bytes → RcvUnit
packet boundary number bytes = record {
  payload = bytes;
  msg_no = boundary * 2 ^ 30 + number;
  flag = 1;
}

abbrev first : RcvUnit
first = packet 2 7 (1 ∷ 2 ∷ [])

abbrev middle : RcvUnit
middle = packet 0 7 (3 ∷ [])

abbrev last : RcvUnit
last = packet 1 7 (4 ∷ [])

-- A message of two packets over the end of the array, with a packet after it not yet acknowledged.
abbrev two_packets : RcvBuffer
two_packets = record {
  units = λ i.
      if i == 3
      then some first
      else if i == 0
      then some last
      else if i == 1
      then some middle
      else none;
  size = 4;
  start_pos = 3;
  last_ack_pos = 1;
  max_pos = 0;
  notch = 0;
  unit_count = 3;
}

two_packets-InRing : InRing two_packets
two_packets-InRing = record { start = omega arith; last_ack = omega arith }

read_msg_returns_example :
    (bytes : Bytes) × (b1 : RcvBuffer) × (read_msg two_packets 10 ≡ done (bytes, b1))
    × (length bytes ≤ 10)
    × SameShape two_packets b1
read_msg_returns_example = read_msg_returns two_packets 10 two_packets-InRing

abbrev after_two : RcvBuffer
after_two = record (released two_packets 3 (first ∷ last ∷ [])) { start_pos = 1 }

read_msg-message_example : read_msg two_packets 3 ≡ done (1 ∷ 2 ∷ 4 ∷ [], after_two)
unfolding msg_boundary rcv_data_size
read_msg-message_example =
    read_msg-message two_packets first (last ∷ []) 3 two_packets-InRing (refl, (refl, tt))
      (refl, refl, (refl, refl)) (omega arith)

-- The same packets as a stream, of which a byte was read.
abbrev two_pending : RcvBuffer
two_pending = record two_packets { notch = 1 }

two_pending-IsStream : IsStream two_pending (first ∷ last ∷ [])
two_pending-IsStream = record {
  in_ring = record { start = omega arith; last_ack = omega arith };
  holds = (refl, (refl, tt));
  count = refl;
  notch_in = omega arith;
}

read_buffer-Left_example :
    (b1 : RcvBuffer) × (read_buffer two_pending 5 ≡ done (2 ∷ 4 ∷ [], 3, b1))
    × Left two_pending b1 (2 ∷ 4 ∷ []) 5
read_buffer-Left_example = read_buffer-Left two_pending 5 (first ∷ last ∷ []) two_pending-IsStream

ack_data-IsStream_example :
    IsStream (ack_data two_pending 1) (first ∷ last ∷ middle ∷ [])
    × (pending (ack_data two_pending 1) (first ∷ last ∷ middle ∷ []) ≡ 2 ∷ 4 ∷ 3 ∷ [])
unfolding rcv_data_size
ack_data-IsStream_example =
    ack_data-IsStream two_pending (first ∷ last ∷ []) (middle ∷ []) two_pending-IsStream (refl, tt)
      (omega arith)

-- A new buffer of four slots that received a packet out of order, then the one before it.
abbrev fresh : RcvBuffer
fresh = new_buffer 4 0

abbrev late : RcvBuffer
late = (add_data fresh last 1).1

fits_in_fresh : 1 < avail_buf_size fresh
unfolding avail_buf_size rcv_data_size new_buffer
fits_in_fresh = omega arith

late-Step : Step (fresh, 0) (late, 2)
unfolding add_data new_buffer
late-Step = packet_arrives fresh 0 last 1 fits_in_fresh

Reached-IsValid_example : IsValid (ack_data late 2) 0
Reached-IsValid_example =
    Reached-IsValid 4 0 (ack_data late 2, 0) (omega arith)
      (stepped (late, 2) (ack_data late 2, 0) (stepped (fresh, 0) (late, 2) constructed late-Step)
        (acknowledged late 2 2 (omega arith)))

-- Three packets of a message that does not fit in the ring of four: the last one is not yet acknowledged.
abbrev too_long : RcvBuffer
too_long = record {
  units = λ i.
      if i == 0
      then some first
      else if i == 1
      then some middle
      else if i == 2
      then some middle
      else none;
  size = 4;
  start_pos = 0;
  last_ack_pos = 2;
  max_pos = 0;
  notch = 0;
  unit_count = 3;
}

-- A part of the message is reported, but none is read.
reported_part : rcv_msg_num too_long ≡ done (1, too_long)
unfolding rcv_msg_num scan_msg skip_bad whole_msg look_ahead find_msg visit rcv_data_size
    msg_boundary msg_order_flag
reported_part = refl

nothing_read : read_msg too_long 10 ≡ done ([], too_long)
unfolding read_msg read_msg_units scan_msg skip_bad whole_msg look_ahead find_msg visit
    rcv_data_size msg_boundary msg_order_flag
nothing_read = refl

-- `dropMsg` compares the number with the whole word, so the first packet of the message stays.
first_kept : dropped 7 (some first) ≡ some first
first_kept = refl

middle-dropped : dropped 7 (some middle) ≡ some (record middle { flag = 3 })
middle-dropped = refl
