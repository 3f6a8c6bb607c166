-- ===== src/SndBuffer/RoundTrip.antt =====
-- udt4/src/buffer.cpp: a message through the send buffer and the receive buffer.
use mathlib.Core.Path.{subst}
use native.Mathlib.Nat.{zero-mul}
use udt_patch_for_epoll.Prelude.{
  ℕ, zero, suc, ◌-◌, ◌*◌, ◌<◌, ◌≤◌, ◌≡◌, refl, ap, ◌∙◌, Bool, Option, List, [], ◌∷◌, ◌++◌, map,
  arith, length, take,
}
use udt_patch_for_epoll.SendMsgBuf.{Bytes}
use udt_patch_for_epoll.RcvBuffer.{RcvBuffer, done, new_buffer, rcv_data_size, read_msg}
use udt_patch_for_epoll.RcvBuffer.Positions.{dist_self}
use udt_patch_for_epoll.RcvBuffer.Message.{IsMessage, released, pos_after}
use udt_patch_for_epoll.RcvBuffer.Whole.{read_msg-message}
use udt_patch_for_epoll.SndBuffer.{
  Block, SndBuffer, replicate, new_snd_buffer, packets_of, packet_of,
}
use udt_patch_for_epoll.SndBuffer.Chunks.{
  segment, length-segment, bytes_of, take_all, packets_cover, bytes_of-packets,
}
use udt_patch_for_epoll.SndBuffer.Refines.{
  Op, send, next, run, Sender, spec, spec_run, new_sender, AllAckSent, run_sends_in_order,
}
use udt_patch_for_epoll.SndBuffer.Transfer.{received, payloads-received, packets-IsMessage}
use udt_patch_for_epoll.SndBuffer.Delivery.{HasOnly, deliver, deliver-HasOnly, new_buffer-HasOnly}

-- Reading all packets reads those that were not sent.
spec_run-next :
    (s : Sender) (unsent : List Block)
    → s.unsent ≡ unsent
    → (spec_run s (replicate (length unsent) next)).0 ≡ unsent
spec_run-next s [] e = refl
spec_run-next s (p ∷ unsent) e = rw e (
    ap (◌∷◌ p)
      (spec_run-next (record s { sent = s.sent ++ (p ∷ []); unsent = unsent }) unsent refl))

next-AllAckSent : (s : Sender) (n : ℕ) → AllAckSent s (replicate n next)
next-AllAckSent s zero = tt
next-AllAckSent s (suc n) = (tt, next-AllAckSent _ n)

positive : (n len mss : ℕ) → len ≤ n * mss → 0 < len → suc (n - 1) ≡ n
positive zero len mss h k = absurd (omega (arith, h, k, zero-mul mss))
positive (suc n) len mss h k = omega arith

-- A ring with the units of a message only gives its bytes.
read-HasOnly :
    (b : RcvBuffer) (packets : List Block) (len : ℕ)
    → IsMessage (map received packets)
    → length (bytes_of packets) ≤ len
    → HasOnly b (map received packets)
    → (b1 : RcvBuffer) × (read_msg b len ≡ done (bytes_of packets, b1))
unfolding rcv_data_size
read-HasOnly b [] len i l v = absurd i
read-HasOnly b (p ∷ packets) len i l v =
    let same = payloads-received (p ∷ packets) in
    let us = map received (p ∷ packets) in
    let after : RcvBuffer = record (released b b.start_pos us) {
      start_pos = pos_after b.size b.start_pos us;
    } in
    (
      after,
      read_msg-message b (received p) (map received packets) len v.is_stream.in_ring
            v.is_stream.holds i (omega (arith, v.is_stream.count))
          ∙ ap (λ (xs : Bytes). done (xs, after))
              (ap (take len) same ∙ take_all len (bytes_of (p ∷ packets)) l),
    )

module _ (mss : ℕ) (bytes : Bytes) (ttl : Option ℕ) (order : Bool) (now : ℕ) where
  abbrev pub message : List Block
  message = segment (packet_of mss 1 bytes ttl order now) 0 (packets_of (length bytes) mss)

  abbrev pub send_and_read : List Op
  send_and_read = send bytes ttl order now ∷ replicate (packets_of (length bytes) mss) next

  message_packets : (spec_run (new_sender mss) send_and_read).0 ≡ message
  message_packets =
      let n =
        length-segment (packet_of mss 1 bytes ttl order now) 0 (packets_of (length bytes) mss) in
      subst
        (λ (k : ℕ).
          (spec_run (spec (new_sender mss) (send bytes ttl order now)).1 (replicate k next)).0
          ≡ message)
        n (spec_run-next (spec (new_sender mss) (send bytes ttl order now)).1 message refl)

  message-IsMessage : 0 < mss → 0 < length bytes → IsMessage (map received message)
  message-IsMessage h k =
      let n = packets_of (length bytes) mss in
      let e = positive n (length bytes) mss (packets_cover (length bytes) mss h) k in
      subst
        (λ (j : ℕ). IsMessage (map received (segment (packet_of mss 1 bytes ttl order now) 0 j))) e
        (packets-IsMessage mss 1 bytes ttl order now (omega arith) (n - 1) e)

-- A message that is not empty, added to a new send buffer, comes out of it in packets; these,
-- delivered in order to a new receive buffer of more slots than packets and acknowledged, are
-- read by `readMsg` as the message, byte for byte, whatever the packet size and the message's
-- order and time of life, if the room given is enough.
pub message_arrives :
    (snd_size mss rcv_size unit_count len : ℕ) (bytes : Bytes) (ttl : Option ℕ) (order : Bool)
    (now : ℕ) (memory : Block)
    → 0 < snd_size
    → 0 < mss
    → 0 < length bytes
    → packets_of (length bytes) mss < rcv_size
    → length bytes ≤ len
    → (packets : List Block) × (b1 : SndBuffer) × (b2 : RcvBuffer) × (run
          (new_snd_buffer snd_size mss memory)
          memory
          (send_and_read mss bytes ttl order now)
        ≡ done (packets, b1))
      × (read_msg (deliver (new_buffer rcv_size unit_count) packets) len ≡ done (bytes, b2))
unfolding new_buffer
message_arrives snd_size mss rcv_size unit_count len bytes ttl order now memory h k m r l =
    let packets = message mss bytes ttl order now in
    let (b1, e, w) =
      run_sends_in_order snd_size mss memory (send_and_read mss bytes ttl order now) h
        (tt, next-AllAckSent _ (packets_of (length bytes) mss)) in
    let same : bytes_of packets ≡ bytes = bytes_of-packets mss 1 bytes ttl order now k in
    let size =
      length-segment (packet_of mss 1 bytes ttl order now) 0 (packets_of (length bytes) mss) in
    let held =
      deliver-HasOnly (new_buffer rcv_size unit_count) packets []
        (omega (arith, size, r, dist_self rcv_size 0))
        (new_buffer-HasOnly rcv_size unit_count (omega (arith, r))) in
    let (b2, read) =
      read-HasOnly (deliver (new_buffer rcv_size unit_count) packets) packets len
        (message-IsMessage mss bytes ttl order now k m) (omega (arith, ap length same, l)) held in
    (
      packets,
      b1,
      b2,
      e ∙ ap (λ (ps : List Block). done (ps, b1)) (message_packets mss bytes ttl order now),
      read ∙ ap (λ (xs : Bytes). done (xs, b2)) same,
    )
