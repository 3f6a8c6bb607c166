-- ===== src/SockSend/Sent.antt =====
-- udt4/src/core.cpp: what `sendmsg` does to the send buffer, and what the epolls show after it.
use mathlib.Core.Path.{subst}
use udt_patch_for_epoll.Prelude.{
  ℕ, ◌-◌, ◌*◌, ◌<◌, ◌≤◌, ◌≡◌, refl, sym, ◌∙◌, Bool, true, false, ◌&&◌, ◌||◌, Option, List, ◌++◌,
  arith, ltb, leb, length, append_assoc, length-append, Bool-cases, ◌⊎◌, inl, inr,
}
use udt_patch_for_epoll.Std.Set.{contains}
use udt_patch_for_epoll.SendMsgBuf.{Bytes}
use udt_patch_for_epoll.Udt.{ret, error, easyncsnd}
use udt_patch_for_epoll.Epoll.{Epoll}
use udt_patch_for_epoll.RcvBuffer.{done}
use udt_patch_for_epoll.SockEpoll.Views.{view, view-disable_write}
use udt_patch_for_epoll.SndBuffer.{Block, SndBuffer, packets_of, packet_of}
use udt_patch_for_epoll.SndBuffer.Chunks.{segment, length-segment}
use udt_patch_for_epoll.SndBuffer.Growing.{IsQueue}
use udt_patch_for_epoll.SndBuffer.Adding.{add_buffer-IsQueue}
use udt_patch_for_epoll.SndBuffer.Reading.{IsSending}
use udt_patch_for_epoll.SockSend.{Sender, Sending, after_add, room, insert_msg, sendmsg}
use udt_patch_for_epoll.SockSend.Room.{packets_fit}

-- A connected datagram socket whose send buffer holds these packets, no more than it may.
pub record IsReady (s : Sender) (sent unsent : List Block) : Type 0 where
  pub dgram : s.is_stream ≡ false
  pub alive : (s.broken || s.closing) ≡ false
  pub connected : s.connected ≡ true
  pub sending : IsSending s.snd_buffer sent unsent
  pub mss : s.snd_buffer.mss ≡ s.payload_size
  pub some_payload : 0 < s.payload_size
  pub bounded : s.snd_buffer.count ≤ s.snd_buf_size

abbrev pub packets : Sender → Bytes → Option ℕ → Bool → ℕ → List Block
packets s bytes ttl order now =
    segment (packet_of s.snd_buffer.mss s.snd_buffer.next_msg_no bytes ttl order now) 0
      (packets_of (length bytes) s.snd_buffer.mss)

-- What a send that was accepted leaves: all packets in the buffer, which still holds no more than it
-- may, and in an epoll of the socket it stays writable only while the buffer is not full.
pub record Accepted (e : Epoll) (u eid : ℕ) (s : Sender) (sent unsent : List Block) (r : Sending)
    : Type 0 where
  pub size : r.2.snd_buf_size ≡ s.snd_buf_size
  pub sending : IsSending r.2.snd_buffer sent unsent
  pub bounded : r.2.snd_buffer.count ≤ s.snd_buf_size
  pub shown : view r.1 eid u ≡ record (view e eid u) {
    in_write = ltb r.2.snd_buffer.count s.snd_buf_size && (view e eid u).in_write;
  }

after_add-Accepted :
    (e : Epoll) (u eid len : ℕ) (s : Sender) (b : SndBuffer) (sent unsent : List Block)
    → contains eid s.poll_ids ≡ true
    → IsSending b sent unsent
    → b.count ≤ s.snd_buf_size
    → Accepted e u eid s sent unsent (ret len, (after_add e u s b).0, (after_add e u s b).1)
unfolding after_add
after_add-Accepted e u eid len s b sent unsent h v k =
    elim (Bool-cases (leb s.snd_buf_size b.count)) [
      | inl t ↦
          let full : ltb b.count s.snd_buf_size ≡ false = ground (arith, t) in
          rw (t, after_add)
            (record {
              size = refl;
              sending = v;
              bounded = k;
              shown = ground (arith, full, h, view-disable_write e u s.poll_ids eid);
            })
      | inr t ↦
          let free : ltb b.count s.snd_buf_size ≡ true = ground (arith, t) in
          rw (t, after_add) (record { size = refl; sending = v; bounded = k; shown = rw free refl })
    ]

sendmsg-insert_msg :
    (e : Epoll) (u : ℕ) (s : Sender) (sent unsent : List Block) (bytes : Bytes) (ttl : Option ℕ)
    (order : Bool) (now : ℕ) (memory : Block)
    → IsReady s sent unsent
    → 0 < length bytes
    → length bytes ≤ s.snd_buf_size * s.payload_size
    → sendmsg e u s bytes ttl order now memory ≡ insert_msg e u s bytes ttl order now memory
unfolding sendmsg
sendmsg-insert_msg e u s sent unsent bytes ttl order now memory v some_bytes short =
    ground (arith, v.dgram, v.alive, v.connected, some_bytes, short)

-- The queue of the send buffer after `addBuffer`, as packets sent and to be sent.
added-IsSending :
    (s : Sender) (b : SndBuffer) (sent unsent added : List Block)
    → IsQueue b ((sent ++ unsent) ++ added)
    → b.curr ≡ s.snd_buffer.curr
    → IsSending s.snd_buffer sent unsent
    → IsSending b sent (unsent ++ added)
added-IsSending s b sent unsent added q c v = record {
  queue = rw (← append_assoc sent unsent added) q;
  curr = c ∙ v.curr;
}

packets_bounded :
    (s : Sender) (b : SndBuffer) (sent unsent : List Block) (bytes : Bytes) (ttl : Option ℕ)
    (order : Bool) (now : ℕ)
    → IsReady s sent unsent
    → length bytes ≤ room s
    → IsSending b sent (unsent ++ packets s bytes ttl order now)
    → b.count ≤ s.snd_buf_size
packets_bounded s b sent unsent bytes ttl order now v h w =
    let n = packets_of (length bytes) s.snd_buffer.mss in
    let some_mss : 0 < s.snd_buffer.mss = omega (arith, v.mss, v.some_payload) in
    let fits : n ≤ s.snd_buf_size - s.snd_buffer.count =
      packets_fit (length bytes) (s.snd_buf_size - s.snd_buffer.count) s.snd_buffer.mss some_mss (
        subst (λ (x : ℕ). length bytes ≤ (s.snd_buf_size - s.snd_buffer.count) * x) (sym v.mss)
          h) in
    omega (
      arith,
      fits,
      v.bounded,
      w.queue.count,
      v.sending.queue.count,
      length-append sent unsent,
      length-append sent (unsent ++ packets s bytes ttl order now),
      length-append unsent (packets s bytes ttl order now),
      length-segment (packet_of s.snd_buffer.mss s.snd_buffer.next_msg_no bytes ttl order now) 0 n,
    )

-- A connected datagram socket that does not wait, whose send buffer holds no more packets than it
-- may, comes back from `sendmsg` with a message that is not empty and not longer than the whole
-- buffer. If there is room, all its packets stand behind the others, the reply is its length, the
-- buffer still holds no more than it may, and in every epoll that the socket is registered with it
-- stays writable only if the buffer is not full; otherwise the reply is the error for a full
-- buffer, and nothing changes.
pub sendmsg_lem :
    (e : Epoll) (u eid : ℕ) (s : Sender) (sent unsent : List Block) (bytes : Bytes) (ttl : Option ℕ)
    (order : Bool) (now : ℕ) (memory : Block)
    → IsReady s sent unsent
    → contains eid s.poll_ids ≡ true
    → 0 < length bytes
    → length bytes ≤ s.snd_buf_size * s.payload_size
    → (r : Sending) × (sendmsg e u s bytes ttl order now memory ≡ done r)
      × (((length bytes ≤ room s)
            × (r.0 ≡ ret (length bytes))
            × Accepted e u eid s sent (unsent ++ packets s bytes ttl order now) r)
          ⊎ ((room s < length bytes) × (r ≡ (error easyncsnd, e, s))))
unfolding insert_msg
sendmsg_lem e u eid s sent unsent bytes ttl order now memory v h some_bytes short =
    let inserted =
      sendmsg-insert_msg e u s sent unsent bytes ttl order now memory v some_bytes short in
    elim (Bool-cases (ltb (room s) (length bytes))) [
      | inl t ↦
          let over : room s < length bytes = ground (arith, t) in
          ((error easyncsnd, e, s), inserted ∙ rw (insert_msg, t) refl, inr (over, refl))
      | inr t ↦
          let fits : length bytes ≤ room s = ground (arith, t) in
          let (b, r, q, c, m, k) =
            add_buffer-IsQueue s.snd_buffer (sent ++ unsent) bytes ttl order now memory
              v.sending.queue in
          let w = added-IsSending s b sent unsent (packets s bytes ttl order now) q c v.sending in
          let few = packets_bounded s b sent unsent bytes ttl order now v fits w in
          (
            (ret (length bytes), (after_add e u s b).0, (after_add e u s b).1),
            inserted ∙ rw (insert_msg, t, r) refl,
            inl (
              fits,
              refl,
              after_add-Accepted e u eid (length bytes) s b sent
                  (unsent ++ packets s bytes ttl order now) h w few,
            ),
          )
    ]
