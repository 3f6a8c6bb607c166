-- ===== src/RcvBuffer/Reach.antt =====
-- udt4/src/buffer.cpp: the states of the receive buffer of a datagram socket. The calls are those of
-- udt4/src/core.cpp: `processData` adds a packet at an offset that `getAvailBufSize` has room for and
-- keeps the largest number received, and an acknowledgement covers no more than was received. The
-- peer's drop requests are not among the calls: core.cpp moves the largest number received along
-- with them, past packets that never came.
use mathlib.Core.Path.{subst}
use native.Mathlib.Nat.{mod-lt}
use udt_patch_for_epoll.Prelude.{
  ℕ, zero, suc, ◌+◌, ◌-◌, ◌%◌, ◌<◌, ◌≤◌, ◌≡◌, refl, Bool, true, false, arith, ◌==◌, ltb,
  if◌then◌else◌, Bool-cases, Option-cases, inl, inr,
}
use udt_patch_for_epoll.SendMsgBuf.{Bytes}
use udt_patch_for_epoll.RcvBuffer.{
  RcvUnit, RcvBuffer, Run, done, store, next_pos, dropped, new_buffer, rcv_data_size,
  avail_buf_size, add_data, ack_data, drop_units, drop_msg, read_msg, rcv_msg_num,
}
use udt_patch_for_epoll.RcvBuffer.Positions.{
  dist, dist-lt, dist-next_pos, next_pos-lt, mod_next, mod_wrap-lt, dist-mod,
}
use udt_patch_for_epoll.RcvBuffer.Skip.{InRing}
use udt_patch_for_epoll.RcvBuffer.Safe.{SameShape, unmoved, read_msg_returns, rcv_msg_num_returns}

-- The buffer, and how many packets from the last acknowledged one on reach to the largest number
-- received.
abbrev pub Received : Type 0
Received = RcvBuffer × ℕ

abbrev pub largest : Bool → ℕ → ℕ → ℕ
largest false top offset = top
largest true top offset = if ltb top (offset + 1) then offset + 1 else top

pub data Step : Received → Received → Type 0 where
  packet_arrives :
      (b : RcvBuffer) (top : ℕ) (u : RcvUnit) (offset : ℕ)
      → offset < avail_buf_size b
      → Step (b, top) ((add_data b u offset).1, largest (add_data b u offset).0 top offset)
  acknowledged :
      (b : RcvBuffer) (top len : ℕ) → len ≤ top → Step (b, top) (ack_data b len, top - len)
  message_read :
      (b b1 : RcvBuffer) (top len : ℕ) (bytes : Bytes)
      → read_msg b len ≡ done (bytes, b1)
      → Step (b, top) (b1, top)
  messages_counted :
      (b b1 : RcvBuffer) (top n : ℕ) → rcv_msg_num b ≡ done (n, b1) → Step (b, top) (b1, top)

pub data Reached (bufsize unit_count : ℕ) : Received → Type 0 where
  constructed : Reached bufsize unit_count (new_buffer bufsize unit_count, 0)
  stepped :
      (s t : Received) → Reached bufsize unit_count s → Step s t → Reached bufsize unit_count t

-- One slot stays empty, with all that was received in the ring.
pub record IsValid (b : RcvBuffer) (top : ℕ) : Type 0 where
  pub in_ring : InRing b
  pub max_pos_fits : rcv_data_size b + b.max_pos < b.size
  pub top_fits : rcv_data_size b + top < b.size

SameShape-IsValid : (b b1 : RcvBuffer) (top : ℕ) → SameShape b b1 → IsValid b top → IsValid b1 top
unfolding rcv_data_size
SameShape-IsValid b b1 top s v = record {
  in_ring = s.in_ring;
  max_pos_fits = omega (arith, s.nearer, s.max_pos, s.size, v.max_pos_fits);
  top_fits = omega (arith, s.nearer, s.size, v.top_fits);
}

-- What `addData` leaves of the positions.
record Added (b : RcvBuffer) (offset : ℕ) (b1 : RcvBuffer) : Type 0 where
  size : b1.size ≡ b.size
  start : b1.start_pos ≡ b.start_pos
  last_ack : b1.last_ack_pos ≡ b.last_ack_pos
  max_pos : b1.max_pos ≡ (if ltb b.max_pos offset then offset else b.max_pos)

add_data-Added : (b : RcvBuffer) (u : RcvUnit) (offset : ℕ) → Added b offset (add_data b u offset).1
unfolding add_data
add_data-Added b u offset =
    let pos = (b.last_ack_pos + offset) % b.size in
    elim (Bool-cases (ltb b.max_pos offset)) [
      | inl t ↦ elim (Option-cases (b.units pos)) [
        | inl e ↦
            rw (t, add_data, e, t)
              (record { size = refl; start = refl; last_ack = refl; max_pos = rw t refl })
        | inr (w, e) ↦
            rw (t, add_data, e, t)
              (record { size = refl; start = refl; last_ack = refl; max_pos = rw t refl })
      ]
      | inr t ↦ elim (Option-cases (b.units pos)) [
        | inl e ↦
            rw (t, add_data, e, t)
              (record { size = refl; start = refl; last_ack = refl; max_pos = rw t refl })
        | inr (w, e) ↦
            rw (t, add_data, e, t)
              (record { size = refl; start = refl; last_ack = refl; max_pos = rw t refl })
      ]
    ]

largest_fits :
    (stored : Bool) (top offset size data_size : ℕ)
    → offset < size - data_size - 1
    → data_size + top < size
    → data_size + largest stored top offset < size
largest_fits false top offset size data_size h k = k
largest_fits true top offset size data_size h k = ground arith

add_data-IsValid :
    (b : RcvBuffer) (top : ℕ) (u : RcvUnit) (offset : ℕ)
    → offset < avail_buf_size b
    → IsValid b top
    → IsValid (add_data b u offset).1 (largest (add_data b u offset).0 top offset)
unfolding avail_buf_size rcv_data_size
add_data-IsValid b top u offset h v =
    let (stored, b1) = add_data b u offset in
    let a = add_data-Added b u offset in
    let same : dist b1.size b1.start_pos b1.last_ack_pos ≡ dist b.size b.start_pos b.last_ack_pos =
      rw (a.size, a.start, a.last_ack) refl in
    record {
      in_ring = record {
        start = omega (arith, a.start, a.size, v.in_ring.start);
        last_ack = omega (arith, a.last_ack, a.size, v.in_ring.last_ack);
      };
      max_pos_fits = ground (arith, same, a.size, a.max_pos, h, v.max_pos_fits);
      top_fits =
          rw (same, a.size)
            (largest_fits stored top offset b.size (dist b.size b.start_pos b.last_ack_pos) h
              v.top_fits);
    }

ack_data-IsValid :
    (b : RcvBuffer) (top len : ℕ) → len ≤ top → IsValid b top → IsValid (ack_data b len) (top - len)
unfolding ack_data rcv_data_size
ack_data-IsValid b top len h v =
    let start = v.in_ring.start in
    let last = v.in_ring.last_ack in
    let size : dist b.size b.start_pos b.last_ack_pos + len < b.size =
      omega (arith, h, v.top_fits) in
    let m : len < b.size = omega (arith, size) in
    let e = dist-mod b.size b.start_pos b.last_ack_pos len start last size in
    record {
      in_ring = record { start = start; last_ack = mod_wrap-lt b.size b.last_ack_pos len last m };
      max_pos_fits = omega (arith, e, size, v.max_pos_fits);
      top_fits = omega (arith, e, h, v.top_fits);
    }

drop_units-SameShape :
    (fuel : ℕ) (b : RcvBuffer) (msgno i n : ℕ)
    → InRing b
    → i < b.size
    → n < b.size
    → dist b.size i n < fuel
    → (b1 : RcvBuffer) × (drop_units fuel b msgno i n ≡ done b1) × SameShape b b1
unfolding drop_units
drop_units-SameShape zero b msgno i n v h k f = absurd (omega arith)
drop_units-SameShape (suc fuel) b msgno i n v h k f = elim (Bool-cases (i == n)) [
  | inl t ↦ rw (drop_units, t) (b, refl, unmoved b v)
  | inr t ↦
      let b' : RcvBuffer = record b { units = store b.units i (dropped msgno (b.units i)) } in
      let d : suc (dist b.size (next_pos b.size i) n) ≡ dist b.size i n =
        ground (arith, t, h, k, dist-next_pos b.size i n h k) in
      let (b1, e, s) =
        drop_units-SameShape fuel b' msgno (next_pos b.size i) n
          (record { start = v.start; last_ack = v.last_ack }) (next_pos-lt b.size i h) k
          (omega (arith, d, f)) in
      rw (drop_units, t, mod_next b.size i h, e)
        (
          b1,
          refl,
          record {
            size = s.size;
            last_ack = s.last_ack;
            max_pos = s.max_pos;
            in_ring = s.in_ring;
            nearer = s.nearer;
          },
        )
]

-- `dropMsg` comes back and moves no position.
drop_msg_returns :
    (b : RcvBuffer) (msgno : ℕ)
    → InRing b
    → (b1 : RcvBuffer) × (drop_msg b msgno ≡ done b1) × SameShape b b1
unfolding drop_msg
drop_msg_returns b msgno v =
    let n : (b.last_ack_pos + b.max_pos) % b.size < b.size =
      mod-lt (b.last_ack_pos + b.max_pos) (omega (arith, v.start)) in
    drop_units-SameShape (b.size + 1) b msgno b.start_pos _ v v.start n
      (omega (arith, dist-lt b.size b.start_pos _ v.start n))

-- A call that came back as the call does keeps the invariant.
returned-IsValid :
    {A : Type 0} (b b1 : RcvBuffer) (top : ℕ) (r : Run (A × RcvBuffer)) (a : A)
    → (a' : A) × (b2 : RcvBuffer) × (r ≡ done (a', b2)) × SameShape b b2
    → r ≡ done (a, b1)
    → IsValid b top
    → IsValid b1 top
returned-IsValid b b1 top r a (a', b2, e, s) e' v =
    let same : b2 ≡ b1 = cc in SameShape-IsValid b b1 top (subst (SameShape b) same s) v

Step-IsValid : (s t : Received) → Step s t → IsValid s.0 s.1 → IsValid t.0 t.1
Step-IsValid s t (packet_arrives b top u offset h) v = add_data-IsValid b top u offset h v
Step-IsValid s t (acknowledged b top len h) v = ack_data-IsValid b top len h v
Step-IsValid s t (message_read b b1 top len bytes e) v =
    let (bytes', b2, e', h, w) = read_msg_returns b len v.in_ring in
    returned-IsValid b b1 top (read_msg b len) bytes (bytes', b2, e', w) e v
Step-IsValid s t (messages_counted b b1 top n e) v =
    returned-IsValid b b1 top (rcv_msg_num b) n (rcv_msg_num_returns b v.in_ring) e v

-- From a new buffer of at least one slot on, through any packets within the space reported,
-- acknowledgements of what was received, reads and counts, and without drop requests of the peer,
-- the positions lie in the array, and what is acknowledged together with what is received beyond it
-- leaves one slot of the ring empty.
pub Reached-IsValid :
    (bufsize unit_count : ℕ) (s : Received)
    → 0 < bufsize
    → Reached bufsize unit_count s
    → IsValid s.0 s.1
unfolding new_buffer rcv_data_size
Reached-IsValid bufsize unit_count s h constructed = record {
  in_ring = record { start = h; last_ack = h };
  max_pos_fits = omega (arith, h);
  top_fits = omega (arith, h);
}
Reached-IsValid bufsize unit_count _ h (stepped s t r m) =
    Step-IsValid s t m (Reached-IsValid bufsize unit_count s h r)
