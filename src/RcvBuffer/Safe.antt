-- ===== src/RcvBuffer/Safe.antt =====
-- udt4/src/buffer.cpp: `readMsg` and `getRcvMsgNum` over any contents of the ring.
use udt_patch_for_epoll.Prelude.{
  ℕ, ◌+◌, ◌<◌, ◌≤◌, ◌≡◌, refl, ◌∙◌, Bool, true, false, [], Option, none, some, arith, length,
  Bool-cases, inl, inr,
}
use udt_patch_for_epoll.SendMsgBuf.{Bytes}
use udt_patch_for_epoll.RcvBuffer.{
  RcvBuffer, done, ◌>>=◌, next_pos, start_after, read_found, read_msg, rcv_msg_num, Scan,
}
use udt_patch_for_epoll.RcvBuffer.Positions.{dist, next_pos-lt, dist-lt, mod_next}
use udt_patch_for_epoll.RcvBuffer.Skip.{InRing, Skipped, Skipped-InRing}
use udt_patch_for_epoll.RcvBuffer.Found.{NotPast, Reads}
use udt_patch_for_epoll.RcvBuffer.Search.{scan_msg-Scanned}
use udt_patch_for_epoll.RcvBuffer.Copying.{read_msg_units-CopiedMsg}

-- What `readMsg` and `getRcvMsgNum` leave of the buffer's shape.
pub record SameShape (b b1 : RcvBuffer) : Type 0 where
  pub size : b1.size ≡ b.size
  pub last_ack : b1.last_ack_pos ≡ b.last_ack_pos
  pub max_pos : b1.max_pos ≡ b.max_pos
  pub in_ring : InRing b1
  pub nearer : dist b1.size b1.start_pos b1.last_ack_pos ≤ dist b.size b.start_pos b.last_ack_pos

started :
    (b b1 : RcvBuffer) (bytes : Bytes) (passack : Bool) (stop len : ℕ)
    → length bytes ≤ len
    → stop < b.size
    → (passack ≡ false → dist b.size stop b.last_ack_pos ≤ dist b.size b.start_pos b.last_ack_pos)
    → SameShape b b1
    → (bytes' : Bytes) × (b2 : RcvBuffer) × (done (start_after passack stop (bytes, b1))
        ≡ done (bytes', b2))
      × (length bytes' ≤ len)
      × SameShape b b2
started b b1 bytes true stop len h k n v = (bytes, b1, refl, h, v)
started b b1 bytes false stop len h k n v = (
  bytes,
  record b1 { start_pos = stop },
  refl,
  h,
  record {
    size = v.size;
    last_ack = v.last_ack;
    max_pos = v.max_pos;
    in_ring = record { start = omega (arith, k, v.size); last_ack = v.in_ring.last_ack };
    nearer = rw (v.size, v.last_ack) (n refl);
  },
)

read_found-Done :
    (b : RcvBuffer) (p : Option ℕ) (s : Scan) (len : ℕ)
    → InRing b
    → s.q < b.size
    → Reads b p (next_pos b.size s.q)
    → (s.passack ≡ false → NotPast b s.q)
    → (bytes : Bytes) × (b1 : RcvBuffer) × (read_found p s b len ≡ done (bytes, b1))
      × (length bytes ≤ len)
      × SameShape b b1
read_found-Done b none s len v i r n = absurd r
read_found-Done b (some p) s len v i (h, f) n =
    let stop = next_pos b.size s.q in
    let k = next_pos-lt b.size s.q i in
    let c =
      read_msg_units-CopiedMsg (b.size + 1) b s.passack p stop len h k f
        (omega (arith, dist-lt b.size p stop h k)) in
    rw (mod_next b.size s.q i, c.returns)
      (started b c.buffer c.bytes s.passack stop len c.within k n (record {
        size = c.size;
        last_ack = c.last_ack;
        max_pos = c.max_pos;
        in_ring = record {
          start = omega (arith, c.start, c.size, v.start);
          last_ack = omega (arith, c.last_ack, c.size, v.last_ack);
        };
        nearer = rw (c.size, c.start, c.last_ack) (omega arith);
      }))

same_shape : (b b1 b2 : RcvBuffer) → Skipped b b1 → SameShape b1 b2 → SameShape b b2
same_shape b b1 b2 k v = record {
  size = v.size ∙ k.size;
  last_ack = v.last_ack ∙ k.last_ack;
  max_pos = v.max_pos ∙ k.max_pos;
  in_ring = v.in_ring;
  nearer = omega (arith, v.nearer, k.nearer);
}

pub unmoved : (b : RcvBuffer) → InRing b → SameShape b b
unmoved b v = record {
  size = refl;
  last_ack = refl;
  max_pos = refl;
  in_ring = v;
  nearer = omega arith;
}

-- Whatever the ring holds, if its positions lie in the array, `readMsg` comes back: its loops end, it
-- reads no null pointer, it copies no more than the room given, and it keeps the size, the last
-- acknowledged position and the positions in the array, and there is no more
-- acknowledged data than before.
pub read_msg_returns :
    (b : RcvBuffer) (len : ℕ)
    → InRing b
    → (bytes : Bytes) × (b1 : RcvBuffer) × (read_msg b len ≡ done (bytes, b1))
      × (length bytes ≤ len)
      × SameShape b b1
unfolding read_msg
read_msg_returns b len v =
    let (s, b1, r, c) = scan_msg-Scanned b v in
    let v1 = Skipped-InRing b b1 v c.kept in
    elim (Bool-cases s.found) [
      | inr t ↦
          rw (read_msg, r, ◌>>=◌, t)
            ([], b1, refl, omega arith, same_shape b b1 b1 c.kept (unmoved b1 v1))
      | inl t ↦
          (let (i, reads) = c.reads t in
            let (bytes, b2, e, h, w) = read_found-Done b1 s.p s len v1 i reads (c.stop t) in
            rw (read_msg, r, ◌>>=◌, t, e) (bytes, b2, refl, h, same_shape b b1 b2 c.kept w))
    ]

pub rcv_msg_num_returns :
    (b : RcvBuffer)
    → InRing b
    → (n : ℕ) × (b1 : RcvBuffer) × (rcv_msg_num b ≡ done (n, b1)) × SameShape b b1
unfolding rcv_msg_num
rcv_msg_num_returns b v =
    let (s, b1, r, c) = scan_msg-Scanned b v in
    let v1 = Skipped-InRing b b1 v c.kept in
    rw (rcv_msg_num, r) (_, b1, refl, same_shape b b1 b1 c.kept (unmoved b1 v1))
