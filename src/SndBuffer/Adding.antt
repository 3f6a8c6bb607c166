-- ===== src/SndBuffer/Adding.antt =====
-- udt4/src/buffer.cpp: `addBuffer` as the end of a queue.
use mathlib.Core.Path.{subst}
use udt_patch_for_epoll.Prelude.{
  ℕ, zero, suc, ◌+◌, ◌<◌, ◌≡◌, refl, sym, ap, ◌∙◌, Bool, Option, List, [], ◌∷◌, ◌++◌, arith, length,
  drop, length-append, length-drop, append_assoc, append-nil,
}
use udt_patch_for_epoll.SendMsgBuf.{Bytes}
use udt_patch_for_epoll.RcvBuffer.{done, next_pos, ◌>>=◌}
use udt_patch_for_epoll.SndBuffer.{
  Block, SndBuffer, set_at, packets_of, write_blocks, next_number, packet_of, add_buffer,
}
use udt_patch_for_epoll.SndBuffer.Chunks.{segment, length-segment}
use udt_patch_for_epoll.SndBuffer.Growing.{IsQueue, Grown, grow-IsQueue}

set_at-append :
    {A : Type 0} (xs ys : List A) (x y : A) → set_at (xs ++ (x ∷ ys)) (length xs) y ≡ xs ++ (y ∷ ys)
set_at-append [] ys x y = refl
set_at-append (z ∷ xs) ys x y = ap (◌∷◌ z) (set_at-append xs ys x y)

next_within :
    (used rest : List Block) (x : Block)
    → 0 < length rest
    → next_pos (length (used ++ (x ∷ rest))) (length used) ≡ length used + 1
next_within used rest x h = ground (arith, length-append used (x ∷ rest))

-- Packets written from the end of the queue on take the place of free blocks.
write_blocks-append :
    (n : ℕ) (packet : ℕ → Block) (used free : List Block) (i : ℕ)
    → n < length free
    → write_blocks n packet (used ++ free) i (length used)
      ≡ ((used ++ segment packet i n) ++ drop n free, length used + n)
unfolding write_blocks
write_blocks-append zero packet used free i h =
    let e : length used + 0 ≡ length used = omega arith in rw (append-nil used, e) refl
write_blocks-append (suc n) packet used [] i h = absurd (omega (arith, h))
write_blocks-append (suc n) packet used (x ∷ rest) i h =
    let more : used ++ (packet i ∷ rest) ≡ (used ++ (packet i ∷ [])) ++ rest =
      sym (append_assoc used (packet i ∷ []) rest) in
    let one : length used + 1 ≡ length (used ++ (packet i ∷ [])) =
      sym (length-append used (packet i ∷ [])) in
    let sum : length (used ++ (packet i ∷ [])) + n ≡ length used + suc n = omega (arith, one) in
    rw
      (
        set_at-append used rest x (packet i),
        next_within used rest x (omega (arith, h)),
        more,
        one,
        write_blocks-append n packet (used ++ (packet i ∷ [])) rest (i + 1) (omega (arith, h)),
        sum,
        append_assoc used (packet i ∷ []) (segment packet (i + 1) n),
      )
      refl

enough : (b : SndBuffer) (used : List Block) → IsQueue b used → 0 < b.size
enough b used v = omega (arith, v.room, v.size, ap length v.split, length-append used v.free)

free_fits :
    (n : ℕ) (b : SndBuffer) (used : List Block) (v : IsQueue b used)
    → n + b.count < b.size
    → n < length v.free
free_fits n b used v h =
    omega (arith, h, v.count, v.size, ap length v.split, length-append used v.free)

abbrev written : SndBuffer → (ℕ → Block) → ℕ → SndBuffer
written b packet n =
    let (blocks, last) = write_blocks n packet b.blocks 0 b.last in
    record b {
      blocks = blocks;
      last = last;
      count = b.count + n;
      next_msg_no = next_number b.next_msg_no;
    }

written-IsQueue :
    (b : SndBuffer) (used : List Block) (packet : ℕ → Block) (n : ℕ)
    → IsQueue b used
    → n + b.count < b.size
    → IsQueue (written b packet n) (used ++ segment packet 0 n)
written-IsQueue b used packet n v h =
    let k = free_fits n b used v h in
    let e = write_blocks-append n packet used v.free 0 k in
    let l : length (used ++ segment packet 0 n) ≡ length used + n =
      length-append used (segment packet 0 n)
      ∙ ap (λ x. length used + x) (length-segment packet 0 n) in
    rw (v.split, v.last, e)
      (record {
        free = drop n v.free;
        split = refl;
        room = omega (arith, k, length-drop n v.free);
        count = omega (arith, v.count, l);
        last = sym l;
        size = omega (
          arith,
          v.size,
          ap length v.split,
          k,
          l,
          length-append used v.free,
          length-drop n v.free,
          length-append (used ++ segment packet 0 n) (drop n v.free),
        );
        sent = omega (arith, v.sent, l);
        unit_size = v.unit_size;
      })

module _ (bytes : Bytes) (ttl : Option ℕ) (order : Bool) (now : ℕ) where
  packet_of-Grown :
      (b b1 : SndBuffer)
      → Grown b b1
      → packet_of b1.mss b1.next_msg_no bytes ttl order now
        ≡ packet_of b.mss b.next_msg_no bytes ttl order now
  packet_of-Grown b b1 g = rw (g.mss, g.next_msg_no) refl

  written-Grown :
      (b b1 : SndBuffer) (used : List Block) (n : ℕ)
      → Grown b b1
      → IsQueue b1 used
      → n + b1.count < b1.size
      → IsQueue
          (written b1 (packet_of b1.mss b1.next_msg_no bytes ttl order now) n)
          (used ++ segment (packet_of b.mss b.next_msg_no bytes ttl order now) 0 n)
  written-Grown b b1 used n g v h =
      subst
        (λ (packet : ℕ → Block).
          IsQueue (written b1 (packet_of b1.mss b1.next_msg_no bytes ttl order now) n)
            (used ++ segment packet 0 n))
        (packet_of-Grown b b1 g)
        (written-IsQueue b1 used (packet_of b1.mss b1.next_msg_no bytes ttl order now) n v h)

-- Where `IsQueue` holds and the packet size is not zero, `addBuffer` comes back, and the queue then
-- has the packets of the data after those that it had; the position of the next packet to send is the
-- same, and the message number is the next.
pub add_buffer-IsQueue :
    (b : SndBuffer) (used : List Block) (bytes : Bytes) (ttl : Option ℕ) (order : Bool) (now : ℕ)
    (memory : Block)
    → IsQueue b used
    → (b1 : SndBuffer) × (add_buffer b bytes ttl order now memory ≡ done b1)
      × IsQueue b1 (
          used
          ++ segment
              (packet_of b.mss b.next_msg_no bytes ttl order now)
              0
              (packets_of (length bytes) b.mss))
      × (b1.curr ≡ b.curr)
      × (b1.mss ≡ b.mss)
      × (b1.next_msg_no ≡ next_number b.next_msg_no)
unfolding add_buffer
add_buffer-IsQueue b used bytes ttl order now memory v =
    let n = packets_of (length bytes) b.mss in
    let (b1, e, w, g, h) =
      grow-IsQueue (n + b.count + 1) b used n memory v (omega (arith, enough b used v))
        (omega arith) in
    rw (e, ◌>>=◌)
      (
        _,
        refl,
        written-Grown bytes ttl order now b b1 used n g w h,
        g.curr,
        g.mss,
        ap (λ x. next_number x) g.next_msg_no,
      )
