-- ===== src/RcvBuffer/Whole.antt =====
-- udt4/src/buffer.cpp: what `readMsg` returns of a whole acknowledged message.
use udt_patch_for_epoll.Prelude.{
  ℕ, Option, none, true, zero, suc, ◌+◌, ◌-◌, ◌<◌, ◌≤◌, ◌≡◌, refl, sym, ap, ◌∙◌, false, List, [],
  ◌∷◌, ◌++◌, some, arith, ◌==◌, ltb, if◌then◌else◌, length, take, Bool-cases, inl, inr, take_nil,
  take-append, take-append_short,
}
use udt_patch_for_epoll.SendMsgBuf.{Bytes}
use udt_patch_for_epoll.RcvBuffer.{
  RcvUnit, RcvBuffer, done, ◌>>=◌, next_pos, store, release, rcv_data_size, scan_msg,
  read_msg_units, read_msg,
}
use udt_patch_for_epoll.RcvBuffer.Positions.{
  dist, dist-back, dist-lt, mod_next, next_pos-lt, dist-next_pos, dist_self, dist_step,
}
use udt_patch_for_epoll.RcvBuffer.Skip.{InRing}
use udt_patch_for_epoll.RcvBuffer.Message.{
  Stands, Holds, IsMessage, payloads, last_pos, pos_after, released, skip_bad-message,
  find_msg-message,
}

-- A unit stored behind the others changes none of them.
pub Stands-store :
    (units : ℕ → Option RcvUnit) (unit : Option RcvUnit) (size p q : ℕ) (us : List RcvUnit)
    → p < size
    → q < size
    → length us ≤ dist size q p
    → Stands units size q us
    → Stands (store units p unit) size q us
Stands-store units unit size p q [] h k d hs = tt
Stands-store units unit size p q (u ∷ us) h k d (e, hs) =
    let step = dist_step size q p (length us) k h d in
    let apart : (p == q) ≡ false = ground (arith, step.0) in
    (
      rw apart e,
      Stands-store units unit size p (next_pos size q) us h (next_pos-lt size q k) step.1 hs,
    )

pub Holds-release :
    (b : RcvBuffer) (p q : ℕ) (us : List RcvUnit)
    → p < b.size
    → q < b.size
    → length us ≤ dist b.size q p
    → Holds b q us
    → Holds (release b p) q us
Holds-release b p q us h k d hs = Stands-store b.units none b.size p q us h k d hs

-- Copying the front of two pieces piece by piece.
take_pieces :
    (rs : ℕ) (xs ys : Bytes)
    → let n = if ltb rs (length xs) then rs else length xs in
      take n xs ++ take (rs - n) ys ≡ take rs (xs ++ ys)
take_pieces rs xs ys = elim (Bool-cases (ltb rs (length xs))) [
  | inl t ↦
      let e : rs - rs ≡ 0 = omega arith in
      rw (t, e) (take-append_short rs xs ys (ground (arith, t)))
  | inr t ↦ rw t (take-append rs xs ys (ground (arith, t)))
]

pub pos_after-lt : (size q : ℕ) (us : List RcvUnit) → q < size → pos_after size q us < size
pos_after-lt size q [] h = h
pos_after-lt size q (u ∷ us) h = pos_after-lt size (next_pos size q) us (next_pos-lt size q h)

pos_after-last :
    (size q : ℕ) (u : RcvUnit) (us : List RcvUnit)
    → next_pos size (last_pos size q (u ∷ us)) ≡ pos_after size q (u ∷ us)
pos_after-last size q u [] = refl
pos_after-last size q u (v ∷ us) = pos_after-last size (next_pos size q) v us

last_pos-lt : (size q : ℕ) (us : List RcvUnit) → q < size → last_pos size q us < size
last_pos-lt size q [] h = h
last_pos-lt size q (u ∷ []) h = h
last_pos-lt size q (u ∷ v ∷ us) h =
    last_pos-lt size (next_pos size q) (v ∷ us) (next_pos-lt size q h)

-- The units lie between the first position and the one after them.
pub dist-pos_after :
    (size q : ℕ) (us : List RcvUnit)
    → q < size
    → length us < size
    → dist size q (pos_after size q us) ≡ length us
dist-pos_after size q [] h d = dist_self size q
dist-pos_after size q (u ∷ us) h d =
    let next = next_pos size q in
    let e = dist-pos_after size next us (next_pos-lt size q h) (omega (arith, d)) in
    elim (Bool-cases (q == pos_after size next us)) [
      | inl t ↦
          (let back : suc (dist size next (pos_after size next us)) ≡ size =
              ground (arith, t, dist-back size q h) in
            absurd (omega (arith, back, e, d)))
      | inr t ↦
          dist-next_pos size q (pos_after size next us) h
            (pos_after-lt size next us (next_pos-lt size q h)) (λ z. absurd (ground (arith, t, z)))
          ∙ ap suc e
    ]

-- The loop of `readMsg` copies the payloads in order, as far as there is room, and releases all.
read_msg_units-Holds :
    (fuel : ℕ) (b : RcvBuffer) (p rs : ℕ) (us : List RcvUnit)
    → p < b.size
    → Holds b p us
    → length us < b.size
    → length us < fuel
    → read_msg_units fuel b false p (pos_after b.size p us) rs
      ≡ done (take rs (payloads us), released b p us)
unfolding read_msg_units
read_msg_units-Holds zero b p rs us h hs d f = absurd (omega arith)
read_msg_units-Holds (suc fuel) b p rs [] h hs d f =
    let here : (p == p) ≡ true = ground arith in
    rw (read_msg_units, here) (ap (λ (zs : Bytes). done (zs, b)) (sym (take_nil rs)))
read_msg_units-Holds (suc fuel) b p rs (u ∷ us) h (e, hs) d f =
    let next = next_pos b.size p in
    let size = if ltb rs (length u.payload) then rs else length u.payload in
    let n = next_pos-lt b.size p h in
    let apart =
      (dist_step b.size p (pos_after b.size next us) (length us) h (pos_after-lt b.size next us n)
        (omega (arith, dist-pos_after b.size p (u ∷ us) h d))).0 in
    let kept = Holds-release b p next us h n (omega (arith, d, dist-back b.size p h)) hs in
    let rest =
      read_msg_units-Holds fuel (release b p) next (rs - size) us n kept (omega (arith, d))
        (omega (arith, f)) in
    rw (apart, read_msg_units, e, rest)
      (ap (λ (zs : Bytes). done (zs, released (release b p) next us))
        (take_pieces rs u.payload (payloads us)))

scan_msg-message :
    (b : RcvBuffer) (u : RcvUnit) (us : List RcvUnit)
    → InRing b
    → Holds b b.start_pos (u ∷ us)
    → IsMessage (u ∷ us)
    → length (u ∷ us) ≤ rcv_data_size b
    → scan_msg b
      ≡ done (
        record {
          p = some b.start_pos;
          q = last_pos b.size b.start_pos (u ∷ us);
          passack = false;
          found = true;
        },
        b,
      )
unfolding scan_msg rcv_data_size
scan_msg-message b u us v hs m d =
    let apart = (dist_step b.size b.start_pos b.last_ack_pos (length us) v.start v.last_ack d).0 in
    let found =
      find_msg-message (b.max_pos + dist b.size b.start_pos b.last_ack_pos + 1) b b.start_pos
        (u ∷ us) v.start v.last_ack hs m d (omega (arith, d)) in
    let skipped = skip_bad-message b.size b u us v hs m d in
    let fuel : b.size + 1 ≡ suc b.size = omega arith in
    rw (scan_msg, apart, fuel, skipped, ◌>>=◌, apart, found)

-- When the units of a whole acknowledged message stand at the start of the ring, `readMsg` copies
-- their payloads, in order and as far as there is room, gives every unit of the message back to the
-- unit queue, and moves the start to the position after the message; no other position changes.
pub read_msg-message :
    (b : RcvBuffer) (u : RcvUnit) (us : List RcvUnit) (len : ℕ)
    → InRing b
    → Holds b b.start_pos (u ∷ us)
    → IsMessage (u ∷ us)
    → length (u ∷ us) ≤ rcv_data_size b
    → read_msg b len
      ≡ done (
        take len (payloads (u ∷ us)),
        record (released b b.start_pos (u ∷ us)) {
          start_pos = pos_after b.size b.start_pos (u ∷ us);
        },
      )
unfolding read_msg rcv_data_size
read_msg-message b u us len v hs m d =
    let size = dist-lt b.size b.start_pos b.last_ack_pos v.start v.last_ack in
    let stop =
      mod_next b.size (last_pos b.size b.start_pos (u ∷ us))
        (last_pos-lt b.size b.start_pos (u ∷ us) v.start)
      ∙ pos_after-last b.size b.start_pos u us in
    let copied =
      read_msg_units-Holds (b.size + 1) b b.start_pos len (u ∷ us) v.start hs
        (omega (arith, d, size)) (omega (arith, d, size)) in
    rw (read_msg, scan_msg-message b u us v hs m d, ◌>>=◌, stop, copied)
