-- ===== src/RcvBuffer/Stream.antt =====
-- udt4/src/buffer.cpp: `readBuffer`, the reading of a stream.
use mathlib.Core.Path.{subst}
use udt_patch_for_epoll.Prelude.{
  ℕ, zero, suc, ◌+◌, ◌-◌, ◌<◌, ◌≡◌, ◌≢◌, refl, sym, ap, ◌∙◌, true, false, List, [], ◌∷◌, arith,
  ◌==◌, ltb, length, take, drop, Bool-cases, inl, inr, drop_nil, drop-append, drop-drop,
}
use udt_patch_for_epoll.RcvBuffer.{RcvUnit, RcvBuffer, done, next_pos, release, read_buffer}
use udt_patch_for_epoll.RcvBuffer.Positions.{
  dist-lt, next_pos-lt, dist_step, dist-back, dist-next_pos,
}
use udt_patch_for_epoll.RcvBuffer.Message.{payloads}
use udt_patch_for_epoll.RcvBuffer.Whole.{Holds-release}
use udt_patch_for_epoll.RcvBuffer.Pending.{
  NotchIn, IsStream, pending, Left, ReadsOn, at, notched, notched-IsStream, stops_empty, stops_full,
  pending_head, fills, passes,
}

NotchIn-zero : (us : List RcvUnit) → NotchIn 0 us
NotchIn-zero [] = refl
NotchIn-zero (u ∷ us) = omega arith

-- The ring after its first unit was passed.
abbrev passed : RcvBuffer → ℕ → RcvBuffer
passed b p = record (release b p) { notch = 0 }

passed-IsStream :
    (b : RcvBuffer) (p : ℕ) (u : RcvUnit) (us : List RcvUnit)
    → IsStream (at b p) (u ∷ us)
    → IsStream (at (passed b p) (next_pos b.size p)) us
passed-IsStream b p u us v =
    let next = next_pos b.size p in
    let n = next_pos-lt b.size p v.in_ring.start in
    let size = dist-lt b.size p b.last_ack_pos v.in_ring.start v.in_ring.last_ack in
    let step =
      dist_step b.size p b.last_ack_pos (length us) v.in_ring.start v.in_ring.last_ack
        (omega (arith, v.count)) in
    let apart : p ≢ b.last_ack_pos = λ e. absurd (ground (arith, step.0, e)) in
    record {
      in_ring = record { start = n; last_ack = v.in_ring.last_ack };
      holds =
          Holds-release b p next us v.in_ring.start n
            (omega (arith, v.count, size, dist-back b.size p v.in_ring.start)) v.holds.1;
      count = omega (
        arith,
        v.count,
        dist-next_pos b.size p b.last_ack_pos v.in_ring.start v.in_ring.last_ack apart,
      );
      notch_in = NotchIn-zero us;
    }

fills-ReadsOn :
    (fuel : ℕ) (b : RcvBuffer) (p rs : ℕ) (u : RcvUnit) (us : List RcvUnit)
    → IsStream (at b p) (u ∷ us)
    → (p == b.last_ack_pos) ≡ false
    → (rs == 0) ≡ false
    → ltb rs (length (drop b.notch u.payload)) ≡ true
    → ReadsOn (suc (suc fuel)) b p rs (pending b (u ∷ us))
fills-ReadsOn fuel b p rs u us v apart z t =
    let (b1, r, l) =
      stops_full fuel (notched b rs) p (u ∷ us)
        (notched-IsStream b p rs u us v (ground (arith, t))) in
    let over : 0 - length (pending (notched b rs) (u ∷ us)) ≡ 0 = omega arith in
    let full = r ∙ ap (λ (n : ℕ). done ([], n, b1)) over in
    (
      b1,
      rw (pending_head b.notch u us v.notch_in)
          (fills (suc fuel) b b1 p rs u (payloads us) v.holds.0 apart z t full),
      record {
        units = l.units;
        is_stream = l.is_stream;
        rest = l.rest ∙ sym (drop-drop b.notch rs (payloads (u ∷ us)));
        size = l.size;
        last_ack = l.last_ack;
      },
    )

passes-ReadsOn :
    (fuel : ℕ) (b : RcvBuffer) (p rs : ℕ) (u : RcvUnit) (us : List RcvUnit)
    → IsStream (at b p) (u ∷ us)
    → (p == b.last_ack_pos) ≡ false
    → (rs == 0) ≡ false
    → ltb rs (length (drop b.notch u.payload)) ≡ false
    → ReadsOn fuel
        (passed b p)
        (next_pos b.size p)
        (rs - length (drop b.notch u.payload))
        (payloads us)
    → ReadsOn (suc fuel) b p rs (pending b (u ∷ us))
passes-ReadsOn fuel b p rs u us v apart z t (b1, r, l) =
    let head = pending_head b.notch u us v.notch_in in
    (
      b1,
      rw head (passes fuel b b1 p rs u (payloads us) v.holds.0 apart z t r),
      record {
        units = l.units;
        is_stream = l.is_stream;
        rest =
            l.rest
            ∙ sym (
                ap (drop rs) head
                ∙ drop-append rs (drop b.notch u.payload) (payloads us) (ground (arith, t)));
        size = l.size;
        last_ack = l.last_ack;
      },
    )

-- The loop reads what there is room for, and what it leaves is a stream of the other bytes.
read_units-ReadsOn :
    (fuel : ℕ) (b : RcvBuffer) (p rs : ℕ) (us : List RcvUnit)
    → IsStream (at b p) us
    → length us + 1 < fuel
    → ReadsOn fuel b p rs (pending b us)
read_units-ReadsOn zero b p rs us v f = absurd (omega arith)
read_units-ReadsOn (suc fuel) b p rs [] v f =
    rw (drop_nil {A = ℕ} b.notch) (stops_empty fuel b p rs v)
read_units-ReadsOn (suc zero) b p rs (u ∷ us) v f = absurd (omega (arith, f))
read_units-ReadsOn (suc (suc fuel)) b p rs (u ∷ us) v f =
    let apart =
      (dist_step b.size p b.last_ack_pos (length us) v.in_ring.start v.in_ring.last_ack
        (omega (arith, v.count))).0 in
    elim (Bool-cases (rs == 0)) [
      | inl t ↦
          let e : rs ≡ 0 = ground (arith, t) in
          subst (λ (x : ℕ). ReadsOn (suc (suc fuel)) b p x (pending b (u ∷ us))) (sym e)
            (stops_full (suc fuel) b p (u ∷ us) v)
      | inr t ↦ elim (Bool-cases (ltb rs (length (drop b.notch u.payload)))) [
        | inl m ↦ fills-ReadsOn fuel b p rs u us v apart t m
        | inr m ↦ passes-ReadsOn (suc fuel) b p rs u us v apart t m (
            read_units-ReadsOn (suc fuel) (passed b p) (next_pos b.size p)
              (rs - length (drop b.notch u.payload)) us (passed-IsStream b p u us v)
              (omega (arith, f)))
      ]
    ]

-- If the acknowledged packets form a stream without a hole, `readBuffer` comes back with the first
-- `len` of the pending bytes, or with all of them if they are fewer, says how much room is left, and
-- leaves a buffer whose acknowledged packets form a stream with the other bytes pending.
pub read_buffer-Left :
    (b : RcvBuffer) (len : ℕ) (us : List RcvUnit)
    → IsStream b us
    → (b1 : RcvBuffer) × (read_buffer b len
        ≡ done (take len (pending b us), len - length (pending b us), b1))
      × Left b b1 (pending b us) len
unfolding read_buffer
read_buffer-Left b len us v = read_units-ReadsOn (b.size + 2) b b.start_pos len us v (
    omega (
      arith,
      v.count,
      dist-lt b.size b.start_pos b.last_ack_pos v.in_ring.start v.in_ring.last_ack,
    ))
