-- ===== src/RcvBuffer/Pending.antt =====
-- udt4/src/buffer.cpp: the rounds of the loop of `readBuffer`.
use udt_patch_for_epoll.Prelude.{
  ℕ, suc, ◌+◌, ◌-◌, ◌<◌, ◌≤◌, ◌≡◌, refl, sym, ap, ◌∙◌, true, false, ◌||◌, List, [], ◌∷◌, ◌++◌, some,
  arith, ◌==◌, ltb, length, take, drop, take_nil, drop_nil, take-append_short, take-append,
  drop-append_short, length-append, length-drop,
}
use udt_patch_for_epoll.SendMsgBuf.{Bytes}
use udt_patch_for_epoll.RcvBuffer.{RcvUnit, RcvBuffer, done, next_pos, release, read_units}
use udt_patch_for_epoll.RcvBuffer.Positions.{dist}
use udt_patch_for_epoll.RcvBuffer.Skip.{InRing}
use udt_patch_for_epoll.RcvBuffer.Message.{Holds, payloads}

-- The notch lies in the first unit.
abbrev pub NotchIn : ℕ → List RcvUnit → Type 0
NotchIn n [] = n ≡ 0
NotchIn n (u ∷ us) = n ≤ length u.payload

-- The acknowledged packets of a stream are these units, without a hole.
pub record IsStream (b : RcvBuffer) (us : List RcvUnit) : Type 0 where
  pub in_ring : InRing b
  pub holds : Holds b b.start_pos us
  pub count : length us ≡ dist b.size b.start_pos b.last_ack_pos
  pub notch_in : NotchIn b.notch us

-- The bytes that the application has not read.
abbrev pub pending : RcvBuffer → List RcvUnit → Bytes
pending b us = drop b.notch (payloads us)

-- What the loop of `readBuffer` leaves, with `bytes` pending and room for `rs` before it.
pub record Left (b b1 : RcvBuffer) (bytes : Bytes) (rs : ℕ) : Type 0 where
  pub units : List RcvUnit
  pub is_stream : IsStream b1 units
  pub rest : pending b1 units ≡ drop rs bytes
  pub size : b1.size ≡ b.size
  pub last_ack : b1.last_ack_pos ≡ b.last_ack_pos

abbrev pub ReadsOn : ℕ → RcvBuffer → ℕ → ℕ → Bytes → Type 0
ReadsOn fuel b p rs bytes =
    (b1 : RcvBuffer) × (read_units fuel b p rs ≡ done (take rs bytes, rs - length bytes, b1))
    × Left b b1 bytes rs

abbrev pub at : RcvBuffer → ℕ → RcvBuffer
at b p = record b { start_pos = p }

-- The loop stops at the end of what is acknowledged.
pub stops_empty :
    (fuel : ℕ) (b : RcvBuffer) (p rs : ℕ) → IsStream (at b p) [] → ReadsOn (suc fuel) b p rs []
unfolding read_units
stops_empty fuel b p rs v =
    let here : (p == b.last_ack_pos) ≡ true =
      ground (arith, v.count, v.in_ring.start, v.in_ring.last_ack) in
    let e : rs - 0 ≡ rs = omega arith in
    rw (read_units, here, take_nil {A = ℕ} rs, e)
      (
        at b p,
        refl,
        record {
          units = [];
          is_stream = v;
          rest = drop_nil b.notch ∙ sym (drop_nil rs);
          size = refl;
          last_ack = refl;
        },
      )

-- It stops without room.
pub stops_full :
    (fuel : ℕ) (b : RcvBuffer) (p : ℕ) (us : List RcvUnit)
    → IsStream (at b p) us
    → ReadsOn (suc fuel) b p 0 (pending b us)
unfolding read_units
stops_full fuel b p us v =
    let here : (p == b.last_ack_pos || 0 == 0) ≡ true = ground arith in
    let e : 0 - length (pending b us) ≡ 0 = omega arith in
    rw (read_units, here, e)
      (
        at b p,
        refl,
        record { units = us; is_stream = v; rest = refl; size = refl; last_ack = refl },
      )

-- The pending bytes are those of the first unit, then the others.
pub pending_head :
    (n : ℕ) (u : RcvUnit) (us : List RcvUnit)
    → n ≤ length u.payload
    → drop n (payloads (u ∷ us)) ≡ drop n u.payload ++ payloads us
pending_head n u us h = drop-append_short n u.payload (payloads us) h

abbrev pub notched : RcvBuffer → ℕ → RcvBuffer
notched b rs = record b { notch = b.notch + rs }

pub notched-IsStream :
    (b : RcvBuffer) (p rs : ℕ) (u : RcvUnit) (us : List RcvUnit)
    → IsStream (at b p) (u ∷ us)
    → rs < length (drop b.notch u.payload)
    → IsStream (at (notched b rs) p) (u ∷ us)
notched-IsStream b p rs u us v more = record {
  in_ring = record { start = v.in_ring.start; last_ack = v.in_ring.last_ack };
  holds = v.holds;
  count = v.count;
  notch_in = omega (arith, more, length-drop b.notch u.payload);
}

-- A unit that holds more than there is room for fills the room.
pub fills :
    (fuel : ℕ) (b b1 : RcvBuffer) (p rs : ℕ) (u : RcvUnit) (ys : Bytes)
    → b.units p ≡ some u
    → (p == b.last_ack_pos) ≡ false
    → (rs == 0) ≡ false
    → ltb rs (length (drop b.notch u.payload)) ≡ true
    → read_units fuel (notched b rs) p 0 ≡ done ([], 0, b1)
    → read_units (suc fuel) b p rs
      ≡ done
          (take rs (drop b.notch u.payload ++ ys), rs - length (drop b.notch u.payload ++ ys), b1)
unfolding read_units
fills fuel b b1 p rs u ys e apart z t r =
    let more : rs < length (drop b.notch u.payload) = ground (arith, t) in
    let none_left : rs - rs ≡ 0 = omega arith in
    let test : (ltb rs rs || rs == length (drop b.notch u.payload)) ≡ false =
      ground (arith, more) in
    let short : rs - length (drop b.notch u.payload ++ ys) ≡ 0 =
      omega (arith, more, length-append (drop b.notch u.payload) ys) in
    rw (apart, z, read_units, e, t, test, t, none_left, r, short)
      (ap (λ (zs : Bytes). done (zs, 0, b1))
        (take-append_short rs (drop b.notch u.payload) ys (omega (arith, more))))

-- A unit that there is room for is passed.
pub passes :
    (fuel : ℕ) (b b1 : RcvBuffer) (p rs : ℕ) (u : RcvUnit) (ys : Bytes)
    → b.units p ≡ some u
    → (p == b.last_ack_pos) ≡ false
    → (rs == 0) ≡ false
    → ltb rs (length (drop b.notch u.payload)) ≡ false
    → let n = length (drop b.notch u.payload) in
      read_units fuel (record (release b p) { notch = 0 }) (next_pos b.size p) (rs - n)
        ≡ done (take (rs - n) ys, rs - n - length ys, b1)
      → read_units (suc fuel) b p rs
        ≡ done
            (take rs (drop b.notch u.payload ++ ys), rs - length (drop b.notch u.payload ++ ys), b1)
unfolding read_units
passes fuel b b1 p rs u ys e apart z t r =
    let n = length (drop b.notch u.payload) in
    let fits : n ≤ rs = ground (arith, t) in
    let test : (ltb n rs || rs == n) ≡ true = ground (arith, fits) in
    let left : rs - n - length ys ≡ rs - length (drop b.notch u.payload ++ ys) =
      omega (arith, length-append (drop b.notch u.payload) ys) in
    rw (apart, z, read_units, e, t, test, t, r, left)
      (ap (λ (zs : Bytes). done (zs, rs - length (drop b.notch u.payload ++ ys), b1))
        (take-append rs (drop b.notch u.payload) ys fits))
