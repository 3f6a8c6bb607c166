-- ===== src/RcvBuffer/Copying.antt =====
-- udt4/src/buffer.cpp: the copying loop of `readMsg`.
use mathlib.Core.Path.{subst}
use udt_patch_for_epoll.Prelude.{
  ℕ, zero, suc, ◌-◌, ◌<◌, ◌≤◌, ◌≡◌, ◌≢◌, refl, sym, ◌∙◌, Bool, true, false, ◌++◌, [], some, arith,
  ◌==◌, ltb, if◌then◌else◌, length, take, length-append, length-take, Bool-cases, inl, inr,
}
use udt_patch_for_epoll.SendMsgBuf.{Bytes}
use udt_patch_for_epoll.RcvBuffer.{
  RcvUnit, RcvBuffer, Run, done, next_pos, mark_read, read_msg_units, after_read,
}
use udt_patch_for_epoll.RcvBuffer.Positions.{dist, next_pos-lt, dist-next_pos}
use udt_patch_for_epoll.RcvBuffer.Found.{Filled}

-- What the loop of `readMsg` did: it copied no more than there was room for, and moved nothing.
pub record CopiedMsg (b : RcvBuffer) (rs : ℕ) (r : Run (Bytes × RcvBuffer)) : Type 0 where
  pub bytes : Bytes
  pub buffer : RcvBuffer
  pub returns : r ≡ done (bytes, buffer)
  pub within : length bytes ≤ rs
  pub size : buffer.size ≡ b.size
  pub start : buffer.start_pos ≡ b.start_pos
  pub last_ack : buffer.last_ack_pos ≡ b.last_ack_pos
  pub max_pos : buffer.max_pos ≡ b.max_pos

mark_read-Filled :
    (passack : Bool) (b : RcvBuffer) (p stop : ℕ) (u : RcvUnit)
    → p < b.size
    → stop < b.size
    → p ≢ stop
    → Filled b p stop
    → Filled (mark_read passack b p u) (next_pos b.size p) stop
mark_read-Filled false b p stop u h k n f = λ j m d.
    let (v, e) = f j m (ground arith) in
    let apart : (p == j) ≡ false = ground arith in (v, rw apart e)
mark_read-Filled true b p stop u h k n f = λ j m d.
    let (v, e) = f j m (ground arith) in
    let apart : (p == j) ≡ false = ground arith in (v, rw apart e)

mark_read_moves :
    (passack : Bool) (b : RcvBuffer) (p : ℕ) (u : RcvUnit)
    → let b' = mark_read passack b p u in
      (b'.size ≡ b.size)
      × (b'.start_pos ≡ b.start_pos)
      × (b'.last_ack_pos ≡ b.last_ack_pos)
      × (b'.max_pos ≡ b.max_pos)
mark_read_moves false b p u = (refl, refl, refl, refl)
mark_read_moves true b p u = (refl, refl, refl, refl)

-- A unit copied before the rest.
copied_before :
    (b b' : RcvBuffer) (rs n : ℕ) (front : Bytes) (r : Run (Bytes × RcvBuffer))
    → (b'.size ≡ b.size)
      × (b'.start_pos ≡ b.start_pos)
      × (b'.last_ack_pos ≡ b.last_ack_pos)
      × (b'.max_pos ≡ b.max_pos)
    → length front ≤ n
    → n ≤ rs
    → CopiedMsg b' (rs - n) r
    → CopiedMsg b rs (after_read front r)
copied_before b b' rs n front r (e0, e1, e2, e3) h k c = record {
  bytes = front ++ c.bytes;
  buffer = c.buffer;
  returns = rw c.returns refl;
  within = omega (arith, length-append front c.bytes, c.within, h, k);
  size = c.size ∙ e0;
  start = c.start ∙ e1;
  last_ack = c.last_ack ∙ e2;
  max_pos = c.max_pos ∙ e3;
}

at_head :
    (b : RcvBuffer) (p stop : ℕ)
    → p < b.size
    → stop < b.size
    → p ≢ stop
    → Filled b p stop
    → (u : RcvUnit) × (b.units p ≡ some u)
at_head b p stop h k n f = f p h (ground arith)

unit_fits :
    (rs : ℕ) (xs : Bytes)
    → let size = if ltb rs (length xs) then rs else length xs in
      (length (take size xs) ≤ size) × (size ≤ rs)
unit_fits rs xs =
    let n = if ltb rs (length xs) then rs else length xs in
    (omega (arith, length-take n xs), ground arith)

pub read_msg_units-CopiedMsg :
    (fuel : ℕ) (b : RcvBuffer) (passack : Bool) (p stop rs : ℕ)
    → p < b.size
    → stop < b.size
    → Filled b p stop
    → dist b.size p stop < fuel
    → CopiedMsg b rs (read_msg_units fuel b passack p stop rs)
unfolding read_msg_units
read_msg_units-CopiedMsg zero b passack p stop rs h k f d = absurd (omega arith)
read_msg_units-CopiedMsg (suc fuel) b passack p stop rs h k f d = elim (Bool-cases (p == stop)) [
  | inl t ↦
      rw (t, read_msg_units)
        (record {
          bytes = [];
          buffer = b;
          returns = refl;
          within = omega arith;
          size = refl;
          start = refl;
          last_ack = refl;
          max_pos = refl;
        })
  | inr t ↦
      (let n : p ≢ stop = λ e. absurd (ground (arith, t, e)) in
        let (u, e) = at_head b p stop h k n f in
        let size = if ltb rs (length u.payload) then rs else length u.payload in
        let b' = mark_read passack b p u in
        let fits = unit_fits rs u.payload in
        let m = mark_read_moves passack b p u in
        let next = next_pos b.size p in
        let rest =
          read_msg_units-CopiedMsg fuel b' passack next stop (rs - size)
            (omega (arith, m.0, next_pos-lt b.size p h)) (omega (arith, m.0, k))
            (mark_read-Filled passack b p stop u h k n f)
            (subst (λ (z : ℕ). dist z next stop < fuel) (sym m.0)
              (omega (arith, d, dist-next_pos b.size p stop h k n))) in
        rw (t, read_msg_units, e)
          (copied_before b b' rs size (take size u.payload) _ m fits.0 fits.1 rest))
]
