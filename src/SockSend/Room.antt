-- ===== src/SockSend/Room.antt =====
-- udt4/src/core.cpp: the room that `sendmsg` asks for, in packets.
use native.Mathlib.Nat.{
  div-le_of_le-mul, div-lt_iff_lt-mul, add-mul-mod_self_right, mod-eq_of_lt, mul_comm,
}
use udt_patch_for_epoll.Prelude.{
  ℕ, ◌+◌, ◌*◌, ◌/◌, ◌%◌, ◌<◌, ◌≤◌, ◌≡◌, ◌≢◌, sym, ap, ◌∙◌, arith, ◌==◌, Bool-cases, inl, inr,
}
use udt_patch_for_epoll.SndBuffer.{packets_of}

multiple_mod : (k mss : ℕ) → 0 < mss → k * mss % mss ≡ 0
multiple_mod k mss h =
    let e : 0 + k * mss ≡ k * mss = omega arith in
    ap (λ x. x % mss) (sym e) ∙ add-mul-mod_self_right 0 k mss ∙ mod-eq_of_lt h

-- Bytes for which there is room are no more packets than there are places.
pub packets_fit : (len k mss : ℕ) → 0 < mss → len ≤ k * mss → packets_of len mss ≤ k
packets_fit len k mss h l = elim (Bool-cases (len % mss == 0)) [
  | inl t ↦ rw t (div-le_of_le-mul mss (omega (arith, l, mul_comm k mss)))
  | inr t ↦
      let apart : len ≢ k * mss =
        λ e. absurd (ground (arith, t, ap (λ x. x % mss) e, multiple_mod k mss h)) in
      let less : len < k * mss = ground (arith, l, apart) in
      let below : len / mss < k = (div-lt_iff_lt-mul {x = len} {y = k} h).1 less in
      rw t (omega (arith, below))
]
