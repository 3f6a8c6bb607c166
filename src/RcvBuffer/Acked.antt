-- ===== src/RcvBuffer/Acked.antt =====
-- udt4/src/buffer.cpp: `ackData` on a stream.
use mathlib.Core.Path.{subst}
use udt_patch_for_epoll.Prelude.{
  ℕ, ◌+◌, ◌<◌, ◌≤◌, ◌≡◌, refl, sym, ap, ◌∙◌, List, [], ◌∷◌, ◌++◌, Option, arith, length, drop,
  append_assoc, length-append, drop-append_short,
}
use udt_patch_for_epoll.RcvBuffer.{RcvUnit, RcvBuffer, next_pos, rcv_data_size, ack_data}
use udt_patch_for_epoll.RcvBuffer.Positions.{dist-lt, dist_inj, dist-mod, mod_wrap-lt}
use udt_patch_for_epoll.RcvBuffer.Message.{Stands, Holds, payloads, pos_after}
use udt_patch_for_epoll.RcvBuffer.Whole.{dist-pos_after, pos_after-lt}
use udt_patch_for_epoll.RcvBuffer.Pending.{NotchIn, IsStream, pending}

Stands-append :
    (units : ℕ → Option RcvUnit) (size q : ℕ) (us vs : List RcvUnit)
    → Stands units size q us
    → Stands units size (pos_after size q us) vs
    → Stands units size q (us ++ vs)
Stands-append units size q [] vs h k = k
Stands-append units size q (u ∷ us) vs (e, h) k =
    (e, Stands-append units size (next_pos size q) us vs h k)

payloads-append : (us vs : List RcvUnit) → payloads (us ++ vs) ≡ payloads us ++ payloads vs
payloads-append [] vs = refl
payloads-append (u ∷ us) vs =
    ap (λ (xs : List ℕ). u.payload ++ xs) (payloads-append us vs)
    ∙ sym (append_assoc u.payload (payloads us) (payloads vs))

NotchIn-length : (n : ℕ) (us : List RcvUnit) → NotchIn n us → n ≤ length (payloads us)
NotchIn-length n [] h = omega (arith, h)
NotchIn-length n (u ∷ us) h = omega (arith, h, length-append u.payload (payloads us))

NotchIn-append : (n : ℕ) (us vs : List RcvUnit) → NotchIn n us → NotchIn n (us ++ vs)
NotchIn-append n [] [] h = h
NotchIn-append n [] (v ∷ vs) h = omega (arith, h)
NotchIn-append n (u ∷ us) vs h = h

stream_end :
    (b : RcvBuffer) (us : List RcvUnit)
    → IsStream b us
    → pos_after b.size b.start_pos us ≡ b.last_ack_pos
stream_end b us v =
    let start = v.in_ring.start in
    let last = v.in_ring.last_ack in
    dist_inj b.size b.start_pos (pos_after b.size b.start_pos us) b.last_ack_pos start
      (pos_after-lt b.size b.start_pos us start) last
      (dist-pos_after b.size b.start_pos us start
          (omega (arith, v.count, dist-lt b.size b.start_pos b.last_ack_pos start last))
        ∙ v.count)

-- If the acknowledged packets form a stream and the next packets stand after it without a hole,
-- with one slot of the ring empty, acknowledging those packets makes them part of the stream, and
-- their payloads are pending after the bytes that were.
pub ack_data-IsStream :
    (b : RcvBuffer) (us vs : List RcvUnit)
    → IsStream b us
    → Holds b b.last_ack_pos vs
    → rcv_data_size b + length vs < b.size
    → IsStream (ack_data b (length vs)) (us ++ vs)
      × (pending (ack_data b (length vs)) (us ++ vs) ≡ pending b us ++ payloads vs)
unfolding ack_data rcv_data_size
ack_data-IsStream b us vs v h d =
    let start = v.in_ring.start in
    let last = v.in_ring.last_ack in
    (
      record {
        in_ring = record {
          start = start;
          last_ack = mod_wrap-lt b.size b.last_ack_pos (length vs) last (omega (arith, d));
        };
        holds =
            Stands-append b.units b.size b.start_pos us vs v.holds
              (subst (λ (p : ℕ). Stands b.units b.size p vs) (sym (stream_end b us v)) h);
        count = omega (
          arith,
          length-append us vs,
          v.count,
          dist-mod b.size b.start_pos b.last_ack_pos (length vs) start last d,
        );
        notch_in = NotchIn-append b.notch us vs v.notch_in;
      },
      ap (drop b.notch) (payloads-append us vs)
          ∙ drop-append_short b.notch (payloads us) (payloads vs)
              (NotchIn-length b.notch us v.notch_in),
    )
