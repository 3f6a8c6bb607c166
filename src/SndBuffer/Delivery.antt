-- ===== src/SndBuffer/Delivery.antt =====
-- udt4/src/buffer.cpp: packets that arrive in order and are acknowledged one by one.
use udt_patch_for_epoll.Prelude.{
  ℕ, suc, ◌+◌, ◌%◌, ◌<◌, ◌≤◌, ◌≡◌, refl, sym, true, false, none, some, List, [], ◌∷◌, ◌++◌, map,
  arith, ◌==◌, ltb, length, append_assoc, append-nil,
}
use udt_patch_for_epoll.RcvBuffer.{
  RcvUnit, RcvBuffer, store, new_buffer, add_data, ack_data, rcv_data_size,
}
use udt_patch_for_epoll.RcvBuffer.Positions.{dist, dist_self, dist-mod, mod_wrap}
use udt_patch_for_epoll.RcvBuffer.Skip.{InRing}
use udt_patch_for_epoll.RcvBuffer.Whole.{Stands-store}
use udt_patch_for_epoll.RcvBuffer.Pending.{IsStream}
use udt_patch_for_epoll.RcvBuffer.Acked.{ack_data-IsStream}
use udt_patch_for_epoll.SndBuffer.{Block}
use udt_patch_for_epoll.SndBuffer.Transfer.{received}

-- The ring has these units and nothing behind them.
pub record HasOnly (b : RcvBuffer) (us : List RcvUnit) : Type 0 where
  pub is_stream : IsStream b us
  pub empty :
      (j : ℕ)
      → j < b.size
      → dist b.size b.start_pos b.last_ack_pos ≤ dist b.size b.start_pos j
      → b.units j ≡ none

abbrev pub deliver : RcvBuffer → List Block → RcvBuffer
deliver b [] = b
deliver b (p ∷ packets) = deliver (ack_data (add_data b (received p) 0).1 1) packets

abbrev stored : RcvBuffer → RcvUnit → RcvBuffer
stored b u = record b {
  units = store b.units b.last_ack_pos (some (record u { flag = 1 }));
  unit_count = b.unit_count + 1;
}

add_data-next :
    (b : RcvBuffer) (u : RcvUnit)
    → b.last_ack_pos < b.size
    → b.units b.last_ack_pos ≡ none
    → add_data b u 0 ≡ (true, stored b u)
unfolding add_data
add_data-next b u h e =
    let pos : (b.last_ack_pos + 0) % b.size ≡ b.last_ack_pos =
      ground (arith, mod_wrap b.size b.last_ack_pos 0 h) in
    let less : ltb b.max_pos 0 ≡ false = ground arith in rw (less, add_data, pos, e, less, pos) refl

deliver_one :
    (b : RcvBuffer) (u : RcvUnit) (us : List RcvUnit)
    → u.flag ≡ 1
    → dist b.size b.start_pos b.last_ack_pos + 1 < b.size
    → HasOnly b us
    → HasOnly (ack_data (stored b u) 1) (us ++ (record u { flag = 1 } ∷ []))
unfolding ack_data rcv_data_size
deliver_one b u us f d v =
    let start = v.is_stream.in_ring.start in
    let last = v.is_stream.in_ring.last_ack in
    let here : (b.last_ack_pos == b.last_ack_pos) ≡ true = ground arith in
    let kept : IsStream (stored b u) us = record {
      in_ring = record { start = start; last_ack = last };
      holds =
          Stands-store b.units (some (record u { flag = 1 })) b.size b.last_ack_pos b.start_pos us
            last start (omega (arith, v.is_stream.count)) v.is_stream.holds;
      count = v.is_stream.count;
      notch_in = v.is_stream.notch_in;
    } in
    let moved = dist-mod b.size b.start_pos b.last_ack_pos 1 start last d in
    record {
      is_stream =
          (ack_data-IsStream (stored b u) us (record u { flag = 1 } ∷ []) kept (rw here refl, tt)
            d).0;
      empty = λ j k e.
          let far : dist b.size b.start_pos b.last_ack_pos < dist b.size b.start_pos j =
            omega (arith, e, moved) in
          let apart : (b.last_ack_pos == j) ≡ false = ground (arith, far) in
          rw apart (v.empty j k (omega (arith, far)));
    }

one_more :
    (b : RcvBuffer) (u : RcvUnit) (n : ℕ)
    → InRing b
    → dist b.size b.start_pos b.last_ack_pos + suc n < b.size
    → let b1 = ack_data (stored b u) 1 in dist b1.size b1.start_pos b1.last_ack_pos + n < b1.size
unfolding ack_data
one_more b u n v d =
    omega
      (arith, d, dist-mod b.size b.start_pos b.last_ack_pos 1 v.start v.last_ack (omega (arith, d)))

-- Packets delivered in order make the ring longer by their units, as long as one slot stays empty.
pub deliver-HasOnly :
    (b : RcvBuffer) (packets : List Block) (us : List RcvUnit)
    → dist b.size b.start_pos b.last_ack_pos + length packets < b.size
    → HasOnly b us
    → HasOnly (deliver b packets) (us ++ map received packets)
deliver-HasOnly b [] us d v = rw (append-nil us) v
deliver-HasOnly b (p ∷ packets) us d v =
    let u = received p in
    let ring = v.is_stream.in_ring in
    let free = v.empty b.last_ack_pos ring.last_ack (omega arith) in
    let one = deliver_one b u us refl (omega (arith, d)) v in
    rw (add_data-next b u ring.last_ack free, ← append_assoc us (u ∷ []) (map received packets))
      (deliver-HasOnly (ack_data (stored b u) 1) packets (us ++ (u ∷ []))
        (one_more b u (length packets) ring d) one)

pub new_buffer-HasOnly : (size unit_count : ℕ) → 0 < size → HasOnly (new_buffer size unit_count) []
unfolding new_buffer
new_buffer-HasOnly size unit_count h = record {
  is_stream = record {
    in_ring = record { start = h; last_ack = h };
    holds = tt;
    count = sym (dist_self size 0);
    notch_in = refl;
  };
  empty = λ j k e. refl;
}
