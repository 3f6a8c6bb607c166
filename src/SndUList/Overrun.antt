-- ===== src/SndUList/Overrun.antt =====
-- udt4/src/queue.cpp: which of `update` and `pop` can write behind the end of the heap's array.
use udt_patch_for_epoll.Prelude.{
  ℕ, suc, ◌<◌, ◌≡◌, Bool, true, false, not, ◌||◌, some, none, arith, ◌==◌, ltb, if◌then◌else◌,
  Bool-cases, Option-cases, inl, inr,
}
use udt_patch_for_epoll.SndUList.{
  SndUList, time_at, insert_node, remove, update, Packed, after_pack, pop,
}
use udt_patch_for_epoll.SndUList.Order.{IsPlaced, IsValid}
use udt_patch_for_epoll.SndUList.Updating.{update-new, update-on, rescheduled}
use udt_patch_for_epoll.SndUList.Room.{
  HasRoom, more_calls, insert_node-HasRoom, remove-HasRoom, reinserted-HasRoom,
}

rescheduled-HasRoom :
    (n m : ℕ) (l : SndUList) (u i : ℕ) (b first : Bool)
    → IsPlaced l
    → l.locs u ≡ some i
    → HasRoom n m l
    → HasRoom (suc n) (suc m) (rescheduled l u b first)
rescheduled-HasRoom n m l u i false first v e r =
    more_calls n m (suc n) (suc m) l (omega arith) (omega arith) r
rescheduled-HasRoom n m l u i true true v e r =
    let k = more_calls n m (suc n) (suc m) l (omega arith) (omega arith) r in
    record { long = k.long; few = k.few; fits = k.fits; late = k.late }
rescheduled-HasRoom n m l u i true false v e r =
    more_calls (suc n) m (suc n) (suc m) (insert_node (remove l u) 1 u) (omega arith) (omega arith)
      (reinserted-HasRoom n m l 1 u i v e r)

-- `update` may: it puts a socket that is not on the heap behind the last one, full or not.
pub update-HasRoom :
    (n m : ℕ) (l : SndUList) (u : ℕ) (b : Bool)
    → IsPlaced l
    → HasRoom n m l
    → HasRoom (suc n) (suc m) (update l u b)
update-HasRoom n m l u b v r = elim (Option-cases (l.locs u)) [
  | inl e ↦
      rw (update-new l u b e)
        (insert_node-HasRoom n m (suc m) l 1 u v (omega arith) (λ h k. omega arith) r)
  | inr (i, e) ↦ rw (update-on l u i b e) (rescheduled-HasRoom n m l u i b (i == 0) v e r)
]

after_pack-HasRoom :
    (n m : ℕ) (l : SndUList) (u : ℕ) (packed : Packed)
    → HasRoom n m (remove l u)
    → ((ts : ℕ) → HasRoom (suc n) m (insert_node (remove l u) ts u))
    → HasRoom (suc n) m (after_pack (remove l u) u packed).1
after_pack-HasRoom n m l u (size, ts) r h =
    let same = more_calls n m (suc n) m (remove l u) (omega arith) (omega arith) r in
    elim (Bool-cases (size == 0)) [
      | inl z ↦ rw z same
      | inr z ↦ elim (Bool-cases (ltb 0 ts)) [ inl t ↦ rw (z, t) (h ts) | inr t ↦ rw (z, t) same ]
    ]

popped-HasRoom :
    (n m : ℕ) (l : SndUList) (u : ℕ) (usable : Bool) (packed : Packed)
    → HasRoom n m (remove l u)
    → ((ts : ℕ) → HasRoom (suc n) m (insert_node (remove l u) ts u))
    → HasRoom
        (suc n)
        m
        (if not usable then (none, remove l u) else after_pack (remove l u) u packed).1
popped-HasRoom n m l u true packed r h = after_pack-HasRoom n m l u packed r h
popped-HasRoom n m l u false packed r h =
    more_calls n m (suc n) m (remove l u) (omega arith) (omega arith) r

-- `pop` cannot: it puts a socket back only after it took it out.
pub pop-HasRoom :
    (n m : ℕ) (l : SndUList) (now : ℕ) (is_usable : ℕ → Bool) (pack : ℕ → Packed)
    → IsValid l
    → HasRoom n m l
    → HasRoom (suc n) m (pop l now is_usable pack).1
unfolding pop
pop-HasRoom n m l now is_usable pack v r =
    let u = l.heap 0 in
    elim (Bool-cases (l.count == 0 || ltb now (time_at l 0))) [
      | inl e ↦ rw e (more_calls n m (suc n) m l (omega arith) (omega arith) r)
      | inr e ↦
          let k : 0 < l.count = ground (arith, e) in
          rw e (
            popped-HasRoom n m l u (is_usable u) (pack u) (remove-HasRoom n m l u v.places r)
              (λ ts. reinserted-HasRoom n m l ts u 0 v.places (v.places.placed 0 k) r))
    ]
