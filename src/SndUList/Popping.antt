-- ===== src/SndUList/Popping.antt =====
-- udt4/src/queue.cpp: `pop` of `CSndUList` against the schedule.
use udt_patch_for_epoll.Prelude.{
  ℕ, ◌<◌, ◌≤◌, ◌≡◌, refl, ap, ◌∙◌, Bool, true, false, not, ◌&&◌, ◌||◌, Option, none, some, arith,
  ◌==◌, ltb, if◌then◌else◌, Bool-cases, inl, inr, ◌⊎◌,
}
use udt_patch_for_epoll.SndUList.{
  SndUList, time_at, remove, Packed, after_pack, next_proc_time, pop,
}
use udt_patch_for_epoll.SndUList.Order.{
  IsHeap, IsPlaced, IsValid, scheduled, schedule, root_earliest,
}
use udt_patch_for_epoll.SndUList.Inserting.{
  insert_node-IsPlaced, insert_node-IsHeap, insert_node-schedule,
}
use udt_patch_for_epoll.SndUList.Removing.{remove-IsPlaced, remove-IsHeap, remove-schedule}

-- The socket `u` is due: its time has come, and nobody's is earlier.
pub record IsDue (l : SndUList) (now u : ℕ) : Type 0 where
  pub time : ℕ
  pub here : schedule l u ≡ some time
  pub come : time ≤ now
  pub earliest : (w t : ℕ) → schedule l w ≡ some t → time ≤ t

-- The time of `u` after it packed a packet, if it stays in the schedule.
abbrev pub again : Bool → Packed → Option ℕ
again usable (size, ts) = if usable && not (size == 0) && ltb 0 ts then some ts else none

abbrev pub answer : Bool → Packed → ℕ → Option ℕ
answer usable (size, ts) u = if usable && not (size == 0) then some u else none

scheduled-some :
    (t x : ℕ) (o : Option ℕ) → scheduled t o ≡ some x → (i : ℕ) × (o ≡ some i) × (t ≡ x)
scheduled-some t x none e = grind (arith, e)
scheduled-some t x (some i) e = (i, refl, grind (arith, e))

scheduled-times :
    (l : SndUList) (w t : ℕ)
    → IsPlaced l
    → schedule l w ≡ some t
    → (i : ℕ) × (i < l.count) × (time_at l i ≡ t)
scheduled-times l w t v e =
    let (i, o, z) = scheduled-some (l.times w) t (l.locs w) e in
    let here = v.on_heap w i o in (i, here.0, ap l.times here.1 ∙ z)

root-schedule :
    (l : SndUList) → IsValid l → 0 < l.count → schedule l (l.heap 0) ≡ some (time_at l 0)
root-schedule l v k = ap (scheduled (time_at l 0)) (v.places.placed 0 k)

root_before_all : (l : SndUList) (w t : ℕ) → IsValid l → schedule l w ≡ some t → time_at l 0 ≤ t
root_before_all l w t v e =
    let (i, inside, z) = scheduled-times l w t v.places e in
    omega (arith, root_earliest l i v.order inside, z)

root-IsDue :
    (l : SndUList) (now : ℕ) → IsValid l → 0 < l.count → time_at l 0 ≤ now → IsDue l now (l.heap 0)
root-IsDue l now v k c = record {
  time = time_at l 0;
  here = root-schedule l v k;
  come = c;
  earliest = λ w t e. root_before_all l w t v e;
}

-- What `pop` does with the socket `u` that it takes from the list.
pub record Popped (l : SndUList) (u : ℕ) (usable : Bool) (packed : Packed)
    (result : Option ℕ × SndUList) : Type 0 where
  pub valid : IsValid result.1
  pub answered : result.0 ≡ answer usable packed u
  pub rescheduled :
      (w : ℕ) → schedule result.1 w ≡ (if u == w then again usable packed else schedule l w)

reinserted-Popped :
    (l : SndUList) (u size ts : ℕ)
    → IsValid l
    → schedule l u ≡ none
    → Popped l u true (size, ts) (after_pack l u (size, ts))
reinserted-Popped l u size ts v e = elim (Bool-cases (size == 0)) [
  | inl z ↦
      rw (z)
        (record { valid = v; answered = ground (arith, z); rescheduled = λ w. grind (arith, e, z) })
  | inr z ↦ elim (Bool-cases (ltb 0 ts)) [
    | inl b ↦
        rw (z, b)
          (record {
            valid = record {
              order = insert_node-IsHeap l ts u v;
              places = insert_node-IsPlaced l ts u v.places;
            };
            answered = ground (arith, z);
            rescheduled = λ w. insert_node-schedule l ts u w v.places ∙ grind (arith, e, z, b);
          })
    | inr b ↦
        rw (z, b)
          (record {
            valid = v;
            answered = ground (arith, z);
            rescheduled = λ w. grind (arith, e, z, b);
          })
  ]
]

root-removed-IsValid : (l : SndUList) → IsValid l → 0 < l.count → IsValid (remove l (l.heap 0))
root-removed-IsValid l v k = record {
  order =
      remove-IsHeap l (l.heap 0) v (λ i e p. absurd (grind (arith, e, v.places.placed 0, k, p)));
  places = remove-IsPlaced l (l.heap 0) v.places;
}

removed-Popped :
    (l : SndUList) (u : ℕ) (usable : Bool) (packed : Packed)
    → IsValid l
    → schedule l u ≡ none
    → Popped l u usable packed (if not usable then (none, l) else after_pack l u packed)
removed-Popped l u true (size, ts) v e = reinserted-Popped l u size ts v e
removed-Popped l u false (size, ts) v e = record {
  valid = v;
  answered = refl;
  rescheduled = λ w. grind (arith, e);
}

pub self_removed :
    (u : ℕ) {a : Option ℕ} (b : Option ℕ) → a ≡ (if u == u then none else b) → a ≡ none
self_removed u b e = ground (arith, e)

others_kept :
    (u w : ℕ) {a : Option ℕ} (x b : Option ℕ)
    → a ≡ (if u == w then none else b)
    → (if u == w then x else a) ≡ (if u == w then x else b)
others_kept u w x b e = grind (arith, e)

first-Popped :
    (l : SndUList) (usable : Bool) (packed : Packed)
    → IsValid l
    → 0 < l.count
    → Popped l (l.heap 0) usable packed (
        if not usable
        then (none, remove l (l.heap 0))
        else after_pack (remove l (l.heap 0)) (l.heap 0) packed)
first-Popped l usable packed v k =
    let u = l.heap 0 in
    let p =
      removed-Popped (remove l u) u usable packed (root-removed-IsValid l v k)
        (self_removed u (schedule l u) (remove-schedule l u u v.places)) in
    record {
      valid = p.valid;
      answered = p.answered;
      rescheduled = λ w.
          p.rescheduled w
          ∙ others_kept u w (again usable packed) (schedule l w) (remove-schedule l u w v.places);
    }

later :
    (l : SndUList) (now w t : ℕ)
    → IsHeap l
    → (i : ℕ) × (i < l.count) × (time_at l i ≡ t)
    → (l.count == 0 || ltb now (time_at l 0)) ≡ true
    → now < t
later l now w t h (i, inside, z) e = ground (arith, e, root_earliest l i h inside, z, inside)

-- `pop` answers nothing and changes nothing if no socket's time has come. Else it takes from the
-- schedule a socket that is due, the earliest, and no other changes; the socket is the answer if it
-- is usable and packed something, and is scheduled again if the packing also gave a next time.
pub pop_lem :
    (l : SndUList) (now : ℕ) (is_usable : ℕ → Bool) (pack : ℕ → Packed)
    → IsValid l
    → (((w t : ℕ) → schedule l w ≡ some t → now < t) × (pop l now is_usable pack ≡ (none, l)))
      ⊎ ((u : ℕ) × IsDue l now u × Popped l u (is_usable u) (pack u) (pop l now is_usable pack))
unfolding pop
pop_lem l now is_usable pack v = elim (Bool-cases (l.count == 0 || ltb now (time_at l 0))) [
  | inl e ↦ inl (λ w t z. later l now w t v.order (scheduled-times l w t v.places z) e, rw (e) refl)
  | inr e ↦ inr (
    l.heap 0,
    root-IsDue l now v (ground (arith, e)) (ground (arith, e)),
    rw (e) (first-Popped l (is_usable (l.heap 0)) (pack (l.heap 0)) v (ground (arith, e))),
  )
]

pub pop-IsValid :
    (l : SndUList) (now : ℕ) (is_usable : ℕ → Bool) (pack : ℕ → Packed)
    → IsValid l
    → IsValid (pop l now is_usable pack).1
pop-IsValid l now is_usable pack v = elim (pop_lem l now is_usable pack v) [
  | inl (later, e) ↦ rw (e) v
  | inr (u, due, popped) ↦ popped.valid
]

-- `getNextProcTime` of a list in order that is not empty is the time of the earliest socket.
pub next_proc_time-earliest :
    (l : SndUList)
    → IsValid l
    → 0 < l.count
    → ((u : ℕ) × (schedule l u ≡ some (next_proc_time l)))
      × ((w t : ℕ) → schedule l w ≡ some t → next_proc_time l ≤ t)
unfolding next_proc_time
next_proc_time-earliest l v k =
    let busy : (l.count == 0) ≡ false = ground (arith, k) in
    rw (busy) ((l.heap 0, root-schedule l v k), λ w t e. root_before_all l w t v e)
