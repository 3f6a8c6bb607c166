-- ===== src/SndUList/Inserting.antt =====
-- udt4/src/queue.cpp: `insert` of `CSndUList`.
use udt_patch_for_epoll.Prelude.{
  ℕ, ◌+◌, ◌*◌, ◌≡◌, refl, ◌∙◌, Bool, true, false, Option, none, some, arith, ◌==◌, if◌then◌else◌,
  Option-cases, inl, inr,
}
use udt_patch_for_epoll.SndUList.{SndUList, parent, settle, appended, sift_up, insert_node, insert}
use udt_patch_for_epoll.SndUList.Order.{IsHeap, IsPlaced, IsValid, schedule}
use udt_patch_for_epoll.SndUList.Up.{
  UpPlaces, UpOrder, Sifted, sift_up-Sifted, sift_up-IsHeap, settle-IsPlaced, settle-schedule,
}

-- The schedule with `u` at `ts`, unless it has a time already.
abbrev pub planned : ℕ → Option ℕ → ℕ
planned ts none = ts
planned ts (some t) = t

appended-UpPlaces :
    (l : SndUList) (ts u : ℕ) → IsPlaced l → l.locs u ≡ none → UpPlaces (appended l ts u) u l.count
appended-UpPlaces l ts u v e = record {
  inside = omega arith;
  here = ground arith;
  placed = λ i a n. ground (arith, v.placed i);
  unset = e;
  on_heap = λ w i z. ground (arith, v.on_heap w i z);
}

appended-UpOrder :
    (l : SndUList) (ts u : ℕ) → IsValid l → l.locs u ≡ none → UpOrder (appended l ts u) l.count
appended-UpOrder l ts u v e =
    let p = v.places in
    let h = v.order in
    record {
      edges = λ c a b n. grind (arith, h c, p.placed c, p.placed (parent c));
      bridged = λ c a b z y. absurd (omega (arith, z, b, y));
    }

pub appended-Sifted :
    (l : SndUList) (ts u : ℕ)
    → IsPlaced l
    → l.locs u ≡ none
    → Sifted (appended l ts u) u (sift_up (l.count + 1) (appended l ts u) l.count)
appended-Sifted l ts u v e =
    sift_up-Sifted (l.count + 1) (appended l ts u) u l.count (appended-UpPlaces l ts u v e)

pub insert_node-new :
    (l : SndUList) (ts u : ℕ)
    → l.locs u ≡ none
    → insert_node l ts u ≡ settle (sift_up (l.count + 1) (appended l ts u) l.count) u
unfolding insert_node
insert_node-new l ts u e = rw (insert_node, e, insert_node) refl

pub insert_node-on : (l : SndUList) (ts u i : ℕ) → l.locs u ≡ some i → insert_node l ts u ≡ l
unfolding insert_node
insert_node-on l ts u i e = rw (insert_node, e, insert_node) refl

pub insert_node-IsPlaced : (l : SndUList) (ts u : ℕ) → IsPlaced l → IsPlaced (insert_node l ts u)
insert_node-IsPlaced l ts u v = elim (Option-cases (l.locs u)) [
  | inl e ↦ rw (insert_node-new l ts u e) (
      settle-IsPlaced (appended l ts u) u (sift_up (l.count + 1) (appended l ts u) l.count)
        (appended-Sifted l ts u v e))
  | inr (i, e) ↦ rw (insert_node-on l ts u i e) v
]

settle-IsHeap : (u : ℕ) (end : SndUList × ℕ) → IsHeap end.0 → IsHeap (settle end u)
settle-IsHeap u (r, q) h = h

pub insert_node-IsHeap : (l : SndUList) (ts u : ℕ) → IsValid l → IsHeap (insert_node l ts u)
insert_node-IsHeap l ts u v = elim (Option-cases (l.locs u)) [
  | inl e ↦
      let end = sift_up (l.count + 1) (appended l ts u) l.count in
      rw (insert_node-new l ts u e) (
        settle-IsHeap u end (
          sift_up-IsHeap (l.count + 1) (appended l ts u) l.count (omega arith) (omega arith)
            (appended-UpOrder l ts u v e)))
  | inr (i, e) ↦ rw (insert_node-on l ts u i e) v.order
]

pub insert_node-schedule :
    (l : SndUList) (ts u w : ℕ)
    → IsPlaced l
    → schedule (insert_node l ts u) w
      ≡ (if u == w then some (planned ts (schedule l u)) else schedule l w)
insert_node-schedule l ts u w v = elim (Option-cases (l.locs u)) [
  | inl e ↦
      let end = sift_up (l.count + 1) (appended l ts u) l.count in
      rw
        (
          insert_node-new l ts u e,
          settle-schedule (appended l ts u) u w end (appended-Sifted l ts u v e),
        )
        (grind (arith, e))
  | inr (i, e) ↦ rw (insert_node-on l ts u i e) (grind (arith, e))
]

-- A bigger array holds the same nodes.
abbrev pub enlarged : Bool → SndUList → SndUList
enlarged b l = if b then record l { array_length = l.array_length * 2 } else l

pub enlarged-IsPlaced : (b : Bool) (l : SndUList) → IsPlaced l → IsPlaced (enlarged b l)
enlarged-IsPlaced true l v = record { placed = v.placed; on_heap = v.on_heap }
enlarged-IsPlaced false l v = v

enlarged-IsHeap : (b : Bool) (l : SndUList) → IsHeap l → IsHeap (enlarged b l)
enlarged-IsHeap true l h = h
enlarged-IsHeap false l h = h

enlarged-schedule : (b : Bool) (l : SndUList) (w : ℕ) → schedule (enlarged b l) w ≡ schedule l w
enlarged-schedule true l w = refl
enlarged-schedule false l w = refl

pub insert-IsPlaced : (l : SndUList) (ts u : ℕ) → IsPlaced l → IsPlaced (insert l ts u)
unfolding insert
insert-IsPlaced l ts u v =
    let b = l.count == l.array_length in
    insert_node-IsPlaced (enlarged b l) ts u (enlarged-IsPlaced b l v)

-- `insert` keeps the heap in order and every position right.
pub insert-IsValid : (l : SndUList) (ts u : ℕ) → IsValid l → IsValid (insert l ts u)
unfolding insert
insert-IsValid l ts u v =
    let b = l.count == l.array_length in
    let places = enlarged-IsPlaced b l v.places in
    let order = enlarged-IsHeap b l v.order in
    record {
      order = insert_node-IsHeap (enlarged b l) ts u (record { order = order; places = places });
      places = insert_node-IsPlaced (enlarged b l) ts u places;
    }

-- After `insert` the socket is in the schedule, at the time given unless it had one already, and no
-- other socket's time is changed.
pub insert-schedule :
    (l : SndUList) (ts u w : ℕ)
    → IsPlaced l
    → schedule (insert l ts u) w
      ≡ (if u == w then some (planned ts (schedule l u)) else schedule l w)
unfolding insert
insert-schedule l ts u w v =
    let b = l.count == l.array_length in
    insert_node-schedule (enlarged b l) ts u w (enlarged-IsPlaced b l v)
    ∙ rw (enlarged-schedule b l u, enlarged-schedule b l w) refl
