-- ===== src/SndUList/Updating.antt =====
-- udt4/src/queue.cpp: `update` of `CSndUList`.
use udt_patch_for_epoll.Prelude.{
  put, ℕ, ◌+◌, ◌≡◌, refl, Bool, true, false, not, Option, none, some, arith, ◌==◌, if◌then◌else◌,
  Option-cases, inl, inr,
}
use udt_patch_for_epoll.SndUList.{SndUList, insert_node, remove, update}
use udt_patch_for_epoll.SndUList.Order.{IsPlaced, IsValid, schedule}
use udt_patch_for_epoll.SndUList.Inserting.{
  planned, insert_node-IsPlaced, insert_node-IsHeap, insert_node-schedule,
}
use udt_patch_for_epoll.SndUList.Removing.{remove-IsPlaced, remove-schedule}
use udt_patch_for_epoll.SndUList.Popping.{self_removed}

pub update-new :
    (l : SndUList) (u : ℕ) (b : Bool) → l.locs u ≡ none → update l u b ≡ insert_node l 1 u
unfolding update
update-new l u b e = rw (update, e, update) refl

pub update-on :
    (l : SndUList) (u i : ℕ) (b : Bool)
    → l.locs u ≡ some i
    → update l u b ≡ (
        if not b
        then l
        else if i == 0
        then record l { times = put l.times u 1; interrupts = l.interrupts + 1 }
        else insert_node (remove l u) 1 u)
unfolding update
update-on l u i b e = rw (update, e, update) refl

abbrev pub rescheduled : SndUList → ℕ → Bool → Bool → SndUList
rescheduled l u b first =
    if not b
    then l
    else if first
    then record l { times = put l.times u 1; interrupts = l.interrupts + 1 }
    else insert_node (remove l u) 1 u

rescheduled-IsPlaced :
    (l : SndUList) (u : ℕ) (b first : Bool) → IsPlaced l → IsPlaced (rescheduled l u b first)
rescheduled-IsPlaced l u false first v = v
rescheduled-IsPlaced l u true true v = record { placed = v.placed; on_heap = v.on_heap }
rescheduled-IsPlaced l u true false v =
    insert_node-IsPlaced (remove l u) 1 u (remove-IsPlaced l u v)

moved-schedule :
    (u w : ℕ) {a r : Option ℕ} (b o : Option ℕ)
    → a ≡ (if u == w then some (planned 1 o) else r)
    → o ≡ none
    → r ≡ (if u == w then none else b)
    → a ≡ (if u == w then some 1 else b)
moved-schedule u w b o e f g = grind (arith, e, f, g)

rescheduled-schedule :
    (l : SndUList) (u w i : ℕ) (b first : Bool)
    → IsPlaced l
    → l.locs u ≡ some i
    → schedule (rescheduled l u b first) w
      ≡ (if u == w then some (if b then 1 else planned 1 (schedule l u)) else schedule l w)
rescheduled-schedule l u w i false first v e = grind (arith, e)
rescheduled-schedule l u w i true true v e = grind (arith, e)
rescheduled-schedule l u w i true false v e =
    moved-schedule u w (schedule l w) (schedule (remove l u) u)
      (insert_node-schedule (remove l u) 1 u w (remove-IsPlaced l u v))
      (self_removed u (schedule l u) (remove-schedule l u u v)) (remove-schedule l u w v)

pub update-IsPlaced : (l : SndUList) (u : ℕ) (b : Bool) → IsPlaced l → IsPlaced (update l u b)
update-IsPlaced l u b v = elim (Option-cases (l.locs u)) [
  | inl e ↦ rw (update-new l u b e) (insert_node-IsPlaced l 1 u v)
  | inr (i, e) ↦ rw (update-on l u i b e) (rescheduled-IsPlaced l u b (i == 0) v)
]

pub update-keeps-IsValid : (l : SndUList) (u : ℕ) → IsValid l → IsValid (update l u false)
update-keeps-IsValid l u v = elim (Option-cases (l.locs u)) [
  | inl e ↦
      rw (update-new l u false e) (record {
        order = insert_node-IsHeap l 1 u v;
        places = insert_node-IsPlaced l 1 u v.places;
      })
  | inr (i, e) ↦ rw (update-on l u i false e) v
]

pub update-schedule :
    (l : SndUList) (u w : ℕ) (b : Bool)
    → IsPlaced l
    → schedule (update l u b) w
      ≡ (if u == w then some (if b then 1 else planned 1 (schedule l u)) else schedule l w)
update-schedule l u w b v = elim (Option-cases (l.locs u)) [
  | inl e ↦ rw (update-new l u b e, insert_node-schedule l 1 u w v) (grind (arith, e))
  | inr (i, e) ↦ rw (update-on l u i b e) (rescheduled-schedule l u w i b (i == 0) v e)
]
