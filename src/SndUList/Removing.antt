-- ===== src/SndUList/Removing.antt =====
-- udt4/src/queue.cpp: `remove` of `CSndUList`.
use udt_patch_for_epoll.Prelude.{
  ℕ, ◌+◌, ◌-◌, ◌<◌, ◌≤◌, ◌≡◌, ◌≢◌, refl, ◌∙◌, Bool, true, false, Option, none, some, arith, ◌==◌,
  if◌then◌else◌,
}
use udt_patch_for_epoll.SndUList.{
  SndUList, parent, time_at, replaced, cleared, detached, sift_down, remove,
}
use udt_patch_for_epoll.SndUList.Order.{IsHeap, IsPlaced, IsValid, schedule}
use udt_patch_for_epoll.SndUList.Down.{DownPlaces, DownOrder, sift_down-Sunk, sift_down-IsHeap}

-- The last node may stand at `i`: it is not earlier than the node above.
abbrev pub FitsAt : SndUList → ℕ → Type 0
FitsAt l i = 0 < i → time_at l (parent i) ≤ time_at l (l.count - 1)

pub replaced-DownPlaces :
    (l : SndUList) (u i : ℕ) → IsPlaced l → l.locs u ≡ some i → DownPlaces (replaced l i) u
replaced-DownPlaces l u i v e =
    let here = v.on_heap u i e in
    let inside : i < l.count = here.0 in
    let at : l.heap i ≡ u = here.1 in
    record {
      placed = λ j a. grind (arith, v.placed j, v.placed (l.count - 1), inside, at);
      gone = λ j a. grind (arith, v.placed j, v.placed (l.count - 1), inside, at, e);
      on_heap = λ w j z y. grind (arith, v.on_heap w j, v.placed (l.count - 1), inside, at);
    }

replaced-DownOrder :
    (l : SndUList) (i : ℕ) → IsHeap l → i < l.count → FitsAt l i → DownOrder (replaced l i) i
replaced-DownOrder l i h k fits = record {
  edges = λ c a b n. ground (arith, h c, fits);
  bridged = λ c a b z y. ground (arith, h c, h i);
}

-- Whether the sending worker is woken plays no part in the order.
abbrev pub woken : Bool → SndUList → SndUList
woken b l = if b then record l { interrupts = l.interrupts + 1 } else l

cleared-IsPlaced : (l : SndUList) (u : ℕ) → DownPlaces l u → IsPlaced (cleared l u)
cleared-IsPlaced l u v = record {
  placed = λ i a. grind (arith, v.placed i, v.gone i);
  on_heap = λ w i e. grind (arith, v.on_heap w i);
}

cleared-schedule :
    (l : SndUList) (u w : ℕ) → schedule (cleared l u) w ≡ (if u == w then none else schedule l w)
cleared-schedule l u w = grind arith

replaced-schedule :
    (l : SndUList) (u i w : ℕ)
    → IsPlaced l
    → l.locs u ≡ some i
    → w ≢ u
    → schedule (replaced l i) w ≡ schedule l w
replaced-schedule l u i w v e n =
    let here = v.on_heap u i e in grind (arith, v.placed (l.count - 1), here.0, here.1)

unless_removed :
    (u w : ℕ) {a b : Option ℕ}
    → (w ≢ u → a ≡ b)
    → (if u == w then none else a) ≡ (if u == w then none else b)
unless_removed u w f = grind (arith, f)

record Detached (l : SndUList) (u : ℕ) (end : SndUList) : Type 0 where
  places : IsPlaced end
  removed : (w : ℕ) → schedule end w ≡ (if u == w then none else schedule l w)

detached-Detached :
    (l : SndUList) (u : ℕ) (o : Option ℕ)
    → IsPlaced l
    → l.locs u ≡ o
    → Detached l u (detached l u o)
detached-Detached l u none v e = record { places = v; removed = λ w. grind (arith, e) }
detached-Detached l u (some i) v e =
    let s = sift_down-Sunk l.count (replaced l i) u i (replaced-DownPlaces l u i v e) in
    let end = sift_down l.count (replaced l i) i in
    record {
      places = cleared-IsPlaced end u s.places;
      removed = λ w.
          cleared-schedule end u w
          ∙ unless_removed u w (λ n. s.scheduled_alike w ∙ replaced-schedule l u i w v e n);
    }

detached-IsHeap :
    (l : SndUList) (u : ℕ) (o : Option ℕ)
    → IsValid l
    → l.locs u ≡ o
    → ((i : ℕ) → o ≡ some i → FitsAt l i)
    → IsHeap (detached l u o)
detached-IsHeap l u none v e fits = v.order
detached-IsHeap l u (some i) v e fits =
    sift_down-IsHeap l.count (replaced l i) i (omega arith)
      (replaced-DownOrder l i v.order (v.places.on_heap u i e).0 (fits i refl))

woken-IsPlaced : (b : Bool) (l : SndUList) → IsPlaced l → IsPlaced (woken b l)
woken-IsPlaced true l v = record { placed = v.placed; on_heap = v.on_heap }
woken-IsPlaced false l v = v

woken-IsHeap : (b : Bool) (l : SndUList) → IsHeap l → IsHeap (woken b l)
woken-IsHeap true l h = h
woken-IsHeap false l h = h

woken-schedule : (b : Bool) (l : SndUList) (w : ℕ) → schedule (woken b l) w ≡ schedule l w
woken-schedule true l w = refl
woken-schedule false l w = refl

pub remove-IsPlaced : (l : SndUList) (u : ℕ) → IsPlaced l → IsPlaced (remove l u)
unfolding remove
remove-IsPlaced l u v =
    let end = detached l u (l.locs u) in
    woken-IsPlaced (end.count == 1) end (detached-Detached l u (l.locs u) v refl).places

pub remove-IsHeap :
    (l : SndUList) (u : ℕ)
    → IsValid l
    → ((i : ℕ) → l.locs u ≡ some i → FitsAt l i)
    → IsHeap (remove l u)
unfolding remove
remove-IsHeap l u v fits =
    let end = detached l u (l.locs u) in
    woken-IsHeap (end.count == 1) end (detached-IsHeap l u (l.locs u) v refl fits)

pub remove-schedule :
    (l : SndUList) (u w : ℕ)
    → IsPlaced l
    → schedule (remove l u) w ≡ (if u == w then none else schedule l w)
unfolding remove
remove-schedule l u w v =
    let end = detached l u (l.locs u) in
    woken-schedule (end.count == 1) end w ∙ (detached-Detached l u (l.locs u) v refl).removed w
