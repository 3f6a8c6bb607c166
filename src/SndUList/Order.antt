-- ===== src/SndUList/Order.antt =====
-- udt4/src/queue.cpp: the order of the heap of `CSndUList` and the locations that its nodes keep.
use udt_patch_for_epoll.Prelude.{ℕ, zero, suc, ◌<◌, ◌≤◌, ◌≡◌, Option, none, some, arith}
use udt_patch_for_epoll.SndUList.{SndUList, parent, time_at}

-- No node is earlier than the one above it.
abbrev pub IsHeap : SndUList → Type 0
IsHeap l = (c : ℕ) → 0 < c → c < l.count → time_at l (parent c) ≤ time_at l c

-- The nodes on the heap know their positions, and a node with a position stands there.
pub record IsPlaced (l : SndUList) : Type 0 where
  pub placed : (i : ℕ) → i < l.count → l.locs (l.heap i) ≡ some i
  pub on_heap : (w i : ℕ) → l.locs w ≡ some i → (i < l.count) × (l.heap i ≡ w)

pub record IsValid (l : SndUList) : Type 0 where
  pub order : IsHeap l
  pub places : IsPlaced l

-- What the list stands for: the sockets on the heap, each with its time.
abbrev pub scheduled : ℕ → Option ℕ → Option ℕ
scheduled t none = none
scheduled t (some i) = some t

abbrev pub schedule : SndUList → ℕ → Option ℕ
schedule l w = scheduled (l.times w) (l.locs w)

root_before :
    (fuel : ℕ) (l : SndUList) (i : ℕ)
    → IsHeap l
    → i < fuel
    → i < l.count
    → time_at l 0 ≤ time_at l i
root_before zero l i h f k = absurd (omega (arith, f))
root_before (suc fuel) l i h f k = ground (arith, h i, root_before fuel l (parent i) h)

-- The node at the root of a heap is the earliest.
pub root_earliest : (l : SndUList) (i : ℕ) → IsHeap l → i < l.count → time_at l 0 ≤ time_at l i
root_earliest l i h k = root_before (suc i) l i h (omega arith) k
