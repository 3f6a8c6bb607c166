-- ===== src/SndUList.antt =====
-- udt4/src/queue.h and queue.cpp: `CSndUList`, the sockets that have packets to send, a binary heap by
-- the time at which each is next.
-- A socket stands for its node (`m_pSNode`), so the heap array is a function from positions to
-- sockets and the nodes' fields are functions of the socket. `overrun` says that a node was written
-- behind the end of the array; from then on the program's behaviour is undefined, and the other
-- fields mean nothing. A location of -1 is none. Memory never
-- runs out. The calls that wake the sending worker are counted; what they wake is left out, like the
-- lock, under which each operation is one step.
pub mod Order
pub mod Up
pub mod Down
pub mod Inserting
pub mod Removing
pub mod Leaving
pub mod Popping
pub mod Room
pub mod Overrun
pub mod Updating
pub mod Calls
mod Tests
use udt_patch_for_epoll.Prelude.{
  ℕ, zero, suc, ◌+◌, ◌-◌, ◌*◌, ◌/◌, Bool, true, false, not, ◌&&◌, ◌||◌, Option, none, some, ◌==◌,
  ltb, leb, if◌then◌else◌, put,
}

-- The fields of the list; `count` is `m_iLastEntry` + 1, `times` and `locs` are the nodes'
-- `m_llTimeStamp` and `m_iHeapLoc`.
pub record SndUList : Type 0 where
  pub heap : ℕ → ℕ
  pub times : ℕ → ℕ
  pub locs : ℕ → Option ℕ
  pub count : ℕ
  pub array_length : ℕ
  pub overrun : Bool
  pub interrupts : ℕ
  pub signals : ℕ

abbrev pub parent : ℕ → ℕ
parent c = (c - 1) / 2

abbrev pub time_at : SndUList → ℕ → ℕ
time_at l i = l.times (l.heap i)

-- The constructor, where no socket has a node on the heap.
unfoldable pub new_list : (ℕ → ℕ) → SndUList
new_list memory = record {
  heap = memory;
  times = memory;
  locs = λ u. none;
  count = 0;
  array_length = 4096;
  overrun = false;
  interrupts = 0;
  signals = 0;
}

-- A round of the loop of `insert_`: the node at `q` changes places with the one above it, whose
-- location is set.
abbrev pub lift : SndUList → ℕ → SndUList
lift l q =
    let t = l.heap (parent q) in
    record l { heap = put (put l.heap (parent q) (l.heap q)) q t; locs = put l.locs t (some q) }

-- The loop of `insert_` from position `q` on; where it ends.
unfoldable pub sift_up : ℕ → SndUList → ℕ → SndUList × ℕ
sift_up zero l q = (l, q)
sift_up (suc fuel) l q =
    let higher = sift_up fuel (lift l q) (parent q) in
    if not (q == 0) && ltb (time_at l q) (time_at l (parent q)) then higher else (l, q)

-- `insert_` after the node was put behind the last one.
abbrev pub settle : SndUList × ℕ → ℕ → SndUList
settle (l, q) u = record l {
  locs = put l.locs u (some q);
  interrupts = if q == 0 then l.interrupts + 1 else l.interrupts;
  signals = if l.count == 1 then l.signals + 1 else l.signals;
}

abbrev pub appended : SndUList → ℕ → ℕ → SndUList
appended l ts u = record l {
  heap = put l.heap l.count u;
  times = put l.times u ts;
  count = l.count + 1;
  overrun = l.overrun || leb l.array_length l.count;
}

-- `insert_`, which does not ask whether the array is full.
unfoldable pub insert_node : SndUList → ℕ → ℕ → SndUList
insert_node l ts u = elim (l.locs u) [
  | some i ↦ l
  | none ↦ settle (sift_up (l.count + 1) (appended l ts u) l.count) u
]

-- `insert`: the array is doubled first when it is full.
unfoldable pub insert : SndUList → ℕ → ℕ → SndUList
insert l ts u =
    insert_node
      (if l.count == l.array_length then record l { array_length = l.array_length * 2 } else l) ts u

-- A round of the loop of `remove_`: the node at `q` changes places with the one at `p` below it.
abbrev pub sink : SndUList → ℕ → ℕ → SndUList
sink l q p =
    let t = l.heap p in
    record l {
      heap = put (put l.heap p (l.heap q)) q t;
      locs = put (put l.locs (l.heap q) (some p)) t (some q);
    }

-- The earlier one of the two positions below `q`.
abbrev pub earlier_child : SndUList → ℕ → ℕ
earlier_child l q =
    let p = q * 2 + 1 in
    if ltb (p + 1) l.count && ltb (time_at l (p + 1)) (time_at l p) then p + 1 else p

-- The loop of `remove_`.
unfoldable pub sift_down : ℕ → SndUList → ℕ → SndUList
sift_down zero l q = l
sift_down (suc fuel) l q =
    let p = earlier_child l q in
    let lower = sift_down fuel (sink l q p) p in
    if ltb (q * 2 + 1) l.count && ltb (time_at l p) (time_at l q) then lower else l

-- The last node takes the place of the one at `i`.
abbrev pub replaced : SndUList → ℕ → SndUList
replaced l i =
    let w = l.heap (l.count - 1) in
    record l { heap = put l.heap i w; count = l.count - 1; locs = put l.locs w (some i) }

abbrev pub cleared : SndUList → ℕ → SndUList
cleared l u = record l { locs = put l.locs u none }

abbrev pub detached : SndUList → ℕ → Option ℕ → SndUList
detached l u none = l
detached l u (some i) = cleared (sift_down l.count (replaced l i) i) u

-- `remove_`, and `remove`.
unfoldable pub remove : SndUList → ℕ → SndUList
remove l u =
    let l1 = detached l u (l.locs u) in
    if l1.count == 1 then record l1 { interrupts = l1.interrupts + 1 } else l1

-- `update`
unfoldable pub update : SndUList → ℕ → Bool → SndUList
update l u reschedule = elim (l.locs u) [
  | none ↦ insert_node l 1 u
  | some i ↦
      if not reschedule
      then l
      else if i == 0
      then record l { times = put l.times u 1; interrupts = l.interrupts + 1 }
      else insert_node (remove l u) 1 u
]

-- `getNextProcTime`
unfoldable pub next_proc_time : SndUList → ℕ
next_proc_time l = if l.count == 0 then 0 else time_at l 0

-- What `packData` gives: the size of the packet, nothing if there is none, and the time of the next.
abbrev pub Packed : Type 0
Packed = ℕ × ℕ

-- `pop` after the socket packed: there is something to send, and maybe a time for the next.
abbrev pub after_pack : SndUList → ℕ → Packed → Option ℕ × SndUList
after_pack l u (size, ts) =
    if size == 0 then (none, l) else (some u, if ltb 0 ts then insert_node l ts u else l)

-- `pop` at the time `now`. Whether the socket is connected and not broken, and what it packs, come
-- from the socket. The answer is the socket whose packet is to be sent; none is -1.
unfoldable pub pop : SndUList → ℕ → (ℕ → Bool) → (ℕ → Packed) → Option ℕ × SndUList
pop l now is_usable pack =
    if l.count == 0 || ltb now (time_at l 0)
    then (none, l)
    else (let u = l.heap 0 in
        let l1 = remove l u in if not (is_usable u) then (none, l1) else after_pack l1 u (pack u))
