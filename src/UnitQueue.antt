-- ===== src/UnitQueue.antt =====
-- udt4/src/queue.h and queue.cpp: `CUnitQueue`, the units that incoming packets are read into, in
-- queues of one size that are linked in a circle.
-- A queue is its position in the circle and a unit its position in its queue, so a pointer to a unit
-- is a pair of positions, and the flags of the units are a function of both. The available unit lies
-- in the current queue. The buffers behind the units are left out. Memory never runs out.
mod Finding
mod Counting
pub mod Calls
mod Tests
use udt_patch_for_epoll.Prelude.{
  ℕ, zero, suc, ◌+◌, ◌-◌, ◌*◌, Bool, true, false, Option, none, some, ◌==◌, ltb, leb, if◌then◌else◌,
}

-- The fields of the queue; `each` is the `m_iSize` of every entry, `queues` their number.
pub record UnitQueue : Type 0 where
  pub flags : ℕ → ℕ → ℕ
  pub queues : ℕ
  pub each : ℕ
  pub curr : ℕ
  pub avail : ℕ
  pub size : ℕ
  pub count : ℕ

-- `init` after the constructor; the count was set to 0 there.
unfoldable pub init : ℕ → UnitQueue
init size = record {
  flags = λ x i. 0;
  queues = 1;
  each = size;
  curr = 0;
  avail = 0;
  size = size;
  count = 0;
}

-- The units in use among the first `n` of a queue.
unfoldable pub used : (ℕ → ℕ) → ℕ → ℕ
used flag zero = 0
used flag (suc n) = if flag n == 0 then used flag n else used flag n + 1

-- The units in use in the first `k` queues.
unfoldable pub real_count : (ℕ → ℕ → ℕ) → ℕ → ℕ → ℕ
real_count flags each zero = 0
real_count flags each (suc k) = real_count flags each k + used (flags k) each

-- A new entry behind the last one.
abbrev pub extended : UnitQueue → UnitQueue
extended q = record q {
  flags = λ x i. if x == q.queues then 0 else q.flags x i;
  queues = q.queues + 1;
  size = q.size + q.each;
}

-- `increase`; the quotient of count and size in floating point is less than 0.9 exactly if the
-- fraction is less than 9/10.
unfoldable pub increase : UnitQueue → UnitQueue
increase q =
    let counted = record q { count = real_count q.flags q.each q.queues } in
    if ltb (counted.count * 10) (q.size * 9) then counted else extended counted

-- The loop over the units of a queue from `a` up to the sentinel.
unfoldable pub find_free : ℕ → (ℕ → ℕ) → ℕ → ℕ → Option ℕ
find_free zero flag a sentinel = none
find_free (suc n) flag a sentinel =
    let rest = find_free n flag (suc a) sentinel in
    if a == sentinel then none else if flag a == 0 then some a else rest

-- The unit that is found in the current queue.
abbrev pub or_first : (ℕ → ℕ) → Option ℕ → Option ℕ
or_first flag (some i) = some i
or_first flag none = if flag 0 == 0 then some 0 else none

abbrev pub in_queue : UnitQueue → Option ℕ
in_queue q = or_first (q.flags q.curr) (find_free q.each (q.flags q.curr) q.avail (q.each - 1))

-- `m_pNext`
abbrev pub next_queue : UnitQueue → UnitQueue
next_queue q = record q { curr = if q.curr + 1 == q.queues then 0 else q.curr + 1; avail = 0 }

abbrev pub found : UnitQueue → Option ℕ → Option (ℕ × ℕ) × UnitQueue → Option (ℕ × ℕ) × UnitQueue
found q (some i) rest = (some (q.curr, i), record q { avail = i })
found q none rest = rest

-- The loop over the queues from the current one until the entrance is met again.
unfoldable pub search : ℕ → UnitQueue → ℕ → Option (ℕ × ℕ) × UnitQueue
search zero q entrance = (none, q)
search (suc n) q entrance =
    let q1 = next_queue q in
    let rest = search n q1 entrance in
    found q (in_queue q) (if q1.curr == entrance then (none, q1) else rest)

abbrev pub or_increase : Option (ℕ × ℕ) × UnitQueue → Option (ℕ × ℕ) × UnitQueue
or_increase (some p, q) = (some p, q)
or_increase (none, q) = (none, increase q)

-- `getNextAvailUnit`
unfoldable pub next_avail_unit : UnitQueue → Option (ℕ × ℕ) × UnitQueue
next_avail_unit q =
    let q1 = if ltb (q.size * 9) (q.count * 10) then increase q else q in
    if leb q1.size q1.count then (none, q1) else or_increase (search q1.queues q1 q1.curr)
