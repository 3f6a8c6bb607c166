-- ===== src/RcvUList.antt =====
-- udt4/src/queue.h and queue.cpp: `CRcvUList`, the sockets of a receiving queue in the order of their
-- last events, a list that is linked both ways, and the loop of `CRcvQueue::worker` over it.
-- A socket stands for its node (`m_pRNode`); a pointer to a node is an optional socket. A null pointer
-- that is followed ends in no list.
pub mod Line
mod Linking
mod Unlinking
pub mod Worker
mod Tests
use udt_patch_for_epoll.Prelude.{ℕ, Bool, true, false, not, Option, none, some, if◌then◌else◌, put}

pub record RcvUList : Type 0 where
  pub first : Option ℕ
  pub last : Option ℕ
  pub prevs : ℕ → Option ℕ
  pub nexts : ℕ → Option ℕ
  pub times : ℕ → ℕ
  pub on_list : ℕ → Bool

-- The constructor, when `CUDT::open` has set up the sockets' nodes.
unfoldable pub new_list : (ℕ → ℕ) → RcvUList
new_list memory = record {
  first = none;
  last = none;
  prevs = λ u. none;
  nexts = λ u. none;
  times = memory;
  on_list = λ u. false;
}

-- The node of `u` behind the last node, at `t`.
abbrev pub behind : RcvUList → ℕ → Option ℕ → Option RcvUList
behind l u none = none
behind l u (some t) = some (record l {
  prevs = put l.prevs u (some t);
  nexts = put (put l.nexts u none) t (some u);
  last = some u;
})

abbrev pub stamped : RcvUList → ℕ → ℕ → RcvUList
stamped l u now = record l { times = put l.times u now }

abbrev pub inserted : RcvUList → ℕ → Option ℕ → Option RcvUList
inserted l u none = some (record l {
  prevs = put l.prevs u none;
  nexts = put l.nexts u none;
  first = some u;
  last = some u;
})
inserted l u (some f) = behind l u l.last

-- `insert` at the time `now`
unfoldable pub insert : RcvUList → ℕ → ℕ → Option RcvUList
insert l u now = inserted (stamped l u now) u l.first

-- The node before `u` or the head, and the node after it or the end, are linked with each other.
abbrev pub unlinked : RcvUList → ℕ → Option ℕ → Option ℕ → RcvUList
unlinked l u none none = record l { first = none; last = none }
unlinked l u none (some n) = record l { first = some n; prevs = put l.prevs n none }
unlinked l u (some p) none = record l { nexts = put l.nexts p none; last = some p }
unlinked l u (some p) (some n) = record l {
  nexts = put l.nexts p (some n);
  prevs = put l.prevs n (some p);
}

abbrev pub cleared : RcvUList → ℕ → RcvUList
cleared l u = record l { nexts = put l.nexts u none; prevs = put l.prevs u none }

-- `remove`
unfoldable pub remove : RcvUList → ℕ → RcvUList
remove l u = if not (l.on_list u) then l else cleared (unlinked l u (l.prevs u) (l.nexts u)) u

abbrev pub moved : RcvUList → ℕ → Option ℕ → Option RcvUList
moved l u none = some l
moved l u (some n) = behind (unlinked l u (l.prevs u) (some n)) u l.last

-- `update` at the time `now`
unfoldable pub update : RcvUList → ℕ → ℕ → Option RcvUList
update l u now = if not (l.on_list u) then some l else moved (stamped l u now) u (l.nexts u)
