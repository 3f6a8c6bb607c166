-- ===== src/Epoll/Watched.antt =====
-- udt4/src/epoll.cpp: the invariant of the event poll's descriptors, one method at a time.
use udt_patch_for_epoll.Prelude.{
  ℕ, ◌≡◌, refl, Bool, true, false, some, [], ◌∷◌, arith, ◌==◌, if◌then◌else◌, Option-cases,
  Bool-cases, inl, inr,
}
use udt_patch_for_epoll.Std.Set.{Set, contains, contains-insert, contains-erase}
use udt_patch_for_epoll.Std.Map.{lookup, lookup-insert}
use udt_patch_for_epoll.Epoll.{
  EpollDesc, Epoll, Result, ok, throws, throws_system, store, on_desc, insert_if, for_eids,
  set_write, set_read, clear_write, clear_read,
}

-- A socket is ready in a descriptor only for what the descriptor watches it for, and the
-- descriptor is stored under its own id.
pub record IsSound (eid : ℕ) (d : EpollDesc) : Type 0 where
  pub reads : (u : ℕ) → contains u d.udt_reads ≡ true → contains u d.udt_socks_in ≡ true
  pub writes : (u : ℕ) → contains u d.udt_writes ≡ true → contains u d.udt_socks_out ≡ true
  pub own_id : d.id ≡ eid

abbrev pub IsWatched : Epoll → Type 0
IsWatched e = (eid : ℕ) (d : EpollDesc) → lookup eid e.polls ≡ some d → IsSound eid d

-- Changes of one descriptor that keep it sound.
abbrev pub Keeps : (EpollDesc → EpollDesc) → Type 0
Keeps f = (eid : ℕ) (d : EpollDesc) → IsSound eid d → IsSound eid (f d)

pub store-IsWatched :
    (e : Epoll) (eid : ℕ) (d : EpollDesc) → IsWatched e → IsSound eid d → IsWatched (store e eid d)
store-IsWatched e eid d v h j d' p = elim (Bool-cases (eid == j)) [
  | inl t ↦ ground (arith, lookup-insert j eid d e.polls)
  | inr t ↦ v j d' (ground (arith, lookup-insert j eid d e.polls))
]

pub insert_if-contains :
    (b : Bool) (u k : ℕ) (s : Set)
    → contains u (insert_if b k s)
      ≡ (if b then (if k == u then true else contains u s) else contains u s)
insert_if-contains true u k s = contains-insert u k s
insert_if-contains false u k s = refl

pub set_write-Keeps : (uid : ℕ) → Keeps (set_write uid)
set_write-Keeps uid eid d h = record {
  reads = h.reads;
  writes = λ u p.
      ground
        (arith, insert_if-contains (contains uid d.udt_socks_out) u uid d.udt_writes, h.writes u);
  own_id = h.own_id;
}

pub set_read-Keeps : (uid : ℕ) → Keeps (set_read uid)
set_read-Keeps uid eid d h = record {
  reads = λ u p.
      ground (arith, insert_if-contains (contains uid d.udt_socks_in) u uid d.udt_reads, h.reads u);
  writes = h.writes;
  own_id = h.own_id;
}

pub clear_write-Keeps : (uid : ℕ) → Keeps (clear_write uid)
clear_write-Keeps uid eid d h = record {
  reads = h.reads;
  writes = λ u p. ground (arith, contains-erase u uid d.udt_writes, h.writes u);
  own_id = h.own_id;
}

pub clear_read-Keeps : (uid : ℕ) → Keeps (clear_read uid)
clear_read-Keeps uid eid d h = record {
  reads = λ u p. ground (arith, contains-erase u uid d.udt_reads, h.reads u);
  writes = h.writes;
  own_id = h.own_id;
}

pub for_eids-IsWatched :
    (f : EpollDesc → EpollDesc) (eids : Set) (e : Epoll)
    → Keeps f
    → IsWatched e
    → IsWatched (for_eids f eids e).0
unfolding for_eids
for_eids-IsWatched f [] e k v = v
for_eids-IsWatched f (i ∷ eids) e k v = elim (Option-cases (lookup i e.polls)) [
  | inl p ↦ rw (p, for_eids) (for_eids-IsWatched f eids e k v)
  | inr (d, p) ↦
      rw (p, for_eids)
        (for_eids-IsWatched f eids _ k (store-IsWatched e i (f d) v (k i d (v i d p))))
]

-- What a method leaves behind: the state that it returns, or the old one where it throws.
abbrev pub after : Epoll → Result Epoll → Epoll
after e (ok e') = e'
after e (throws code) = e
after e throws_system = e

pub on_desc-IsWatched :
    (e : Epoll) (eid : ℕ) (f : EpollDesc → EpollDesc)
    → ((d : EpollDesc) → IsSound eid d → IsSound eid (f d))
    → IsWatched e
    → IsWatched (after e (on_desc e eid f))
on_desc-IsWatched e eid f k v = elim (Option-cases (lookup eid e.polls)) [
  | inl p ↦ rw (p, after) v
  | inr (d, p) ↦ rw (p, after) (store-IsWatched e eid (f d) v (k d (v eid d p)))
]
