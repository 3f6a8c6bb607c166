-- ===== src/SockEpoll/Views.antt =====
-- What an event poll shows of one socket, and what the library's calls do to it.
use udt_patch_for_epoll.Prelude.{
  ℕ, ◌≡◌, ◌∙◌, Bool, true, false, ◌&&◌, ◌||◌, Option, none, some, arith, if◌then◌else◌,
  Option-cases, inl, inr,
}
use udt_patch_for_epoll.Std.Set.{Set, contains, contains-erase, insert_twice, erase_twice}
use udt_patch_for_epoll.Std.Map.{lookup, lookup-insert}
use udt_patch_for_epoll.Udt.{epoll_in, epoll_out}
use udt_patch_for_epoll.Epoll.{
  EpollDesc, Epoll, ok, store, on_desc, asks, add_usock, remove_usock, set_read, set_write,
  clear_read, clear_write, enable_read, enable_write, disable_read, disable_write,
}
use udt_patch_for_epoll.Epoll.Watched.{insert_if-contains}
use udt_patch_for_epoll.Epoll.Lookup.{lookup-for_eids, is_there, contains-update}

-- The four sets of an epoll, empty where there is none: is the socket in them?
abbrev in_desc : (EpollDesc → Set) → ℕ → Option EpollDesc → Bool
in_desc f u none = false
in_desc f u (some d) = contains u (f d)

abbrev pub readable : Epoll → ℕ → ℕ → Bool
readable e eid u = in_desc (λ d. d.udt_reads) u (lookup eid e.polls)

abbrev pub writable : Epoll → ℕ → ℕ → Bool
writable e eid u = in_desc (λ d. d.udt_writes) u (lookup eid e.polls)

abbrev pub watches_in : Epoll → ℕ → ℕ → Bool
watches_in e eid u = in_desc (λ d. d.udt_socks_in) u (lookup eid e.polls)

abbrev pub watches_out : Epoll → ℕ → ℕ → Bool
watches_out e eid u = in_desc (λ d. d.udt_socks_out) u (lookup eid e.polls)

-- The view of one socket in one epoll.
pub record View : Type 0 where
  pub there : Bool
  pub in_read : Bool
  pub in_write : Bool
  pub for_read : Bool
  pub for_write : Bool

unfoldable pub view : Epoll → ℕ → ℕ → View
view e eid u = record {
  there = is_there (lookup eid e.polls);
  in_read = readable e eid u;
  in_write = writable e eid u;
  for_read = watches_in e eid u;
  for_write = watches_out e eid u;
}

set_read_twice : (u : ℕ) (d : EpollDesc) → set_read u (set_read u d) ≡ set_read u d
set_read_twice u d = ground (arith, insert_twice u d.udt_reads)

set_write_twice : (u : ℕ) (d : EpollDesc) → set_write u (set_write u d) ≡ set_write u d
set_write_twice u d = ground (arith, insert_twice u d.udt_writes)

clear_read_twice : (u : ℕ) (d : EpollDesc) → clear_read u (clear_read u d) ≡ clear_read u d
clear_read_twice u d = ground (arith, erase_twice u d.udt_reads)

clear_write_twice : (u : ℕ) (d : EpollDesc) → clear_write u (clear_write u d) ≡ clear_write u d
clear_write_twice u d = ground (arith, erase_twice u d.udt_writes)

-- `enable_read` marks the socket as readable in the epolls given that watch it for reading, and
-- changes nothing else of it.
pub view-enable_read :
    (e : Epoll) (u : ℕ) (ids : Set) (eid : ℕ)
    → let v = view e eid u in
      view (enable_read e u ids).0 eid u
      ≡ record v { in_read = if contains eid ids && v.for_read then true else v.in_read }
unfolding view enable_read
view-enable_read e u ids eid = elim (Option-cases (lookup eid e.polls)) [
  | inl p ↦ ground (arith, lookup-for_eids (set_read u) (set_read_twice u) ids e eid)
  | inr (d, p) ↦ ground (
    arith,
    lookup-for_eids (set_read u) (set_read_twice u) ids e eid,
    insert_if-contains (contains u d.udt_socks_in) u u d.udt_reads,
  )
]

-- `enable_write` does the same for writing.
pub view-enable_write :
    (e : Epoll) (u : ℕ) (ids : Set) (eid : ℕ)
    → let v = view e eid u in
      view (enable_write e u ids).0 eid u
      ≡ record v { in_write = if contains eid ids && v.for_write then true else v.in_write }
unfolding view enable_write
view-enable_write e u ids eid = elim (Option-cases (lookup eid e.polls)) [
  | inl p ↦ ground (arith, lookup-for_eids (set_write u) (set_write_twice u) ids e eid)
  | inr (d, p) ↦ ground (
    arith,
    lookup-for_eids (set_write u) (set_write_twice u) ids e eid,
    insert_if-contains (contains u d.udt_socks_out) u u d.udt_writes,
  )
]

-- `disable_read` withdraws the socket from the readable ones of the epolls given.
pub view-disable_read :
    (e : Epoll) (u : ℕ) (ids : Set) (eid : ℕ)
    → let v = view e eid u in
      view (disable_read e u ids).0 eid u
      ≡ record v { in_read = if contains eid ids then false else v.in_read }
unfolding view disable_read
view-disable_read e u ids eid = elim (Option-cases (lookup eid e.polls)) [
  | inl p ↦ ground (arith, lookup-for_eids (clear_read u) (clear_read_twice u) ids e eid)
  | inr (d, p) ↦ ground (
    arith,
    lookup-for_eids (clear_read u) (clear_read_twice u) ids e eid,
    contains-erase u u d.udt_reads,
  )
]

-- `disable_write` does the same for writing.
pub view-disable_write :
    (e : Epoll) (u : ℕ) (ids : Set) (eid : ℕ)
    → let v = view e eid u in
      view (disable_write e u ids).0 eid u
      ≡ record v { in_write = if contains eid ids then false else v.in_write }
unfolding view disable_write
view-disable_write e u ids eid = elim (Option-cases (lookup eid e.polls)) [
  | inl p ↦ ground (arith, lookup-for_eids (clear_write u) (clear_write_twice u) ids e eid)
  | inr (d, p) ↦ ground (
    arith,
    lookup-for_eids (clear_write u) (clear_write_twice u) ids e eid,
    contains-erase u u d.udt_writes,
  )
]

-- The ids that the four methods keep.
pub contains-enable_read :
    (e : Epoll) (u : ℕ) (ids : Set) (eid : ℕ)
    → contains eid (enable_read e u ids).1
      ≡ (if contains eid ids then (view e eid u).there else false)
unfolding view enable_read
contains-enable_read e u ids eid = contains-update (set_read u) e ids eid

abbrev desc_view : ℕ → EpollDesc → View
desc_view u d = record {
  there = true;
  in_read = contains u d.udt_reads;
  in_write = contains u d.udt_writes;
  for_read = contains u d.udt_socks_in;
  for_write = contains u d.udt_socks_out;
}

view-store : (e : Epoll) (eid u : ℕ) (d : EpollDesc) → view (store e eid d) eid u ≡ desc_view u d
unfolding view
view-store e eid u d = ground (arith, lookup-insert eid eid d e.polls)

on_desc-there :
    (e : Epoll) (eid : ℕ) (f : EpollDesc → EpollDesc) (d : EpollDesc)
    → lookup eid e.polls ≡ some d
    → on_desc e eid f ≡ ok (store e eid (f d))
on_desc-there e eid f d p = rw (p, on_desc)

-- A socket taken out of an epoll that is there is in none of its sets.
pub view-remove_usock :
    (e : Epoll) (eid u : ℕ)
    → (view e eid u).there ≡ true
    → (e' : Epoll) × (remove_usock e eid u ≡ ok e')
      × (view e' eid u ≡ record {
        there = true;
        in_read = false;
        in_write = false;
        for_read = false;
        for_write = false;
      })
unfolding view remove_usock
view-remove_usock e eid u h = elim (Option-cases (lookup eid e.polls)) [
  | inl p ↦ absurd (ground arith)
  | inr (d, p) ↦ (
    _,
    on_desc-there e eid _ d p,
    view-store e eid u _
        ∙ ground (
          arith,
          contains-erase u u d.udt_reads,
          contains-erase u u d.udt_writes,
          contains-erase u u d.udt_socks_in,
          contains-erase u u d.udt_socks_out,
        ),
  )
]

-- Adding a socket widens what it is watched for, and marks nothing as ready.
pub view-add_usock :
    (e : Epoll) (eid u : ℕ) (events : Option ℕ)
    → (view e eid u).there ≡ true
    → let v = view e eid u in
      (e' : Epoll) × (add_usock e eid u events ≡ ok e')
      × (view e' eid u ≡ record v {
        for_read = asks events epoll_in || v.for_read;
        for_write = asks events epoll_out || v.for_write;
      })
unfolding view add_usock
view-add_usock e eid u events h = elim (Option-cases (lookup eid e.polls)) [
  | inl p ↦ absurd (ground arith)
  | inr (d, p) ↦ (
    _,
    on_desc-there e eid _ d p,
    view-store e eid u _
        ∙ ground (
          arith,
          insert_if-contains (asks events epoll_in) u u d.udt_socks_in,
          insert_if-contains (asks events epoll_out) u u d.udt_socks_out,
        ),
  )
]
