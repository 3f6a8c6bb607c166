-- ===== src/Epoll/Calls.antt =====
-- udt4/src/epoll.cpp: sequences of calls of the event poll, and the invariant of its descriptors.
use udt_patch_for_epoll.Prelude.{
  ℕ, refl, Bool, Option, none, some, List, [], ◌∷◌, arith, if◌then◌else◌, Option-cases, Bool-cases,
  inl, inr,
}
use udt_patch_for_epoll.Std.Set
use udt_patch_for_epoll.Std.Set.{Set, contains, contains-insert, contains-erase}
use udt_patch_for_epoll.Std.Map.{lookup, lookup-erase}
use udt_patch_for_epoll.Epoll.{
  EpollDesc, Epoll, Result, ok, throws, throws_system, einvpollid, new_epoll, create, fresh_desc,
  next_seed, store, asks, add_usock, remove_usock, add_ssock, remove_ssock, release, set_write,
  set_read, clear_write, clear_read, enable_write, enable_read, disable_write, disable_read,
}
use udt_patch_for_epoll.Udt.{epoll_in, epoll_out}
use udt_patch_for_epoll.Epoll.Watched.{
  IsWatched, store-IsWatched, insert_if-contains, set_write-Keeps, set_read-Keeps,
  clear_write-Keeps, clear_read-Keeps, for_eids-IsWatched, on_desc-IsWatched, after, Keeps,
}

-- The calls of `CEPoll`, with what the system returns in them.
pub data Call : Type 0 where
  creates : Option ℕ → Call
  adds : ℕ → ℕ → Option ℕ → Call
  removes : ℕ → ℕ → Call
  adds_system removes_system : ℕ → ℕ → Bool → Call
  releases : ℕ → Call
  writable readable not_writable not_readable : ℕ → Set → Call

after_create : Epoll → Result (ℕ × Epoll) → Epoll
after_create e (ok (id, e')) = e'
after_create e (throws code) = e
after_create e throws_system = e

pub step : Epoll → Call → Epoll
unfolding after_create
step e (creates localid) = after_create e (create e localid)
step e (adds eid u events) = after e (add_usock e eid u events)
step e (removes eid u) = after e (remove_usock e eid u)
step e (adds_system eid s done) = after e (add_ssock e eid s done)
step e (removes_system eid s done) = after e (remove_ssock e eid s done)
step e (releases eid) = after e (release e eid)
step e (writable uid eids) = (enable_write e uid eids).0
step e (readable uid eids) = (enable_read e uid eids).0
step e (not_writable uid eids) = (disable_write e uid eids).0
step e (not_readable uid eids) = (disable_read e uid eids).0

pub run : Epoll → List Call → Epoll
run e [] = e
run e (c ∷ cs) = run (step e c) cs

create-IsWatched :
    (e : Epoll) (localid : Option ℕ) → IsWatched e → IsWatched (after_create e (create e localid))
unfolding create after_create contains
create-IsWatched e none v = v
create-IsWatched e (some l) v =
    store-IsWatched e (next_seed e.id_seed) (fresh_desc (next_seed e.id_seed) l) v
      (record { reads = λ u p. cc; writes = λ u p. cc; own_id = refl })

add_usock-IsWatched :
    (e : Epoll) (eid u : ℕ) (events : Option ℕ)
    → IsWatched e
    → IsWatched (after e (add_usock e eid u events))
unfolding add_usock
add_usock-IsWatched e eid u events v =
    on_desc-IsWatched e eid _
      (λ d h. record {
        reads = λ k p.
            ground (arith, insert_if-contains (asks events epoll_in) k u d.udt_socks_in, h.reads k);
        writes = λ k p.
            ground
              (arith, insert_if-contains (asks events epoll_out) k u d.udt_socks_out, h.writes k);
        own_id = h.own_id;
      })
      v

remove_usock-IsWatched :
    (e : Epoll) (eid u : ℕ) → IsWatched e → IsWatched (after e (remove_usock e eid u))
unfolding remove_usock
remove_usock-IsWatched e eid u v =
    on_desc-IsWatched e eid _
      (λ d h. record {
        reads = λ k p.
            ground
              (arith, contains-erase k u d.udt_reads, contains-erase k u d.udt_socks_in, h.reads k);
        writes = λ k p. ground (
          arith,
          contains-erase k u d.udt_writes,
          contains-erase k u d.udt_socks_out,
          h.writes k,
        );
        own_id = h.own_id;
      })
      v

-- The methods that ask the system first.
system_step-IsWatched :
    (e : Epoll) (eid : ℕ) (f : EpollDesc → EpollDesc) (done : Bool)
    → Keeps f
    → IsWatched e
    → IsWatched (
        after e (elim (lookup eid e.polls) [
          | none ↦ throws einvpollid
          | some d ↦ if done then ok (store e eid (f d)) else throws_system
        ]))
system_step-IsWatched e eid f done k v = elim (Option-cases (lookup eid e.polls)) [
  | inl p ↦ rw (p, after) v
  | inr (d, p) ↦ elim (Bool-cases done) [
    | inl t ↦ rw (p, t, after) (store-IsWatched e eid (f d) v (k eid d (v eid d p)))
    | inr t ↦ rw (p, t, after) v
  ]
]

release-IsWatched : (e : Epoll) (eid : ℕ) → IsWatched e → IsWatched (after e (release e eid))
unfolding release
release-IsWatched e eid v = elim (Option-cases (lookup eid e.polls)) [
  | inl p ↦ rw (p, after) v
  | inr (d, p) ↦ rw (p, after) (λ j d' q. v j d' (ground (arith, lookup-erase j eid e.polls)))
]

step-IsWatched : (e : Epoll) (c : Call) → IsWatched e → IsWatched (step e c)
unfolding step add_ssock remove_ssock enable_write enable_read disable_write disable_read
step-IsWatched e (creates localid) v = create-IsWatched e localid v
step-IsWatched e (adds eid u events) v = add_usock-IsWatched e eid u events v
step-IsWatched e (removes eid u) v = remove_usock-IsWatched e eid u v
step-IsWatched e (adds_system eid s done) v =
    system_step-IsWatched e eid (λ d. record d { locals = Set.insert s d.locals }) done
      (λ i d h. record { reads = h.reads; writes = h.writes; own_id = h.own_id }) v
step-IsWatched e (removes_system eid s done) v =
    system_step-IsWatched e eid (λ d. record d { locals = Set.erase s d.locals }) done
      (λ i d h. record { reads = h.reads; writes = h.writes; own_id = h.own_id }) v
step-IsWatched e (releases eid) v = release-IsWatched e eid v
step-IsWatched e (writable uid eids) v =
    for_eids-IsWatched (set_write uid) eids e (set_write-Keeps uid) v
step-IsWatched e (readable uid eids) v =
    for_eids-IsWatched (set_read uid) eids e (set_read-Keeps uid) v
step-IsWatched e (not_writable uid eids) v =
    for_eids-IsWatched (clear_write uid) eids e (clear_write-Keeps uid) v
step-IsWatched e (not_readable uid eids) v =
    for_eids-IsWatched (clear_read uid) eids e (clear_read-Keeps uid) v

pub run-IsWatched : (e : Epoll) (cs : List Call) → IsWatched e → IsWatched (run e cs)
unfolding run
run-IsWatched e [] v = v
run-IsWatched e (c ∷ cs) v = run-IsWatched (step e c) cs (step-IsWatched e c v)

-- After any calls on a new `CEPoll`, every descriptor has the id that it is stored under, and lists
-- a socket as ready for reading or writing only if it watches the socket for that.
pub run-IsWatched' : (cs : List Call) → IsWatched (run new_epoll cs)
unfolding new_epoll lookup
run-IsWatched' cs = run-IsWatched new_epoll cs (λ eid d p. cc)
