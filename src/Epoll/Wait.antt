-- ===== src/Epoll/Wait.antt =====
-- udt4/src/epoll.cpp: `CEPoll::wait`. Other threads change the state between two passes of its loop,
-- so the loop runs over what it finds each time that it takes the lock.
pub mod Collect
pub mod Reports
pub mod Ends
use udt_patch_for_epoll.Prelude.{
  ℕ, suc, ◌+◌, ◌*◌, ◌≤◌, ◌<◌, ◌≡◌, ◌≢◌, ◌↔◌, refl, Bool, true, false, not, ◌&&◌, ◌||◌, Option, none,
  some, List, [], ◌∷◌, arith, leb, ltb, ◌==◌, if◌then◌else◌, length, Bool-cases, Option-cases, inl,
  inr, ◌⊎◌, All,
}
use udt_patch_for_epoll.Std.Set
use udt_patch_for_epoll.Std.Set.{Set, contains}
use udt_patch_for_epoll.Std.Map.{lookup}
use udt_patch_for_epoll.Epoll.{EpollDesc, Epoll, einvpollid, einvparam}
use udt_patch_for_epoll.Epoll.Watched.{IsSound, IsWatched}

-- Which of the four sets the caller gave (the others are null pointers).
pub record Wanted : Type 0 where
  pub readfds : Bool
  pub writefds : Bool
  pub lrfds : Bool
  pub lwfds : Bool

-- The four sets, those not given being empty, and the count of events.
pub record Found : Type 0 where
  pub reads : Set
  pub writes : Set
  pub local_reads : Set
  pub local_writes : Set
  pub total : ℕ

-- One `epoll_event` of the system: the descriptor, and its `EPOLLIN` and `EPOLLOUT` bits.
pub record SystemEvent : Type 0 where
  pub fd : ℕ
  pub is_in : Bool
  pub is_out : Bool

-- What one pass meets: the state under the lock, what the system's `epoll_wait` gives, and the
-- microseconds since the call when the pass ends.
pub record Pass : Type 0 where
  pub epoll : Epoll
  pub events : List SystemEvent
  pub elapsed : ℕ

-- How `wait` comes back; `waiting` is a call that has not come back after the passes given.
pub data Waited : Type 0 where
  returned : Found → Waited
  throws : ℕ → Waited
  waiting : Waited

abbrev pub nothing_found : Found
nothing_found = record { reads = []; writes = []; local_reads = []; local_writes = []; total = 0 }

abbrev pub is_empty : Set → Bool
is_empty [] = true
is_empty (x ∷ s) = false

-- The timeout in milliseconds; `none` is a negative one.
abbrev pub is_infinite : Option ℕ → Bool
is_infinite none = true
is_infinite (some ms) = false

-- The test at the head of `wait`, with its `lwfds` as the source has it.
unfoldable pub refused : Wanted → Option ℕ → Bool
refused want timeout =
    not want.readfds && not want.writefds && not want.lrfds && want.lwfds && is_infinite timeout

abbrev pub add_in : Wanted → SystemEvent → Found → Found
add_in want ev r =
    if want.lrfds && ev.is_in
    then record r { local_reads = Set.insert ev.fd r.local_reads; total = r.total + 1 }
    else r

abbrev pub add_out : Wanted → SystemEvent → Found → Found
add_out want ev r =
    if want.lwfds && ev.is_out
    then record r { local_writes = Set.insert ev.fd r.local_writes; total = r.total + 1 }
    else r

-- The loop over the system's events.
unfoldable pub add_events : Wanted → List SystemEvent → Found → Found
add_events want [] r = r
add_events want (ev ∷ evs) r = add_events want evs (add_out want ev (add_in want ev r))

abbrev pub add_reads : Wanted → EpollDesc → Found → Found
add_reads want d r =
    if want.readfds && not (is_empty d.udt_reads)
    then record r { reads = d.udt_reads; total = r.total + length d.udt_reads }
    else r

abbrev pub add_writes : Wanted → EpollDesc → Found → Found
add_writes want d r =
    if want.writefds && not (is_empty d.udt_writes)
    then record r { writes = d.udt_writes; total = r.total + length d.udt_writes }
    else r

-- What a pass collects.
unfoldable pub collect : Wanted → EpollDesc → List SystemEvent → Found → Found
unfolding add_events
collect want d events r =
    let r2 = add_writes want d (add_reads want d r) in
    if want.lrfds || want.lwfds then add_events want events r2 else r2

abbrev pub watches_nothing : EpollDesc → Bool
watches_nothing d = is_empty d.udt_socks_in && is_empty d.udt_socks_out && is_empty d.locals

-- `(msTimeOut >= 0) && (... >= msTimeOut * 1000LL)`
abbrev pub timed_out : Option ℕ → ℕ → Bool
timed_out none elapsed = false
timed_out (some ms) elapsed = leb (ms * 1000) elapsed

-- A pass with the descriptor found; `next` is the rest of the loop.
unfoldable pub pass_on : Wanted → Option ℕ → EpollDesc → Pass → Found → (Found → Waited) → Waited
pass_on want timeout d p r next =
    if watches_nothing d && is_infinite timeout
    then throws einvparam
    else (let r' = collect want d p.events r in
        if ltb 0 r'.total
        then returned r'
        else if timed_out timeout p.elapsed
        then returned (record r' { total = 0 })
        else next r')

-- The loop.
unfoldable pub wait_loop : ℕ → Wanted → Option ℕ → List Pass → Found → Waited
unfolding pass_on collect
wait_loop eid want timeout [] r = waiting
wait_loop eid want timeout (p ∷ ps) r =
    let next = wait_loop eid want timeout ps in
    elim (lookup eid p.epoll.polls) [
      | none ↦ throws einvpollid
      | some d ↦ pass_on want timeout d p r next
    ]

-- `wait`
unfoldable pub wait : ℕ → Wanted → Option ℕ → List Pass → Waited
unfolding refused wait_loop
wait eid want timeout passes =
    if refused want timeout
    then throws einvparam
    else wait_loop eid want timeout passes nothing_found
