-- ===== src/Epoll/Wait/Ends.antt =====
-- When `CEPoll::wait` comes back, and when it does not.
use udt_patch_for_epoll.Prelude.{
  ℕ, ◌*◌, ◌≤◌, ◌≡◌, ◌≢◌, refl, ◌∙◌, sym, false, Option, none, some, List, [], ◌∷◌, arith,
  Option-cases, inl, inr, All,
}
use udt_patch_for_epoll.Std.Map.{lookup}
use udt_patch_for_epoll.Epoll.{EpollDesc}
use udt_patch_for_epoll.Epoll.Wait.{
  Wanted, Found, Pass, Waited, waiting, nothing_found, is_empty, refused, collect, pass_on,
  wait_loop, wait,
}
use udt_patch_for_epoll.Epoll.Wait.Reports.{AnyPass}
use udt_patch_for_epoll.Epoll.Wait.Collect.{wait_loop-gone, wait_loop-there}

pass_on-ends :
    (want : Wanted) (ms : ℕ) (d : EpollDesc) (p : Pass) (r : Found) (next : Found → Waited)
    → ms * 1000 ≤ p.elapsed
    → pass_on want (some ms) d p r next ≢ waiting
unfolding pass_on
pass_on-ends want ms d p r next h e = ground arith

pass_on-waits :
    (want : Wanted) (timeout : Option ℕ) (d : EpollDesc) (p : Pass) (r : Found)
    (next : Found → Waited)
    → ((g : Found) → next g ≢ waiting)
    → pass_on want timeout d p r next ≢ waiting
unfolding pass_on
pass_on-waits want timeout d p r next h e = ground (arith, h (collect want d p.events r))

loop-ends :
    (eid : ℕ) (want : Wanted) (ms : ℕ) (passes : List Pass) (r : Found)
    → AnyPass (λ p. ms * 1000 ≤ p.elapsed) passes
    → wait_loop eid want (some ms) passes r ≢ waiting
loop-ends eid want ms [] r a e = a
loop-ends eid want ms (p ∷ ps) r a e = elim (Option-cases (lookup eid p.epoll.polls)) [
  | inl q ↦ absurd (cc (wait_loop-gone eid want (some ms) p ps r q))
  | inr (d, q) ↦
      let k = sym (wait_loop-there eid want (some ms) p ps r d q) ∙ e in
      elim a [
        | inl now ↦ pass_on-ends want ms d p r _ now k
        | inr later ↦ pass_on-waits want (some ms) d p r _ (λ g. loop-ends eid want ms ps g later) k
      ]
]

-- With a timeout that is not negative `wait` comes back once a pass ends at or after it.
pub wait_ends :
    (eid : ℕ) (want : Wanted) (ms : ℕ) (passes : List Pass)
    → AnyPass (λ p. ms * 1000 ≤ p.elapsed) passes
    → wait eid want (some ms) passes ≢ waiting
unfolding wait
wait_ends eid want ms passes a e = loop-ends eid want ms passes nothing_found a (ground arith)

abbrev asks_nothing : Wanted
asks_nothing = record { readfds = false; writefds = false; lrfds = false; lwfds = false }

-- The epoll is there in this pass and watches a UDT socket for reading.
abbrev pub WatchesSome : ℕ → Pass → Type 0
WatchesSome eid p =
    (d : EpollDesc) × (lookup eid p.epoll.polls ≡ some d) × (is_empty d.udt_socks_in ≡ false)

hangs :
    (eid : ℕ) (passes : List Pass)
    → All (WatchesSome eid) passes
    → wait_loop eid asks_nothing none passes nothing_found ≡ waiting
unfolding wait_loop
hangs eid [] a = refl
hangs eid (p ∷ ps) a = let (d, q, k) = a.0 in rw (q, k, wait_loop) (hangs eid ps a.1)

-- So the call that the comment means to refuse, with no set and an infinite timeout, is let
-- through, and never comes back while the epoll watches a socket, whatever becomes ready.
pub wait_for_nothing_hangs :
    (eid : ℕ) (passes : List Pass)
    → All (WatchesSome eid) passes
    → wait eid asks_nothing none passes ≡ waiting
unfolding wait refused
wait_for_nothing_hangs eid passes a = hangs eid passes a
