-- ===== src/Epoll/Tests.antt =====
-- Runs of `CEPoll`, and its theorems at such runs.
use udt_patch_for_epoll.Prelude.{
  zero, suc, ◌≡◌, ◌≢◌, refl, true, false, some, List, [], ◌∷◌, arith, inl,
}
use udt_patch_for_epoll.Std.Set.{contains}
use udt_patch_for_epoll.Std.Map.{lookup}
use udt_patch_for_epoll.Epoll.{EpollDesc, Epoll, new_epoll}
use udt_patch_for_epoll.Epoll.Watched.{IsWatched}
use udt_patch_for_epoll.Epoll.Calls.{Call, creates, adds, readable, writable, run, run-IsWatched'}
use udt_patch_for_epoll.Epoll.Wait.{
  Wanted, Found, Pass, returned, waiting, wait, wait_loop, refused, collect, pass_on,
}
use udt_patch_for_epoll.Epoll.Wait.Reports.{AnyPass, ReadySets, wait_reports}
use udt_patch_for_epoll.Epoll.Wait.Ends.{wait_ends}

-- Epoll 1 watches socket 5 for reading (`UDT_EPOLL_IN | UDT_EPOLL_ERR`), and it becomes readable.
abbrev calls : List Call
calls = creates (some 3) ∷ adds 1 5 (some 9) ∷ readable 5 (1 ∷ []) ∷ writable 5 (1 ∷ []) ∷ []

run-IsWatched'_example : IsWatched (run new_epoll calls)
run-IsWatched'_example = run-IsWatched' calls

abbrev ready_desc : EpollDesc
ready_desc = record {
  id = 1;
  udt_socks_out = [];
  udt_socks_in = 5 ∷ [];
  local_id = 3;
  locals = [];
  udt_writes = [];
  udt_reads = 5 ∷ [];
}

abbrev ready : Epoll
ready = record { id_seed = 1; polls = (1, ready_desc) ∷ [] }

ready-IsWatched : IsWatched ready
unfolding contains lookup
ready-IsWatched zero d e = cc
ready-IsWatched (suc zero) d e = ground arith
ready-IsWatched (suc (suc n)) d e = ground arith

abbrev both : Wanted
both = record { readfds = true; writefds = true; lrfds = false; lwfds = false }

abbrev pass : Pass
pass = record { epoll = ready; events = []; elapsed = 20_000 }

abbrev found : Found
found = record { reads = 5 ∷ []; writes = []; local_reads = []; local_writes = []; total = 1 }

waits : wait 1 both (some 10) (pass ∷ []) ≡ returned found
unfolding wait refused wait_loop pass_on collect lookup
waits = refl

wait_reports_example : AnyPass (ReadySets 1 both found) (pass ∷ [])
wait_reports_example = wait_reports 1 both (some 10) (pass ∷ []) found waits (omega arith)

wait_ends_example : wait 1 both (some 10) (pass ∷ []) ≢ waiting
wait_ends_example = wait_ends 1 both 10 (pass ∷ []) (inl (omega arith))
