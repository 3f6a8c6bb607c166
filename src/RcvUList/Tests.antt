-- ===== src/RcvUList/Tests.antt =====
-- udt4/src/queue.cpp: `CRcvUList` and the loop over it on a list of two sockets.
use udt_patch_for_epoll.Prelude.{
  ℕ, ◌+◌, ◌≡◌, refl, true, none, some, ◌==◌, if◌then◌else◌, put, arith,
}
use udt_patch_for_epoll.Hash.{new_hash}
use udt_patch_for_epoll.RcvUList.{RcvUList, new_list, insert, update, stamped}
use udt_patch_for_epoll.RcvUList.Line.{Line, IsLine, joined, without}
use udt_patch_for_epoll.RcvUList.Linking.{IsAlike}
use udt_patch_for_epoll.RcvUList.Unlinking.{update-IsLine}
use udt_patch_for_epoll.RcvUList.Worker.{Sockets, check_sockets}
use udt_patch_for_epoll.RcvUList.Worker.Due.{Checked}
use udt_patch_for_epoll.RcvUList.Worker.Sorted.{IsSorted, check_sockets_sorted}

-- The sockets 1, last seen at 5, and 2, last seen at 9.
abbrev two : RcvUList
two = record {
  first = some 1;
  last = some 2;
  prevs = λ u. if u == 2 then some 1 else none;
  nexts = λ u. if u == 1 then some 2 else none;
  times = λ u. if u == 1 then 5 else 9;
  on_list = λ u. true;
}

abbrev two_line : Line
two_line = record { at = λ i. i + 1; size = 2 }

two-IsLine : IsLine two two_line
two-IsLine = record {
  first = refl;
  last = refl;
  nexts = λ i k. ground (arith, k);
  prevs = λ i k. ground (arith, k);
  once = λ i j h k e. omega (arith, e);
}

update-IsLine_example :
    (l : RcvUList) × (update two 1 20 ≡ some l)
    × IsLine l (joined (without two_line 0) 1)
    × IsAlike (stamped two 1 20) l
update-IsLine_example = update-IsLine two two_line 0 20 two-IsLine (omega arith) refl

-- Every socket is usable, and it is 30.
abbrev at_thirty : Sockets ℕ
at_thirty = record {
  is_usable = λ w u. true;
  check_timers = λ w u. w + 1;
  clock = λ w. 30;
  socket_id = λ u. u;
}

two-IsSorted : IsSorted two.times two_line
two-IsSorted i j a b = ground (arith, a, b)

check_sockets_sorted_example : Checked two_line 7 (check_sockets at_thirty 3 7 two (new_hash 5) 0)
check_sockets_sorted_example =
    check_sockets_sorted at_thirty 3 7 two two_line (new_hash 5) 0 (λ w. omega arith) (omega arith)
      two-IsLine (λ i h. refl) two-IsSorted

added :
    insert (new_list (λ u. 0)) 4 8
    ≡ some (record (new_list (λ u. 0)) {
      first = some 4;
      last = some 4;
      prevs = put (new_list (λ u. 0)).prevs 4 none;
      nexts = put (new_list (λ u. 0)).nexts 4 none;
      times = put (new_list (λ u. 0)).times 4 8;
    })
unfolding insert new_list
added = refl
