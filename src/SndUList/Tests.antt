-- ===== src/SndUList/Tests.antt =====
-- udt4/src/queue.cpp: `CSndUList` on small lists.
use udt_patch_for_epoll.Prelude.{
  ℕ, ◌<◌, ◌≡◌, ◌↔◌, refl, Bool, true, false, none, some, arith, ◌⊎◌, List, [], ◌∷◌,
}
use udt_patch_for_epoll.SndUList.{
  SndUList, new_list, insert, insert_node, sift_up, sift_down, update, remove, Packed, pop,
}
use udt_patch_for_epoll.SndUList.Order.{IsHeap, IsValid, schedule}
use udt_patch_for_epoll.SndUList.Removing.{FitsAt}
use udt_patch_for_epoll.SndUList.Leaving.{remove-keeps_order_iff}
use udt_patch_for_epoll.SndUList.Popping.{IsDue, Popped, pop_lem}
use udt_patch_for_epoll.SndUList.Calls.{
  Call, insert_call, update_call, pop_call, calls, calls_from_new-IsValid, InsideOrOverrun,
  calls-IsValid, Replays, Change, inserted, updated, removed, changes, changes-schedule,
}

abbrev blank : ℕ → ℕ
blank i = 0

abbrev usable : ℕ → Bool
usable u = true

-- A packet of 100 bytes; the next is for the time 20.
abbrev pack : ℕ → Packed
pack u = (100, 20)

abbrev six_calls : List Call
six_calls =
    insert_call 1 1
    ∷ insert_call 10 2
    ∷ insert_call 2 3
    ∷ insert_call 11 4
    ∷ insert_call 12 5
    ∷ insert_call 3 6
    ∷ []

-- Six sockets; the heap has the times 1, 10, 2, 11, 12, 3.
abbrev six : SndUList
six = calls (new_list blank) six_calls

six-IsValid : IsValid six
six-IsValid = calls_from_new-IsValid blank six_calls

abbrev four_calls : List Call
four_calls = insert_call 5 1 ∷ insert_call 3 2 ∷ update_call 1 ∷ pop_call 4 usable pack ∷ []

calls-IsValid_example :
    InsideOrOverrun
      (calls (new_list blank) four_calls)
      (IsValid (calls (new_list blank) four_calls))
      4
      1
calls-IsValid_example = calls-IsValid blank four_calls

-- Socket 2 is due first; it is sent and comes back at 20.
due_first :
    (pop (calls (new_list blank) (insert_call 5 1 ∷ insert_call 3 2 ∷ [])) 4 usable pack).0 ≡ some 2
unfolding calls new_list insert insert_node sift_up pop remove sift_down
due_first = refl

pop_lem_example :
    (((w t : ℕ) → schedule six w ≡ some t → 5 < t) × (pop six 5 usable pack ≡ (none, six)))
    ⊎ ((u : ℕ) × IsDue six 5 u × Popped six u (usable u) (pack u) (pop six 5 usable pack))
pop_lem_example = pop_lem six 5 usable pack six-IsValid

-- Without socket 4 the last node stands below a later one.
remove-keeps_order_iff_example : IsHeap (remove six 4) ↔ FitsAt six 3
unfolding calls new_list insert insert_node sift_up
remove-keeps_order_iff_example = remove-keeps_order_iff six 4 3 six-IsValid refl (omega arith)

-- A list with a full array, of one place: `insert` makes room first, `update` does not.
abbrev full : SndUList
full = insert (record (new_list blank) { array_length = 1 }) 5 1

update_overruns : (update full 2 false).overrun ≡ true
unfolding new_list insert insert_node sift_up update
update_overruns = refl

insert_grows : (insert full 5 2).overrun ≡ false
unfolding new_list insert insert_node sift_up
insert_grows = refl

abbrev moves : List Change
moves = inserted 5 1 ∷ inserted 3 2 ∷ updated 1 true ∷ removed 2 ∷ []

changes-schedule_example :
    InsideOrOverrun
      (changes (new_list blank) moves)
      (Replays (changes (new_list blank) moves) moves)
      4
      1
changes-schedule_example = changes-schedule blank moves
