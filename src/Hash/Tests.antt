-- ===== src/Hash/Tests.antt =====
-- udt4/src/queue.cpp: `CHash` on a small table.
use udt_patch_for_epoll.Prelude.{◌≡◌, refl, some, List, [], ◌∷◌}
use udt_patch_for_epoll.Hash.{new_hash, lookup_id, insert_id, find_id}
use udt_patch_for_epoll.Hash.Stacks.{Call, inserted, removed, calls, top, stacked, lookup_id-calls}

-- 7 and 2 share a place of a table of five.
abbrev shared_place : List Call
shared_place = inserted 7 70 ∷ inserted 2 20 ∷ removed 7 ∷ []

both_found : lookup_id (insert_id (insert_id (new_hash 5) 7 70) 2 20) 7 ≡ some 70
unfolding new_hash lookup_id insert_id find_id
both_found = refl

lookup_id-calls_example :
    lookup_id (calls (new_hash 5) shared_place) 2 ≡ top (stacked 2 [] shared_place)
lookup_id-calls_example = lookup_id-calls 5 shared_place 2
