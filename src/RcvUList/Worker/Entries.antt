-- ===== src/RcvUList/Worker/Entries.antt =====
-- udt4/src/queue.cpp: how `CRcvQueue::worker` lists the sockets that wait for it.
use udt_patch_for_epoll.Prelude.{ℕ, ◌≡◌, refl, ap, ◌∙◌, some, List, [], ◌∷◌}
use udt_patch_for_epoll.Hash.{Hash, insert_id}
use udt_patch_for_epoll.RcvUList.{RcvUList}
use udt_patch_for_epoll.RcvUList.Line.{Line, IsLine, joined, IsAbsent}
use udt_patch_for_epoll.RcvUList.Linking.{insert-IsLine}
use udt_patch_for_epoll.RcvUList.Worker.{Sockets, after_insert, add_entries}

-- The line with the sockets of the entries at its end, none of which was on it when its turn came.
abbrev pub extended : Line → List (ℕ × ℕ) → Line
extended q [] = q
extended q ((u, now) ∷ us) = extended (joined q u) us

abbrev pub IsFresh : Line → List (ℕ × ℕ) → Type 0
IsFresh q [] = Unit
IsFresh q ((u, now) ∷ us) = IsAbsent q u × IsFresh (joined q u) us

module _ {W : Type 0} (sockets : Sockets W) where
  abbrev hashed : Hash → List (ℕ × ℕ) → Hash
  hashed h [] = h
  hashed h ((u, now) ∷ us) = hashed (insert_id h (sockets.socket_id u) u) us

  -- If no entry is listed yet or comes twice, the loop follows no null pointer: it puts the entries at
  -- the end of the list in their order, and inserts each into the hash table.
  pub add_entries-IsLine :
      (us : List (ℕ × ℕ)) (l : RcvUList) (q : Line) (h : Hash)
      → IsLine l q
      → IsFresh q us
      → (l1 : RcvUList) × (add_entries sockets us l h ≡ some (l1, hashed h us))
        × IsLine l1 (extended q us)
  unfolding add_entries
  add_entries-IsLine [] l q h v f = (l, refl, v)
  add_entries-IsLine ((u, now) ∷ us) l q h v (a, f) =
      let (l1, made, line) = insert-IsLine l q u now v a in
      let h1 = insert_id h (sockets.socket_id u) u in
      let (l2, rest, r) = add_entries-IsLine us l1 (joined q u) h1 line f in
      (l2, ap (after_insert sockets (λ l1. add_entries sockets us l1 h1)) made ∙ rest, r)
