-- ===== src/AckWindow/Tests.antt =====
-- Runs of the window on concrete entries, which show that the hypotheses of its theorems hold.
use udt_patch_for_epoll.Prelude.{ℕ, ◌≡◌, ◌+◌, refl, some, [], ◌∷◌, arith}
use udt_patch_for_epoll.AckWindow.{AckWindow, find_seq, store_ack, acknowledge}
use udt_patch_for_epoll.AckWindow.Entries.{Entry, entries}
use udt_patch_for_epoll.AckWindow.Refines.{InWindow, Acknowledges, acknowledge_lem}
use udt_patch_for_epoll.AckWindow.Storing.{store_ack_lem}

-- Three entries of a window of four slots, over the end of the arrays.
abbrev window : AckWindow
window = record {
  seqs = λ i. i + 10;
  acks = λ i. i + 100;
  times = λ i. i + 1000;
  size = 4;
  head = 1;
  tail = 2;
}

abbrev stored : ℕ → Entry
stored i = record { seq = i + 10; ack = i + 100; time = i + 1000 }

window-InWindow : InWindow window
window-InWindow = record { head = omega arith; tail = omega arith }

acknowledge_lem_example : Acknowledges window 13 2000 (some (stored 3, stored 0 ∷ []))
acknowledge_lem_example = acknowledge_lem window 13 2000 window-InWindow

store_ack_lem_example :
    (entries (store_ack window 20 200 1500)
      ≡ stored 3 ∷ stored 0 ∷ record { seq = 20; ack = 200; time = 1500 } ∷ [])
    × InWindow (store_ack window 20 200 1500)
store_ack_lem_example = store_ack_lem window 20 200 1500 window-InWindow

-- The last entry leaves the window empty at its place, not at the start of the arrays.
emptied : acknowledge window 10 2000 ≡ (some (100, 1000), record window { tail = 1 })
unfolding acknowledge find_seq
emptied = refl
