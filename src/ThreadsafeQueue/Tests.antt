-- ===== src/ThreadsafeQueue/Tests.antt =====
-- Runs of the shared queue, and its theorem at such a run.
use udt_patch_for_epoll.Prelude.{ℕ, ◌≡◌, refl, List, [], ◌∷◌, ◌++◌}
use udt_patch_for_epoll.ThreadsafeQueue
use udt_patch_for_epoll.ThreadsafeQueue.{new_queue, wait_and_pop, try_pop, grab_all}
use udt_patch_for_epoll.ThreadsafeQueue.History.{
  Call, pushes, waits, tries, grabs, run, step, run_conserves,
}

abbrev calls : List (Call ℕ)
calls = tries ∷ pushes 1 ∷ pushes 2 ∷ waits ∷ pushes 3 ∷ grabs ∷ pushes 4 ∷ []

hands_out : (run new_queue calls).0 ≡ 1 ∷ 2 ∷ 3 ∷ []
unfolding run step ThreadsafeQueue.push wait_and_pop try_pop grab_all
hands_out = refl

run_conserves_example :
    (run new_queue calls).0 ++ (run new_queue calls).1.data_queue ≡ 1 ∷ 2 ∷ 3 ∷ 4 ∷ []
run_conserves_example = run_conserves new_queue calls
