-- ===== src/ThreadsafeQueue/History.antt =====
-- The shared queue under any interleaving of its callers' steps.
use udt_patch_for_epoll.Prelude.{
  ◌≡◌, refl, sym, ap, ◌∙◌, Option, none, some, List, [], ◌∷◌, ◌++◌, append_assoc, append-nil,
}
use udt_patch_for_epoll.ThreadsafeQueue
use udt_patch_for_epoll.ThreadsafeQueue.{ThreadsafeQueue, wait_and_pop, try_pop, grab_all}

-- A call of some thread that changes the queue.
pub data Call {ℓ} (A : Type ℓ) : Type ℓ where
  pushes : A → Call A
  waits : Call A
  tries : Call A
  grabs : Call A

module _ {ℓ} {A : Type ℓ} where
  abbrev pub pushed : List (Call A) → List A
  pushed [] = []
  pushed (pushes x ∷ cs) = x ∷ pushed cs
  pushed (waits ∷ cs) = pushed cs
  pushed (tries ∷ cs) = pushed cs
  pushed (grabs ∷ cs) = pushed cs

  -- What a pop that may wait hands out: nothing while it waits.
  abbrev popped : ThreadsafeQueue A → Option (A × ThreadsafeQueue A) → List A × ThreadsafeQueue A
  popped q none = ([], q)
  popped q (some (x, q')) = (x ∷ [], q')

  abbrev tried : Option A × ThreadsafeQueue A → List A × ThreadsafeQueue A
  tried (none, q) = ([], q)
  tried (some x, q) = (x ∷ [], q)

  -- A step, and the elements that it hands to its caller.
  unfoldable pub step : ThreadsafeQueue A → Call A → List A × ThreadsafeQueue A
  step q (pushes x) = ([], ThreadsafeQueue.push q x)
  step q waits = popped q (wait_and_pop q)
  step q tries = tried (try_pop q)
  step q grabs = grab_all q

  -- The elements that a sequence of steps hands out, in the order of the steps.
  unfoldable pub run : ThreadsafeQueue A → List (Call A) → List A × ThreadsafeQueue A
  run q [] = ([], q)
  run q (c ∷ cs) = let (out, q1) = step q c in let (outs, q2) = run q1 cs in (out ++ outs, q2)

  step_conserves :
      (xs : List A) (c : Call A)
      → let (out, q') = step (record { data_queue = xs }) c in
        out ++ q'.data_queue ≡ xs ++ pushed (c ∷ [])
  unfolding step ThreadsafeQueue.push wait_and_pop try_pop grab_all
  step_conserves xs (pushes x) = refl
  step_conserves [] waits = refl
  step_conserves (x ∷ xs) waits = ap (◌∷◌ x) (sym (append-nil xs))
  step_conserves [] tries = refl
  step_conserves (x ∷ xs) tries = ap (◌∷◌ x) (sym (append-nil xs))
  step_conserves xs grabs = refl

  pushed_cons : (c : Call A) (cs : List (Call A)) → pushed (c ∷ cs) ≡ pushed (c ∷ []) ++ pushed cs
  pushed_cons (pushes x) cs = refl
  pushed_cons waits cs = refl
  pushed_cons tries cs = refl
  pushed_cons grabs cs = refl

  -- Whatever the order in which threads push, pop, wait and grab: the elements handed out, in the
  -- order of the steps, followed by those left in the queue, are those that were there at first
  -- followed by those pushed. None is lost, duplicated or overtaken.
  pub run_conserves :
      (q : ThreadsafeQueue A) (cs : List (Call A))
      → let (outs, q') = run q cs in outs ++ q'.data_queue ≡ q.data_queue ++ pushed cs
  unfolding run
  run_conserves q [] = sym (append-nil q.data_queue)
  run_conserves q (c ∷ cs) =
      let (out, q1) = step q c in
      let (outs, q2) = run q1 cs in
      append_assoc out outs q2.data_queue
      ∙ ap (◌++◌ out) (run_conserves q1 cs)
      ∙ sym (append_assoc out q1.data_queue (pushed cs))
      ∙ ap (λ (ys : List A). ys ++ pushed cs) (step_conserves q.data_queue c)
      ∙ append_assoc q.data_queue (pushed (c ∷ [])) (pushed cs)
      ∙ ap (◌++◌ q.data_queue) (sym (pushed_cons c cs))
