-- ===== src/SndUList/Calls.antt =====
-- udt4/src/queue.cpp: sequences of calls of `CSndUList`.
use udt_patch_for_epoll.Prelude.{
  ℕ, suc, ◌+◌, ◌<◌, ◌≤◌, ◌⊎◌, ◌≡◌, refl, ap, ◌∙◌, Bool, true, false, Bool-cases, inl, inr, length,
  Option, none, some, arith, ◌==◌, if◌then◌else◌, List, [], ◌∷◌,
}
use udt_patch_for_epoll.SndUList.{SndUList, new_list, insert, remove, update, Packed, pop}
use udt_patch_for_epoll.SndUList.Order.{IsHeap, IsPlaced, IsValid, schedule}
use udt_patch_for_epoll.SndUList.Inserting.{
  planned, insert-IsPlaced, insert-IsValid, insert-schedule,
}
use udt_patch_for_epoll.SndUList.Removing.{remove-IsPlaced, remove-schedule}
use udt_patch_for_epoll.SndUList.Popping.{pop-IsValid}
use udt_patch_for_epoll.SndUList.Room.{HasRoom, more_calls, insert-HasRoom, remove-HasRoom}
use udt_patch_for_epoll.SndUList.Overrun.{update-HasRoom, pop-HasRoom}
use udt_patch_for_epoll.SndUList.Updating.{update-IsPlaced, update-keeps-IsValid, update-schedule}

new_list-IsPlaced : (memory : ℕ → ℕ) → IsPlaced (new_list memory)
unfolding new_list
new_list-IsPlaced memory = record {
  placed = λ i a. absurd (omega (arith, a));
  on_heap = λ w i e. absurd (grind (arith, e));
}

new_list-IsHeap : (memory : ℕ → ℕ) → IsHeap (new_list memory)
unfolding new_list
new_list-IsHeap memory c a b = absurd (omega (arith, b))

-- The calls that take no socket from the middle of the heap, each with what `pop` asks of the sockets.
pub data Call : Type 0 where
  insert_call : ℕ → ℕ → Call
  update_call : ℕ → Call
  pop_call : ℕ → (ℕ → Bool) → (ℕ → Packed) → Call

abbrev pub call : SndUList → Call → SndUList
call l (insert_call ts u) = insert l ts u
call l (update_call u) = update l u false
call l (pop_call now is_usable pack) = (pop l now is_usable pack).1

unfoldable pub calls : SndUList → List Call → SndUList
calls l [] = l
calls l (c ∷ cs) = calls (call l c) cs

-- How many of the calls are of `update`.
abbrev pub updates : List Call → ℕ
updates [] = 0
updates (update_call u ∷ cs) = suc (updates cs)
updates (insert_call ts u ∷ cs) = updates cs
updates (pop_call now is_usable pack ∷ cs) = updates cs

call-IsValid : (l : SndUList) (c : Call) → IsValid l → IsValid (call l c)
call-IsValid l (insert_call ts u) v = insert-IsValid l ts u v
call-IsValid l (update_call u) v = update-keeps-IsValid l u v
call-IsValid l (pop_call now is_usable pack) v = pop-IsValid l now is_usable pack v

calls_keep-IsValid : (l : SndUList) (cs : List Call) → IsValid l → IsValid (calls l cs)
unfolding calls
calls_keep-IsValid l [] v = v
calls_keep-IsValid l (c ∷ cs) v = calls_keep-IsValid (call l c) cs (call-IsValid l c v)

calls_keep-HasRoom :
    (n m : ℕ) (l : SndUList) (cs : List Call)
    → IsValid l
    → HasRoom n m l
    → HasRoom (n + length cs) (m + updates cs) (calls l cs)
unfolding calls
calls_keep-HasRoom n m l [] v r = more_calls n m _ _ l (omega arith) (omega arith) r
calls_keep-HasRoom n m l (insert_call ts u ∷ cs) v r =
    more_calls _ _ _ _ _ (omega arith) (omega arith) (
      calls_keep-HasRoom (suc n) m (insert l ts u) cs (insert-IsValid l ts u v)
        (insert-HasRoom n m l ts u v.places r))
calls_keep-HasRoom n m l (update_call u ∷ cs) v r =
    more_calls _ _ _ _ _ (omega arith) (omega arith) (
      calls_keep-HasRoom (suc n) (suc m) (update l u false) cs (update-keeps-IsValid l u v)
        (update-HasRoom n m l u false v.places r))
calls_keep-HasRoom n m l (pop_call now is_usable pack ∷ cs) v r =
    more_calls _ _ _ _ _ (omega arith) (omega arith) (
      calls_keep-HasRoom (suc n) m (pop l now is_usable pack).1 cs
        (pop-IsValid l now is_usable pack v) (pop-HasRoom n m l now is_usable pack v r))

new_list-IsValid : (memory : ℕ → ℕ) → IsValid (new_list memory)
new_list-IsValid memory = record {
  order = new_list-IsHeap memory;
  places = new_list-IsPlaced memory;
}

pub calls_from_new-IsValid :
    (memory : ℕ → ℕ) (cs : List Call) → IsValid (calls (new_list memory) cs)
calls_from_new-IsValid memory cs = calls_keep-IsValid (new_list memory) cs (new_list-IsValid memory)

new_list-HasRoom : (memory : ℕ → ℕ) → HasRoom 0 0 (new_list memory)
unfolding new_list
new_list-HasRoom memory = record {
  long = omega arith;
  few = omega arith;
  fits = λ e. omega arith;
  late = λ e. absurd (ground (arith, e));
}

-- Whether the nodes stayed inside the array, with what then holds; and when they need not have.
abbrev pub InsideOrOverrun : SndUList → Type 0 → ℕ → ℕ → Type 0
InsideOrOverrun l A n m =
    ((l.overrun ≡ false) × (l.count ≤ l.array_length) × A)
    ⊎ ((l.overrun ≡ true) × (4096 < n) × (0 < m))

inside_or_overrun :
    (l : SndUList) (A : Type 0) (n m : ℕ) → HasRoom n m l → A → InsideOrOverrun l A n m
inside_or_overrun l A n m r a = elim (Bool-cases l.overrun) [
  | inl t ↦ inr (t, (r.late t).0, (r.late t).1)
  | inr t ↦ inl (t, r.fits t, a)
]

-- From a new list on, whatever calls of `insert`, `update` without rescheduling and `pop` are made:
-- no node was written behind the end of the heap's array, the nodes fit in it, the heap is in order
-- and every node on it knows its position; or else a node was written behind the end, which takes
-- more than 4096 calls, one of `update` among them.
pub calls-IsValid :
    (memory : ℕ → ℕ) (cs : List Call)
    → let l = calls (new_list memory) cs in InsideOrOverrun l (IsValid l) (length cs) (updates cs)
calls-IsValid memory cs =
    let v = new_list-IsValid memory in
    inside_or_overrun (calls (new_list memory) cs) _ _ _
      (more_calls _ _ _ _ _ (omega arith) (omega arith)
        (calls_keep-HasRoom 0 0 (new_list memory) cs v (new_list-HasRoom memory)))
      (calls_from_new-IsValid memory cs)

-- The calls that change one socket's entry.
pub data Change : Type 0 where
  inserted : ℕ → ℕ → Change
  updated : ℕ → Bool → Change
  removed : ℕ → Change

abbrev pub change : SndUList → Change → SndUList
change l (inserted ts u) = insert l ts u
change l (updated u b) = update l u b
change l (removed u) = remove l u

unfoldable pub changes : SndUList → List Change → SndUList
changes l [] = l
changes l (c ∷ cs) = changes (change l c) cs

abbrev pub target : Change → ℕ
target (inserted ts u) = u
target (updated u b) = u
target (removed u) = u

-- What a change makes of the time of its socket.
abbrev pub changed : Change → Option ℕ → Option ℕ
changed (inserted ts u) t = some (planned ts t)
changed (updated u b) t = some (if b then 1 else planned 1 t)
changed (removed u) t = none

-- The time of socket `w` after the changes, on its own.
unfoldable pub replayed : ℕ → Option ℕ → List Change → Option ℕ
replayed w t [] = t
replayed w t (c ∷ cs) = replayed w (if target c == w then changed c t else t) cs

change-IsPlaced : (l : SndUList) (c : Change) → IsPlaced l → IsPlaced (change l c)
change-IsPlaced l (inserted ts u) v = insert-IsPlaced l ts u v
change-IsPlaced l (updated u b) v = update-IsPlaced l u b v
change-IsPlaced l (removed u) v = remove-IsPlaced l u v

unless_target :
    (u w : ℕ) (f : Option ℕ → Option ℕ) (s : ℕ → Option ℕ)
    → (if u == w then f (s u) else s w) ≡ (if u == w then f (s w) else s w)
unless_target u w f s = grind arith

change-schedule :
    (l : SndUList) (c : Change) (w : ℕ)
    → IsPlaced l
    → schedule (change l c) w ≡ (if target c == w then changed c (schedule l w) else schedule l w)
change-schedule l (inserted ts u) w v =
    insert-schedule l ts u w v ∙ unless_target u w (changed (inserted ts u)) (schedule l)
change-schedule l (updated u b) w v =
    update-schedule l u w b v ∙ unless_target u w (changed (updated u b)) (schedule l)
change-schedule l (removed u) w v = remove-schedule l u w v

changes_keep :
    (l : SndUList) (cs : List Change)
    → IsPlaced l
    → IsPlaced (changes l cs) × ((w : ℕ) → schedule (changes l cs) w ≡ replayed w (schedule l w) cs)
unfolding changes replayed
changes_keep l [] v = (v, λ w. refl)
changes_keep l (c ∷ cs) v =
    let kept = changes_keep (change l c) cs (change-IsPlaced l c v) in
    (kept.0, λ w. kept.1 w ∙ ap (λ t. replayed w t cs) (change-schedule l c w v))

-- How many of the changes are of `update`.
abbrev pub updates_of : List Change → ℕ
updates_of [] = 0
updates_of (updated u b ∷ cs) = suc (updates_of cs)
updates_of (inserted ts u ∷ cs) = updates_of cs
updates_of (removed u ∷ cs) = updates_of cs

changes_keep-HasRoom :
    (n m : ℕ) (l : SndUList) (cs : List Change)
    → IsPlaced l
    → HasRoom n m l
    → HasRoom (n + length cs) (m + updates_of cs) (changes l cs)
unfolding changes
changes_keep-HasRoom n m l [] v r = more_calls n m _ _ l (omega arith) (omega arith) r
changes_keep-HasRoom n m l (inserted ts u ∷ cs) v r =
    more_calls _ _ _ _ _ (omega arith) (omega arith) (
      changes_keep-HasRoom (suc n) m (insert l ts u) cs (insert-IsPlaced l ts u v)
        (insert-HasRoom n m l ts u v r))
changes_keep-HasRoom n m l (updated u b ∷ cs) v r =
    more_calls _ _ _ _ _ (omega arith) (omega arith) (
      changes_keep-HasRoom (suc n) (suc m) (update l u b) cs (update-IsPlaced l u b v)
        (update-HasRoom n m l u b v r))
changes_keep-HasRoom n m l (removed u ∷ cs) v r =
    more_calls _ _ _ _ _ (omega arith) (omega arith) (
      changes_keep-HasRoom n m (remove l u) cs (remove-IsPlaced l u v) (remove-HasRoom n m l u v r))

-- What the list is to hold after the changes.
abbrev pub Replays : SndUList → List Change → Type 0
Replays l cs = IsPlaced l × ((w : ℕ) → schedule l w ≡ replayed w none cs)

-- From a new list on, whatever calls of `insert`, `update` and `remove` are made: no node was written
-- behind the end of the heap's array, the nodes fit in it, every node on the heap knows its position,
-- and the list holds the sockets and times that one gets by replaying the calls on each socket on
-- its own; or else a node was written behind the end, which takes more than 4096 calls, one of
-- `update` among them.
pub changes-schedule :
    (memory : ℕ → ℕ) (cs : List Change)
    → let l = changes (new_list memory) cs in
      InsideOrOverrun l (Replays l cs) (length cs) (updates_of cs)
unfolding new_list
changes-schedule memory cs =
    inside_or_overrun (changes (new_list memory) cs) _ _ _
      (more_calls _ _ _ _ _ (omega arith) (omega arith) (
        changes_keep-HasRoom 0 0 (new_list memory) cs (new_list-IsPlaced memory)
          (new_list-HasRoom memory)))
      (changes_keep (new_list memory) cs (new_list-IsPlaced memory))
