-- ===== src/UnitQueue/Tests.antt =====
-- udt4/src/queue.cpp: `CUnitQueue` on small queues.
use udt_patch_for_epoll.Prelude.{ℕ, ◌≡◌, ◌==◌, if◌then◌else◌, refl, none, some, arith, inr}
use udt_patch_for_epoll.UnitQueue.{
  UnitQueue, init, increase, find_free, search, used, real_count, next_avail_unit,
}
use udt_patch_for_epoll.UnitQueue.Counting.{IsValid}
use udt_patch_for_epoll.UnitQueue.Calls.{
  prepared, Got, next_avail_unit_lem, init-IsValid, reflagged, unit_after_none,
}

next_avail_unit_lem_example : Got (prepared (init 4)) (next_avail_unit (init 4))
next_avail_unit_lem_example = next_avail_unit_lem (init 4) (init-IsValid 4 (omega arith))

-- Four units of which all but the last are in use; three of four do not make the queue nearly full.
abbrev one_left : UnitQueue
one_left = reflagged (init 4) (λ x i. if i == 3 then 0 else 1) 3

one_left-IsValid : IsValid one_left
unfolding init
one_left-IsValid = record { unit = omega arith; queue = omega arith; sized = omega arith }

last_is_never_given : (next_avail_unit one_left).0 ≡ none
unfolding next_avail_unit init search find_free increase used real_count
last_is_never_given = refl

unit_after_none_example :
    (p : ℕ × ℕ) × ((next_avail_unit (reflagged (next_avail_unit one_left).1 (λ x i. 0) 0)).0
      ≡ some p)
unfolding next_avail_unit init search find_free increase used real_count
unit_after_none_example =
    unit_after_none one_left (λ x i. 0) 0 0 2 one_left-IsValid refl (omega arith)
      (inr (omega arith, omega arith)) refl
