-- ===== src/UnitQueue/Counting.antt =====
-- udt4/src/queue.cpp: the count and the size of `CUnitQueue`.
use udt_patch_for_epoll.Prelude.{ℕ, zero, suc, ◌*◌, ◌<◌, ◌≤◌, ◌≡◌, ltb, arith, Bool-cases, inl, inr}
use udt_patch_for_epoll.UnitQueue.{UnitQueue, used, real_count, increase}

-- The positions lie in the queues, and the size is that of all queues together.
pub record IsValid (q : UnitQueue) : Type 0 where
  pub unit : q.avail < q.each
  pub queue : q.curr < q.queues
  pub sized : q.size ≡ q.queues * q.each

used-bound : (flag : ℕ → ℕ) (n : ℕ) → used flag n ≤ n
unfolding used
used-bound flag zero = omega arith
used-bound flag (suc n) = ground (arith, used-bound flag n)

real_count-bound : (flags : ℕ → ℕ → ℕ) (each k : ℕ) → real_count flags each k ≤ k * each
unfolding real_count
real_count-bound flags each zero = omega arith
real_count-bound flags each (suc k) =
    omega (arith, real_count-bound flags each k, used-bound (flags k) each)

pub increase-IsValid : (q : UnitQueue) → IsValid q → IsValid (increase q)
unfolding increase
increase-IsValid q v =
    elim (Bool-cases (ltb (real_count q.flags q.each q.queues * 10) (q.size * 9))) [
      | inl e ↦ rw (e) (record { unit = v.unit; queue = v.queue; sized = v.sized })
      | inr e ↦
          rw (e) (record {
            unit = v.unit;
            queue = omega (arith, v.queue);
            sized = omega (arith, v.sized);
          })
    ]

-- After `increase` the count is below the size.
pub increase-room : (q : UnitQueue) → IsValid q → (increase q).count < (increase q).size
unfolding increase
increase-room q v =
    let bound = real_count-bound q.flags q.each q.queues in
    elim (Bool-cases (ltb (real_count q.flags q.each q.queues * 10) (q.size * 9))) [
      | inl e ↦ rw (e) (ground (arith, e))
      | inr e ↦ rw (e) (omega (arith, bound, v.sized, v.unit))
    ]
