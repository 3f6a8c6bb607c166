-- ===== src/RcvUList/Worker/Sorted.antt =====
-- udt4/src/queue.cpp: the order of the times on a `CRcvUList`, on which `CRcvQueue::worker` relies when
-- it stops at the first socket that is not due.
use udt_patch_for_epoll.Prelude.{
  ℕ, zero, suc, ◌+◌, ◌-◌, ◌<◌, ◌≤◌, ◌≡◌, ap, true, ◌==◌, ltb, if◌then◌else◌, put, arith, Bool-cases,
  inl, inr,
}
use udt_patch_for_epoll.Hash.{Hash}
use udt_patch_for_epoll.RcvUList.{RcvUList}
use udt_patch_for_epoll.RcvUList.Line.{Line, IsLine, joined, without}
use udt_patch_for_epoll.RcvUList.Worker.{Sockets, check_sockets}
use udt_patch_for_epoll.RcvUList.Worker.Due.{Checked}
use udt_patch_for_epoll.RcvUList.Worker.Ends.{check_sockets_ends}

-- The times do not decrease along the line.
abbrev pub IsSorted : (ℕ → ℕ) → Line → Type 0
IsSorted t q = (i j : ℕ) → i ≤ j → j < q.size → t (q.at i) ≤ t (q.at j)

same_number : (i k : ℕ) → (i == k) ≡ true → i ≡ k
same_number i k e = ground (arith, e)

due_among :
    (t : ℕ → ℕ) (q : Line) (ctime k : ℕ)
    → IsSorted t q
    → k ≤ q.size
    → (d : ℕ) × (d ≤ k)
      × ((i : ℕ) → i < d → t (q.at i) < ctime)
      × ((i : ℕ) → d ≤ i → i < k → ctime ≤ t (q.at i))
due_among t q ctime zero s h =
    (0, omega arith, λ i a. absurd (omega (arith, a)), λ i a b. absurd (omega (arith, b)))
due_among t q ctime (suc k) s h = elim (Bool-cases (ltb (t (q.at k)) ctime)) [
  | inl e ↦
      let below : t (q.at k) < ctime = ground (arith, e) in
      (
        suc k,
        omega arith,
        λ i a. omega (arith, s i k (omega (arith, a)) h, below),
        λ i a b. absurd (omega (arith, a, b)),
      )
  | inr e ↦
      let above : ctime ≤ t (q.at k) = ground (arith, e) in
      let (d, few, due, early) = due_among t q ctime k s (omega (arith, h)) in
      (
        d,
        omega (arith, few),
        due,
        λ i a b. elim (Bool-cases (i == k)) [
          | inl z ↦ rw (ap q.at (same_number i k z)) above
          | inr z ↦ early i a (ground (arith, z, b))
        ],
      )
]

moved_time :
    (t : ℕ → ℕ) (q : Line) (k now i : ℕ)
    → k < q.size
    → ((i j : ℕ) → i < q.size → j < q.size → q.at i ≡ q.at j → i ≡ j)
    → i < q.size - 1
    → put t (q.at k) now ((joined (without q k) (q.at k)).at i)
      ≡ t (q.at (if ltb i k then i else i + 1))
moved_time t q k now i h once a = grind (arith, once k i, once k (i + 1), h, a)

moved_to_end :
    (t : ℕ → ℕ) (q : Line) (k now i : ℕ)
    → i ≡ q.size - 1
    → put t (q.at k) now ((joined (without q k) (q.at k)).at i) ≡ now
moved_to_end t q k now i e = grind (arith, e)

inside_without :
    (n k i j : ℕ)
    → i ≤ j
    → j < n - 1
    → ((if ltb i k then i else i + 1) ≤ (if ltb j k then j else j + 1))
      × ((if ltb j k then j else j + 1) < n)
inside_without n k i j a b = (ground (arith, a, b), ground (arith, a, b))

-- An update at a time that is not before any on the list keeps the list in the order of its times.
pub moved-IsSorted :
    (t : ℕ → ℕ) (q : Line) (k now : ℕ)
    → IsSorted t q
    → ((i : ℕ) → i < q.size → t (q.at i) ≤ now)
    → k < q.size
    → ((i j : ℕ) → i < q.size → j < q.size → q.at i ≡ q.at j → i ≡ j)
    → IsSorted (put t (q.at k) now) (joined (without q k) (q.at k))
moved-IsSorted t q k now s late h once i j a b = elim (Bool-cases (ltb j (q.size - 1))) [
  | inl e ↦
      let c : j < q.size - 1 = ground (arith, e) in
      let (up, inside) = inside_without q.size k i j a c in
      rw (moved_time t q k now i h once (omega (arith, a, c)), moved_time t q k now j h once c)
        (s (if ltb i k then i else i + 1) (if ltb j k then j else j + 1) up inside)
  | inr e ↦ elim (Bool-cases (ltb i (q.size - 1))) [
    | inl f ↦
        let c : i < q.size - 1 = ground (arith, f) in
        rw (moved_time t q k now i h once c, moved_to_end t q k now j (ground (arith, e, b)))
          (late (if ltb i k then i else i + 1) (inside_without q.size k i i (omega arith) c).1)
    | inr f ↦
        rw
          (
            moved_to_end t q k now i (ground (arith, a, b, f)),
            moved_to_end t q k now j (ground (arith, e, b)),
          )
          (omega arith)
  ]
]

-- On a list that is in the order of its times, whose nodes are marked, and with a clock that is not
-- before `ctime`, the loop comes back when its fuel is more than the sockets on the list: it follows no
-- null pointer, and leaves a list of sockets of the first one that is linked right and on which none
-- is due.
pub check_sockets_sorted :
    {W : Type 0} (sockets : Sockets W) (fuel ctime : ℕ) (l : RcvUList) (q : Line) (h : Hash) (w : W)
    → ((w : W) → ctime ≤ sockets.clock w)
    → q.size < fuel
    → IsLine l q
    → ((i : ℕ) → i < q.size → l.on_list (q.at i) ≡ true)
    → IsSorted l.times q
    → Checked q ctime (check_sockets sockets fuel ctime l h w)
check_sockets_sorted sockets fuel ctime l q h w late f v marked s =
    let (d, few, due, early) = due_among l.times q ctime q.size s (omega arith) in
    check_sockets_ends sockets fuel ctime d l q h w late (omega (arith, few, f))
      (record { line = v; marked = marked; few = few; due = due; early = early })
