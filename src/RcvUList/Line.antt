-- ===== src/RcvUList/Line.antt =====
-- udt4/src/queue.cpp: the sequence of sockets that a `CRcvUList` stands for.
use udt_patch_for_epoll.Prelude.{
  ℕ, ◌+◌, ◌-◌, ◌<◌, ◌≡◌, ◌≢◌, none, some, ◌==◌, ltb, if◌then◌else◌, put,
}
use udt_patch_for_epoll.RcvUList.{RcvUList}

-- `size` sockets, `at` the positions below.
pub record Line : Type 0 where
  pub at : ℕ → ℕ
  pub size : ℕ

-- The links, followed from either end, are those of the line, in which no socket stands twice.
pub record IsLine (l : RcvUList) (q : Line) : Type 0 where
  pub first : l.first ≡ (if q.size == 0 then none else some (q.at 0))
  pub last : l.last ≡ (if q.size == 0 then none else some (q.at (q.size - 1)))
  pub nexts :
      (i : ℕ)
      → i < q.size
      → l.nexts (q.at i) ≡ (if i + 1 == q.size then none else some (q.at (i + 1)))
  pub prevs :
      (i : ℕ) → i < q.size → l.prevs (q.at i) ≡ (if i == 0 then none else some (q.at (i - 1)))
  pub once : (i j : ℕ) → i < q.size → j < q.size → q.at i ≡ q.at j → i ≡ j

-- The line with `u` at its end, and without the socket at `k`.
abbrev pub joined : Line → ℕ → Line
joined q u = record { at = put q.at q.size u; size = q.size + 1 }

abbrev pub without : Line → ℕ → Line
without q k = record { at = λ i. if ltb i k then q.at i else q.at (i + 1); size = q.size - 1 }

abbrev pub IsAbsent : Line → ℕ → Type 0
IsAbsent q u = (i : ℕ) → i < q.size → q.at i ≢ u
