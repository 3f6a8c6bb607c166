-- ===== src/RcvUList/Worker/Due.antt =====
-- udt4/src/queue.cpp: the sockets that are due when `CRcvQueue::worker` checks the timers.
use udt_patch_for_epoll.Prelude.{
  ℕ, suc, ◌+◌, ◌-◌, ◌<◌, ◌≤◌, ◌≡◌, refl, ap, ◌∙◌, true, Option, some, ◌==◌, put, arith, Bool-cases,
  inl, inr,
}
use udt_patch_for_epoll.Hash.{Hash}
use udt_patch_for_epoll.RcvUList.{RcvUList, stamped}
use udt_patch_for_epoll.RcvUList.Line.{Line, IsLine, joined, without}
use udt_patch_for_epoll.RcvUList.Linking.{IsAlike}
use udt_patch_for_epoll.RcvUList.Unlinking.{remove-IsLine, remove-IsAlike}
use udt_patch_for_epoll.RcvUList.Worker.{Sockets, dropped}

-- On the line, whose nodes are marked, the first `d` sockets and no others are due.
pub record IsDue (l : RcvUList) (q : Line) (ctime d : ℕ) : Type 0 where
  pub line : IsLine l q
  pub marked : (i : ℕ) → i < q.size → l.on_list (q.at i) ≡ true
  pub few : d ≤ q.size
  pub due : (i : ℕ) → i < d → l.times (q.at i) < ctime
  pub early : (i : ℕ) → d ≤ i → i < q.size → ctime ≤ l.times (q.at i)

moved_due :
    (t : ℕ → ℕ) (q : Line) (ctime d now i : ℕ)
    → ((i j : ℕ) → i < q.size → j < q.size → q.at i ≡ q.at j → i ≡ j)
    → suc d ≤ q.size
    → ((i : ℕ) → i < suc d → t (q.at i) < ctime)
    → i < d
    → put t (q.at 0) now ((joined (without q 0) (q.at 0)).at i) < ctime
moved_due t q ctime d now i once few due h = grind (arith, due (i + 1), once 0 (i + 1), few, h)

moved_early :
    (t : ℕ → ℕ) (q : Line) (ctime d now i : ℕ)
    → suc d ≤ q.size
    → ((i : ℕ) → suc d ≤ i → i < q.size → ctime ≤ t (q.at i))
    → ctime ≤ now
    → d ≤ i
    → i < (joined (without q 0) (q.at 0)).size
    → ctime ≤ put t (q.at 0) now ((joined (without q 0) (q.at 0)).at i)
moved_early t q ctime d now i few early c k h = grind (arith, early (i + 1), few, c, k, h)

pub updated-IsDue :
    (l l1 : RcvUList) (q : Line) (ctime d now : ℕ)
    → IsDue l q ctime (suc d)
    → ctime ≤ now
    → IsLine l1 (joined (without q 0) (q.at 0))
    → IsAlike (stamped l (q.at 0) now) l1
    → IsDue l1 (joined (without q 0) (q.at 0)) ctime d
updated-IsDue l l1 q ctime d now v c line a =
    let at = (joined (without q 0) (q.at 0)).at in
    record {
      line = line;
      marked = λ i h.
          ap (λ f. f (at i)) a.marked ∙ grind (arith, v.marked (i + 1), v.marked 0, h, v.few);
      few = omega (arith, v.few);
      due = λ i h. omega (
        arith,
        ap (λ f. f (at i)) a.timed,
        moved_due l.times q ctime d now i v.line.once v.few v.due h,
      );
      early = λ i k h. omega (
        arith,
        ap (λ f. f (at i)) a.timed,
        moved_early l.times q ctime d now i v.few v.early c k h,
      );
    }

pub dropped-IsDue :
    {W : Type 0} (sockets : Sockets W) (l : RcvUList) (q : Line) (ctime d : ℕ)
    → IsDue l q ctime (suc d)
    → IsDue (dropped sockets l (q.at 0)) (without q 0) ctime d
dropped-IsDue sockets l q ctime d v =
    let inside : 0 < q.size = omega (arith, v.few) in
    let r = remove-IsLine l q 0 v.line inside (v.marked 0 inside) in
    let a = remove-IsAlike l (q.at 0) (v.marked 0 inside) in
    record {
      line = record {
        first = r.first;
        last = r.last;
        nexts = r.nexts;
        prevs = r.prevs;
        once = r.once;
      };
      marked = λ i h. grind (
        arith,
        ap (λ f. f (q.at (i + 1))) a.marked,
        v.marked (i + 1),
        v.line.once 0 (i + 1),
        h,
        v.few,
      );
      few = omega (arith, v.few);
      due = λ i h. ground (arith, ap (λ f. f (q.at (i + 1))) a.timed, v.due (i + 1), h);
      early =
          λ i k h. ground (arith, ap (λ f. f (q.at (i + 1))) a.timed, v.early (i + 1), k, h, v.few);
    }

-- Every socket of the first line stands on the second.
abbrev pub IsWithin : Line → Line → Type 0
IsWithin r q = (i : ℕ) → i < r.size → (j : ℕ) × (j < q.size) × (r.at i ≡ q.at j)

pub moved-IsWithin : (q : Line) → 0 < q.size → IsWithin (joined (without q 0) (q.at 0)) q
moved-IsWithin q k i h = elim (Bool-cases (q.size - 1 == i)) [
  | inl e ↦ (0, k, rw (e) refl)
  | inr e ↦ (i + 1, ground (arith, e, h), rw (e) (ground arith))
]

pub without-IsWithin : (q : Line) → IsWithin (without q 0) q
without-IsWithin q i h = (i + 1, omega (arith, h), ground arith)

pub IsWithin-trans : (a b c : Line) → IsWithin a b → IsWithin b c → IsWithin a c
IsWithin-trans a b c f g i h = let (j, k, e) = f i h in let (m, n, z) = g j k in (m, n, e ∙ z)

-- The loop comes back with sockets of the first line, none of which is due.
abbrev pub Checked : {W : Type 0} → Line → ℕ → Option (RcvUList × Hash × W) → Type 0
Checked {W} q ctime r =
    (l1 : RcvUList) × (h1 : Hash) × (w1 : W) × (q1 : Line) × (r ≡ some (l1, h1, w1))
    × IsDue l1 q1 ctime 0
    × IsWithin q1 q
