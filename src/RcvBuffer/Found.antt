-- ===== src/RcvBuffer/Found.antt =====
-- udt4/src/buffer.cpp: the second loop of `scanMsg`, which looks for a message.
use udt_patch_for_epoll.Prelude.{
  ℕ, ◌<◌, ◌≤◌, Bool, ◌||◌, ◌≡◌, refl, ap, ◌∙◌, true, false, Option, none, some, arith, ◌==◌,
  Bool-cases, inl, inr,
}
use udt_patch_for_epoll.RcvBuffer.{
  RcvUnit, RcvBuffer, next_pos, is_some, msg_boundary, Scan, visit, may_read,
}
use udt_patch_for_epoll.RcvBuffer.Positions.{dist, dist_self}
use udt_patch_for_epoll.RcvBuffer.Skip.{InRing}

-- Every position from `p` to before `q` has a unit.
abbrev pub Filled : RcvBuffer → ℕ → ℕ → Type 0
Filled b p q =
    (j : ℕ) → j < b.size → dist b.size p j < dist b.size p q → (u : RcvUnit) × (b.units j ≡ some u)

-- The head of a message that the second loop has found, if any, lies in the ring with units from it
-- to the position reached.
abbrev pub RunFrom : RcvBuffer → Option ℕ → ℕ → Type 0
RunFrom b none q = Unit
RunFrom b (some p) q = (p < b.size) × Filled b p q

pub RunFrom-next :
    (b : RcvBuffer) (p : Option ℕ) (q : ℕ) (u : RcvUnit)
    → q < b.size
    → b.units q ≡ some u
    → RunFrom b p q
    → RunFrom b p (next_pos b.size q)
RunFrom-next b none q u h e r = tt
RunFrom-next b (some p) q u h e (k, f) = (
  k,
  λ j m d. elim (Bool-cases (j == q)) [
    | inl t ↦ (u, ap b.units (ground arith) ∙ e)
    | inr t ↦ f j m (ground arith)
  ],
)

-- How the second loop stands at each round.
pub record Standing (b : RcvBuffer) (s : Scan) : Type 0 where
  pub inside : s.q < b.size
  pub head : RunFrom b s.p s.q
  pub before :
      s.passack ≡ false → dist b.size b.start_pos s.q < dist b.size b.start_pos b.last_ack_pos

-- How it ends: a message that it found has its units, up to the last one.
abbrev pub Reads : RcvBuffer → Option ℕ → ℕ → Type 0
Reads b none stop = ⊥
Reads b (some p) stop = (p < b.size) × Filled b p stop

pub from_here : (b : RcvBuffer) (q : ℕ) → q < b.size → RunFrom b (some q) q
from_here b q h = (h, λ j m d. absurd (ground (arith, dist_self b.size q)))

pub visit-RunFrom :
    (b : RcvBuffer) (s : Scan) (o : Option RcvUnit)
    → b.units s.q ≡ o
    → Standing b s
    → RunFrom b (visit o s).p (next_pos b.size s.q)
unfolding visit
visit-RunFrom b s none e v = tt
visit-RunFrom b s (some u) e v =
    let kept = RunFrom-next b s.p s.q u v.inside e v.head in
    let begun = RunFrom-next b (some s.q) s.q u v.inside e (from_here b s.q v.inside) in
    elim (Bool-cases (u.flag == 1)) [
      | inr t ↦ rw t tt
      | inl t ↦ elim (Bool-cases (msg_boundary u == 3)) [
        | inl x ↦ rw (t, x) begun
        | inr x ↦ elim (Bool-cases (msg_boundary u == 2)) [
          | inl y ↦ rw (t, x, y) begun
          | inr y ↦ elim (Bool-cases (msg_boundary u == 1)) [
            | inl z ↦ rw (t, x, y, z) kept
            | inr z ↦ rw (t, x, y, z) kept
          ]
        ]
      ]
    ]

pub visit_found :
    (o : Option RcvUnit) (s : Scan)
    → s.found ≡ false
    → (visit o s).found ≡ true
    → is_some (visit o s).p ≡ true
unfolding visit
visit_found none s f e = cc
visit_found (some u) s f e = ground arith

pub run-Reads :
    (b : RcvBuffer) (p : Option ℕ) (stop : ℕ) → is_some p ≡ true → RunFrom b p stop → Reads b p stop
run-Reads b none stop e r = cc
run-Reads b (some p) stop e r = r

pub visit_q : (o : Option RcvUnit) (s : Scan) → (visit o s).q ≡ s.q
unfolding visit
visit_q none s = refl
visit_q (some u) s = ground arith

pub may_read_found : (o : Option RcvUnit) (s : Scan) → may_read o s ≡ true → s.found ≡ true
may_read_found none s e = cc
may_read_found (some u) s e = ground arith

pub visit_passack : (o : Option RcvUnit) (s : Scan) → (visit o s).passack ≡ s.passack
unfolding visit
visit_passack none s = refl
visit_passack (some u) s = ground arith

-- After position `q` there is no more acknowledged than after the start.
abbrev pub NotPast : RcvBuffer → ℕ → Type 0
NotPast b q =
    dist b.size (next_pos b.size q) b.last_ack_pos ≤ dist b.size b.start_pos b.last_ack_pos

pub NotPast-before :
    (b : RcvBuffer) (q : ℕ)
    → InRing b
    → q < b.size
    → dist b.size b.start_pos q < dist b.size b.start_pos b.last_ack_pos
    → NotPast b q
NotPast-before b q v h d = ground (arith, d, h, v.start, v.last_ack)

-- A search that has not passed the last acknowledged position goes on before it.
pub before_next :
    (b : RcvBuffer) (q : ℕ) (passack : Bool)
    → InRing b
    → q < b.size
    → (passack ≡ false → dist b.size b.start_pos q < dist b.size b.start_pos b.last_ack_pos)
    → (passack || next_pos b.size q == b.last_ack_pos) ≡ false
    → dist b.size b.start_pos (next_pos b.size q) < dist b.size b.start_pos b.last_ack_pos
before_next b q true v h d e = absurd (ground (arith, e))
before_next b q false v h d e = ground (arith, d refl, e, h, v.start, v.last_ack)
