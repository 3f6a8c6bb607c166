-- ===== src/RcvUList/Linking.antt =====
-- udt4/src/queue.cpp: `insert` of `CRcvUList`.
use udt_patch_for_epoll.Prelude.{
  ℕ, ◌-◌, ◌<◌, ◌≡◌, refl, ap, ◌∙◌, none, some, ◌==◌, put, arith, Bool-cases, inl, inr,
}
use udt_patch_for_epoll.RcvUList.{RcvUList, behind, stamped, inserted, insert}
use udt_patch_for_epoll.RcvUList.Line.{Line, IsLine, joined, IsAbsent}

-- What `behind` leaves when the line has a last socket `t`.
abbrev pub linked : RcvUList → ℕ → ℕ → RcvUList
linked l u t = record l {
  prevs = put l.prevs u (some t);
  nexts = put (put l.nexts u none) t (some u);
  last = some u;
}

pub linked-IsLine :
    (l : RcvUList) (q : Line) (u t : ℕ)
    → IsLine l q
    → 0 < q.size
    → t ≡ q.at (q.size - 1)
    → IsAbsent q u
    → IsLine (linked l u t) (joined q u)
linked-IsLine l q u t v p e a = record {
  first = grind (arith, v.first, p);
  last = grind (arith, e);
  nexts = λ i k. grind (arith, v.nexts i, e, a (q.size - 1), v.once i (q.size - 1), a i);
  prevs = λ i k. grind (arith, v.prevs i, e, a i);
  once = λ i j h k z. grind (arith, v.once i j, a i, a j, z);
}

pub stamped-IsLine : (l : RcvUList) (q : Line) (u now : ℕ) → IsLine l q → IsLine (stamped l u now) q
stamped-IsLine l q u now v = record {
  first = v.first;
  last = v.last;
  nexts = v.nexts;
  prevs = v.prevs;
  once = v.once;
}

alone-IsLine :
    (l : RcvUList) (q : Line) (u : ℕ)
    → q.size ≡ 0
    → IsLine
        (record l {
          prevs = put l.prevs u none;
          nexts = put l.nexts u none;
          first = some u;
          last = some u;
        })
        (joined q u)
alone-IsLine l q u z = record {
  first = grind (arith, z);
  last = grind (arith, z);
  nexts = λ i k. grind (arith, z, k);
  prevs = λ i k. grind (arith, z, k);
  once = λ i j h k e. omega (arith, z, h, k);
}

-- The times and the marks are those of `l`.
pub record IsAlike (l l1 : RcvUList) : Type 0 where
  pub timed : l1.times ≡ l.times
  pub marked : l1.on_list ≡ l.on_list

pub behind-IsLine :
    (l : RcvUList) (q : Line) (u : ℕ)
    → IsLine l q
    → 0 < q.size
    → IsAbsent q u
    → (l1 : RcvUList) × (behind l u l.last ≡ some l1) × IsLine l1 (joined q u) × IsAlike l l1
behind-IsLine l q u v p a =
    let t = q.at (q.size - 1) in
    let e : l.last ≡ some t = v.last ∙ ground (arith, p) in
    (
      linked l u t,
      ap (behind l u) e,
      linked-IsLine l q u t v p refl a,
      record { timed = refl; marked = refl },
    )

-- `insert` of a socket that is not on the list puts it at the end.
pub insert-IsLine :
    (l : RcvUList) (q : Line) (u now : ℕ)
    → IsLine l q
    → IsAbsent q u
    → (l1 : RcvUList) × (insert l u now ≡ some l1) × IsLine l1 (joined q u)
unfolding insert
insert-IsLine l q u now v a = elim (Bool-cases (q.size == 0)) [
  | inl z ↦
      let e : l.first ≡ none = v.first ∙ ground (arith, z) in
      (
        record (stamped l u now) {
          prevs = put l.prevs u none;
          nexts = put l.nexts u none;
          first = some u;
          last = some u;
        },
        ap (inserted (stamped l u now) u) e,
        alone-IsLine (stamped l u now) q u (ground (arith, z)),
      )
  | inr z ↦
      let e : l.first ≡ some (q.at 0) = v.first ∙ ground (arith, z) in
      let (l1, made, line, alike) =
        behind-IsLine (stamped l u now) q u (stamped-IsLine l q u now v) (ground (arith, z)) a in
      (l1, ap (inserted (stamped l u now) u) e ∙ made, line)
]
