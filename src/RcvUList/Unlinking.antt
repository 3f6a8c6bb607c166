-- ===== src/RcvUList/Unlinking.antt =====
-- udt4/src/queue.cpp: `remove` and `update` of `CRcvUList`.
use udt_patch_for_epoll.Prelude.{
  ℕ, ◌+◌, ◌-◌, ◌<◌, ◌≡◌, refl, sym, ap, ◌∙◌, true, Option, none, some, ◌==◌, if◌then◌else◌, arith,
  Bool-cases, inl, inr,
}
use udt_patch_for_epoll.RcvUList.{
  RcvUList, unlinked, cleared, behind, moved, stamped, remove, update,
}
use udt_patch_for_epoll.RcvUList.Line.{Line, IsLine, joined, without, IsAbsent}
use udt_patch_for_epoll.RcvUList.Linking.{IsAlike, behind-IsLine, stamped-IsLine}

abbrev before : Line → ℕ → Option ℕ
before q k = if k == 0 then none else some (q.at (k - 1))

abbrev after : Line → ℕ → Option ℕ
after q k = if k + 1 == q.size then none else some (q.at (k + 1))

only_removed :
    (l : RcvUList) (q : Line) (k : ℕ)
    → q.size ≡ 1
    → IsLine (unlinked l (q.at k) none none) (without q k)
only_removed l q k z = record {
  first = ground (arith, z);
  last = ground (arith, z);
  nexts = λ i h. absurd (omega (arith, z, h));
  prevs = λ i h. absurd (omega (arith, z, h));
  once = λ i j h m e. absurd (omega (arith, z, h));
}

first_removed :
    (l : RcvUList) (q : Line) (k : ℕ)
    → IsLine l q
    → k ≡ 0
    → k + 1 < q.size
    → IsLine (unlinked l (q.at k) none (some (q.at (k + 1)))) (without q k)
first_removed l q k v y z = record {
  first = grind (arith, y, z);
  last = grind (arith, v.last, y, z);
  nexts = λ i h. grind (arith, v.nexts (i + 1), y, z, h);
  prevs = λ i h. grind (arith, v.prevs (i + 1), v.once (k + 1) (i + 1), y, z, h);
  once = λ i j h m e. grind (arith, v.once (i + 1) (j + 1), y, z, h, m, e);
}

last_removed :
    (l : RcvUList) (q : Line) (k : ℕ)
    → IsLine l q
    → 0 < k
    → k + 1 ≡ q.size
    → IsLine (unlinked l (q.at k) (some (q.at (k - 1))) none) (without q k)
last_removed l q k v p z = record {
  first = grind (arith, v.first, p, z);
  last = grind (arith, p, z);
  nexts = λ i h. grind (arith, v.nexts i, v.once i (k - 1), z, h, p);
  prevs = λ i h. grind (arith, v.prevs i, z, h, p);
  once = λ i j h m e. grind (arith, v.once i j, z, h, m, e);
}

middle_removed :
    (l : RcvUList) (q : Line) (k : ℕ)
    → IsLine l q
    → 0 < k
    → k + 1 < q.size
    → IsLine (unlinked l (q.at k) (some (q.at (k - 1))) (some (q.at (k + 1)))) (without q k)
middle_removed l q k v p z = record {
  first = grind (arith, v.first, p, z);
  last = grind (arith, v.last, p, z);
  nexts = λ i h.
      grind (arith, v.nexts i, v.nexts (i + 1), v.once i (k - 1), v.once (i + 1) (k - 1), z, h, p);
  prevs = λ i h.
      grind (arith, v.prevs i, v.prevs (i + 1), v.once i (k + 1), v.once (i + 1) (k + 1), z, h, p);
  once = λ i j h m e.
      grind
        (arith, v.once i j, v.once (i + 1) j, v.once i (j + 1), v.once (i + 1) (j + 1), z, h, m, e);
}

unlinked-IsLine :
    (l : RcvUList) (q : Line) (k : ℕ)
    → IsLine l q
    → k < q.size
    → IsLine (unlinked l (q.at k) (before q k) (after q k)) (without q k)
unlinked-IsLine l q k v h = elim (Bool-cases (k == 0)) [
  | inl z ↦ elim (Bool-cases (k + 1 == q.size)) [
    | inl e ↦ rw (z, e) (only_removed l q k (ground (arith, z, e)))
    | inr e ↦ rw (z, e) (first_removed l q k v (ground (arith, z)) (ground (arith, e, h)))
  ]
  | inr z ↦ elim (Bool-cases (k + 1 == q.size)) [
    | inl e ↦ rw (z, e) (last_removed l q k v (ground (arith, z)) (ground (arith, e)))
    | inr e ↦ rw (z, e) (middle_removed l q k v (ground (arith, z)) (ground (arith, e, h)))
  ]
]

cleared-IsLine :
    (l : RcvUList) (q : Line) (u : ℕ) → IsLine l q → IsAbsent q u → IsLine (cleared l u) q
cleared-IsLine l q u v a = record {
  first = v.first;
  last = v.last;
  nexts = λ i h. grind (arith, v.nexts i, a i, h);
  prevs = λ i h. grind (arith, v.prevs i, a i, h);
  once = v.once;
}

without-IsAbsent :
    (l : RcvUList) (q : Line) (k : ℕ) → IsLine l q → k < q.size → IsAbsent (without q k) (q.at k)
without-IsAbsent l q k v h i m e = grind (arith, v.once i k, v.once (i + 1) k, h, m, e)

-- `remove` of a socket on the list takes it out and leaves the others in order.
pub remove-IsLine :
    (l : RcvUList) (q : Line) (k : ℕ)
    → IsLine l q
    → k < q.size
    → l.on_list (q.at k) ≡ true
    → IsLine (remove l (q.at k)) (without q k)
unfolding remove
remove-IsLine l q k v h o =
    rw (o, v.prevs k h, v.nexts k h)
      (cleared-IsLine (unlinked l (q.at k) (before q k) (after q k)) (without q k) (q.at k)
        (unlinked-IsLine l q k v h) (without-IsAbsent l q k v h))

end_kept :
    (l : RcvUList) (q : Line) (k : ℕ)
    → IsLine l q
    → k + 1 ≡ q.size
    → IsLine l (joined (without q k) (q.at k))
end_kept l q k v z = record {
  first = grind (arith, v.first, z);
  last = grind (arith, v.last, z);
  nexts = λ i h. grind (arith, v.nexts i, z, h);
  prevs = λ i h. grind (arith, v.prevs i, z, h);
  once = λ i j h m e. grind (arith, v.once i j, z, h, m, e);
}

unlinked_as :
    (l : RcvUList) (q : Line) (k : ℕ) (p n : Option ℕ)
    → IsLine l q
    → k < q.size
    → p ≡ before q k
    → n ≡ after q k
    → IsLine (unlinked l (q.at k) p n) (without q k)
unlinked_as l q k p n v h e f = rw (e, f) (unlinked-IsLine l q k v h)

unlinked-last : (l : RcvUList) (u n : ℕ) (p : Option ℕ) → (unlinked l u p (some n)).last ≡ l.last
unlinked-last l u n none = refl
unlinked-last l u n (some p) = refl

unlinked-IsAlike :
    (l l1 : RcvUList) (u : ℕ) (p : Option ℕ) (n : ℕ)
    → IsAlike (unlinked l u p (some n)) l1
    → IsAlike l l1
unlinked-IsAlike l l1 u none n a = record { timed = a.timed; marked = a.marked }
unlinked-IsAlike l l1 u (some p) n a = record { timed = a.timed; marked = a.marked }

moved-IsLine :
    (l : RcvUList) (q : Line) (k n : ℕ)
    → IsLine l q
    → k + 1 < q.size
    → some n ≡ after q k
    → (l1 : RcvUList) × (moved l (q.at k) (some n) ≡ some l1)
      × IsLine l1 (joined (without q k) (q.at k))
      × IsAlike l l1
moved-IsLine l q k n v h f =
    let u = q.at k in
    let m = unlinked l u (l.prevs u) (some n) in
    let line : IsLine m (without q k) =
      unlinked_as l q k (l.prevs u) (some n) v (omega (arith, h)) (v.prevs k (omega (arith, h)))
        f in
    let (l1, made, r, alike) =
      behind-IsLine m (without q k) u line (omega (arith, h))
        (without-IsAbsent l q k v (omega (arith, h))) in
    (
      l1,
      ap (behind m u) (sym (unlinked-last l u n (l.prevs u))) ∙ made,
      r,
      unlinked-IsAlike l l1 u (l.prevs u) n alike,
    )

-- `update` of a socket on the list moves it to the end and sets its time.
pub update-IsLine :
    (l : RcvUList) (q : Line) (k now : ℕ)
    → IsLine l q
    → k < q.size
    → l.on_list (q.at k) ≡ true
    → (l1 : RcvUList) × (update l (q.at k) now ≡ some l1)
      × IsLine l1 (joined (without q k) (q.at k))
      × IsAlike (stamped l (q.at k) now) l1
unfolding update
update-IsLine l q k now v h o = elim (Bool-cases (k + 1 == q.size)) [
  | inl e ↦
      let s = stamped l (q.at k) now in
      let n : l.nexts (q.at k) ≡ none = v.nexts k h ∙ ground (arith, e) in
      (
        s,
        rw (o) (ap (moved s (q.at k)) n),
        end_kept s q k (stamped-IsLine l q (q.at k) now v) (ground (arith, e)),
        record { timed = refl; marked = refl },
      )
  | inr e ↦
      let s = stamped l (q.at k) now in
      let f : some (q.at (k + 1)) ≡ after q k = ground (arith, e) in
      let n : l.nexts (q.at k) ≡ some (q.at (k + 1)) = v.nexts k h ∙ sym f in
      let (l1, made, line, alike) =
        moved-IsLine s q k (q.at (k + 1)) (stamped-IsLine l q (q.at k) now v) (ground (arith, e, h))
          f in
      (l1, rw (o) (ap (moved s (q.at k)) n ∙ made), line, alike)
]

removed-IsAlike : (l : RcvUList) (u : ℕ) (p n : Option ℕ) → IsAlike l (cleared (unlinked l u p n) u)
removed-IsAlike l u none none = record { timed = refl; marked = refl }
removed-IsAlike l u none (some n) = record { timed = refl; marked = refl }
removed-IsAlike l u (some p) none = record { timed = refl; marked = refl }
removed-IsAlike l u (some p) (some n) = record { timed = refl; marked = refl }

pub remove-IsAlike : (l : RcvUList) (u : ℕ) → l.on_list u ≡ true → IsAlike l (remove l u)
unfolding remove
remove-IsAlike l u o = rw (o) (removed-IsAlike l u (l.prevs u) (l.nexts u))
