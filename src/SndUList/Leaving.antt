-- ===== src/SndUList/Leaving.antt =====
-- udt4/src/queue.cpp: the order of the heap after `remove` of `CSndUList`.
use udt_patch_for_epoll.Prelude.{
  ℕ, zero, suc, ◌+◌, ◌-◌, ◌*◌, ◌<◌, ◌≤◌, ◌≡◌, refl, sym, Bool, true, false, ◌&&◌, Option, none,
  some, arith, ◌==◌, ltb, Bool-cases, inl, inr, ◌↔◌,
}
use udt_patch_for_epoll.SndUList.{
  SndUList, parent, time_at, replaced, detached, earlier_child, sift_down, remove,
}
use udt_patch_for_epoll.SndUList.Order.{IsHeap, IsPlaced, IsValid}
use udt_patch_for_epoll.SndUList.Removing.{FitsAt, woken, remove-IsHeap}
use udt_patch_for_epoll.SndUList.Down.{earlier_child-IsEarlierChild}

unmoved : {a b c d : ℕ} → (a < b → d ≤ c) → (ltb a b && ltb c d) ≡ false
unmoved h = ground (arith, h)

sift_down-stays :
    (fuel : ℕ) (l : SndUList) (q : ℕ)
    → (q * 2 + 1 < l.count → time_at l q ≤ time_at l (earlier_child l q))
    → sift_down fuel l q ≡ l
unfolding sift_down
sift_down-stays zero l q h = refl
sift_down-stays (suc fuel) l q h = rw (unmoved h) refl

replaced_earliest :
    (l : SndUList) (i : ℕ)
    → IsHeap l
    → i + 1 < l.count
    → 0 < i
    → time_at l (l.count - 1) < time_at l (parent i)
    → i * 2 + 1 < l.count - 1
    → time_at (replaced l i) i ≤ time_at (replaced l i) (earlier_child (replaced l i) i)
replaced_earliest l i h k p below a =
    let s = earlier_child-IsEarlierChild (replaced l i) i a in
    let c = earlier_child (replaced l i) i in
    ground (arith, s.inside, s.below, s.after, h c, h i, below)

detached-breaks :
    (l : SndUList) (u i : ℕ)
    → IsHeap l
    → i + 1 < l.count
    → 0 < i
    → time_at l (l.count - 1) < time_at l (parent i)
    → time_at (detached l u (some i)) i < time_at (detached l u (some i)) (parent i)
detached-breaks l u i h k p below =
    rw (sift_down-stays l.count (replaced l i) i (replaced_earliest l i h k p below))
      (ground (arith, below, p))

woken-edge :
    (b : Bool) (l : SndUList) (c : ℕ)
    → c < l.count
    → 0 < c
    → IsHeap (woken b l)
    → time_at l (parent c) ≤ time_at l c
woken-edge true l c k p h = h c p k
woken-edge false l c k p h = h c p k

left-FitsAt :
    (l : SndUList) (u i : ℕ) (b : Bool)
    → IsHeap l
    → i + 1 < l.count
    → IsHeap (woken b (detached l u (some i)))
    → FitsAt l i
left-FitsAt l u i b h k w p =
    elim (Bool-cases (ltb (time_at l (l.count - 1)) (time_at l (parent i)))) [
      | inl t ↦
          let broken = detached-breaks l u i h k p (ground (arith, t)) in
          let edge =
            woken-edge b (detached l u (some i)) i
              (rw
                (sift_down-stays l.count (replaced l i) i
                  (replaced_earliest l i h k p (ground (arith, t))))
                (omega (arith, k)))
              p w in
          absurd (omega (arith, broken, edge))
      | inr t ↦ ground (arith, t)
    ]

detached-FitsAt :
    (l : SndUList) (u i : ℕ) (o : Option ℕ) (b : Bool)
    → IsPlaced l
    → IsHeap l
    → o ≡ some i
    → l.locs u ≡ some i
    → i + 1 < l.count
    → IsHeap (woken b (detached l u o))
    → FitsAt l i
detached-FitsAt l u i none b v h o e k w p = absurd (grind (arith, o))
detached-FitsAt l u i (some j) b v h o e k w p =
    let z : j ≡ i = grind (arith, o) in
    let fits : FitsAt l j = left-FitsAt l u j b h (omega (arith, z, k)) w in
    rw (sym z) (fits (omega (arith, z, p)))

-- A socket that is not the last on the heap leaves it in order exactly if the last node is not
-- earlier than the one above the socket: `remove_` moves the last node into the place and then only
-- down.
pub remove-keeps_order_iff :
    (l : SndUList) (u i : ℕ)
    → IsValid l
    → l.locs u ≡ some i
    → i + 1 < l.count
    → IsHeap (remove l u) ↔ FitsAt l i
unfolding remove
remove-keeps_order_iff l u i v e k = (
  detached-FitsAt l u i (l.locs u) ((detached l u (l.locs u)).count == 1) v.places v.order e e k,
  λ fits. remove-IsHeap l u v (λ j o. let z : i ≡ j = grind (arith, e, o) in rw (sym z) fits),
)
