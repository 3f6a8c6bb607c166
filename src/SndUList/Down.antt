-- ===== src/SndUList/Down.antt =====
-- udt4/src/queue.cpp: the loop of `remove_`, its positions and its order.
use udt_patch_for_epoll.Prelude.{
  ℕ, zero, suc, ◌+◌, ◌*◌, ◌<◌, ◌≤◌, ◌≡◌, ◌≢◌, refl, ◌∙◌, false, ◌&&◌, some, arith, ◌==◌, ltb,
  Bool-cases, inl, inr,
}
use udt_patch_for_epoll.SndUList.{SndUList, parent, time_at, sink, earlier_child, sift_down}
use udt_patch_for_epoll.SndUList.Order.{IsHeap, schedule}

-- The socket `u` has left the heap, but its location is not cleared yet.
pub record DownPlaces (l : SndUList) (u : ℕ) : Type 0 where
  pub placed : (i : ℕ) → i < l.count → l.locs (l.heap i) ≡ some i
  pub gone : (i : ℕ) → i < l.count → l.heap i ≢ u
  pub on_heap : (w i : ℕ) → w ≢ u → l.locs w ≡ some i → (i < l.count) × (l.heap i ≡ w)

-- Only the node at `q` may be later than one below it.
pub record DownOrder (l : SndUList) (q : ℕ) : Type 0 where
  pub edges : (c : ℕ) → 0 < c → c < l.count → parent c ≢ q → time_at l (parent c) ≤ time_at l c
  pub bridged :
      (c : ℕ) → 0 < c → c < l.count → parent c ≡ q → 0 < q → time_at l (parent q) ≤ time_at l c

-- `p` is the position below `q` whose node is the earlier one.
pub record IsEarlierChild (l : SndUList) (q p : ℕ) : Type 0 where
  pub inside : p < l.count
  pub below : parent p ≡ q
  pub after : q < p
  pub least : (c : ℕ) → 0 < c → c < l.count → parent c ≡ q → time_at l p ≤ time_at l c

pub earlier_child-IsEarlierChild :
    (l : SndUList) (q : ℕ) → q * 2 + 1 < l.count → IsEarlierChild l q (earlier_child l q)
earlier_child-IsEarlierChild l q h =
    elim (Bool-cases
      (ltb (q * 2 + 1 + 1) l.count && ltb (time_at l (q * 2 + 1 + 1)) (time_at l (q * 2 + 1)))) [
        | inl e ↦ rw (e) (record {
          inside = ground (arith, e);
          below = omega (arith);
          after = omega (arith);
          least = λ c a b z. ground (arith, e, z, a, b);
        })
        | inr e ↦ rw (e) (record {
          inside = h;
          below = omega (arith);
          after = omega (arith);
          least = λ c a b z. ground (arith, e, z, a, b);
        })
      ]

sink-DownPlaces :
    (l : SndUList) (u q p : ℕ)
    → DownPlaces l u
    → q < l.count
    → p < l.count
    → q < p
    → DownPlaces (sink l q p) u
sink-DownPlaces l u q p v k m n = record {
  placed = λ i a. grind (arith, v.placed i, v.placed p, v.placed q);
  gone = λ i a. grind (arith, v.gone i, v.gone p, v.gone q);
  on_heap = λ w i z e. grind (arith, v.on_heap w i, v.placed p, v.placed q);
}

sink-DownOrder :
    (l : SndUList) (q p : ℕ)
    → DownOrder l q
    → q < l.count
    → IsEarlierChild l q p
    → time_at l p < time_at l q
    → DownOrder (sink l q p) p
sink-DownOrder l q p v k s below =
    let inside = s.inside in
    let child = s.below in
    let after = s.after in
    record {
      edges = λ c a b n. ground (arith, v.edges c, v.bridged p, s.least c, below);
      bridged = λ c a b e z. ground (arith, v.edges c, below);
    }

sink-schedule :
    (l : SndUList) (u q p w : ℕ)
    → DownPlaces l u
    → q < l.count
    → p < l.count
    → schedule (sink l q p) w ≡ schedule l w
sink-schedule l u q p w v k m = grind (arith, v.placed p, v.placed q)

-- What the loop keeps.
pub record Sunk (l : SndUList) (u : ℕ) (end : SndUList) : Type 0 where
  pub places : DownPlaces end u
  pub counted : end.count ≡ l.count
  pub room : end.array_length ≡ l.array_length
  pub overrun : end.overrun ≡ l.overrun
  pub timed : (w : ℕ) → end.times w ≡ l.times w
  pub scheduled_alike : (w : ℕ) → schedule end w ≡ schedule l w

sink-Sunk :
    (l : SndUList) (u q p : ℕ) (end : SndUList)
    → DownPlaces l u
    → q < l.count
    → p < l.count
    → Sunk (sink l q p) u end
    → Sunk l u end
sink-Sunk l u q p end v k m s = record {
  places = s.places;
  counted = s.counted;
  room = s.room;
  overrun = s.overrun;
  timed = s.timed;
  scheduled_alike = λ w. s.scheduled_alike w ∙ sink-schedule l u q p w v k m;
}

pub sift_down-Sunk :
    (fuel : ℕ) (l : SndUList) (u q : ℕ) → DownPlaces l u → Sunk l u (sift_down fuel l q)
unfolding sift_down
sift_down-Sunk zero l u q v = record {
  places = v;
  counted = refl;
  room = refl;
  overrun = refl;
  timed = λ w. refl;
  scheduled_alike = λ w. refl;
}
sift_down-Sunk (suc fuel) l u q v =
    let p = earlier_child l q in
    elim (Bool-cases (ltb (q * 2 + 1) l.count && ltb (time_at l p) (time_at l q))) [
      | inl e ↦
          let s = earlier_child-IsEarlierChild l q (ground (arith, e)) in
          let k : q < l.count = omega (arith, s.after, s.inside) in
          rw (e) (
            sink-Sunk l u q p (sift_down fuel (sink l q p) p) v k s.inside
              (sift_down-Sunk fuel (sink l q p) u p (sink-DownPlaces l u q p v k s.inside s.after)))
      | inr e ↦ rw (e) (record {
        places = v;
        counted = refl;
        room = refl;
        overrun = refl;
        timed = λ w. refl;
        scheduled_alike = λ w. refl;
      })
    ]

settled_by : {a b c d : ℕ} → a < b → (ltb a b && ltb c d) ≡ false → d ≤ c
settled_by h e = ground (arith, h, e)

-- Where the loop stops, no node below is earlier.
stays-IsHeap :
    (l : SndUList) (q : ℕ)
    → DownOrder l q
    → (ltb (q * 2 + 1) l.count && ltb (time_at l (earlier_child l q)) (time_at l q)) ≡ false
    → IsHeap l
stays-IsHeap l q v e c a b = elim (Bool-cases (parent c == q)) [
  | inl t ↦
      let z : parent c ≡ q = ground (arith, t) in
      let h : q * 2 + 1 < l.count = omega (arith, z, a, b) in
      let s = earlier_child-IsEarlierChild l q h in
      let d : time_at l q ≤ time_at l (earlier_child l q) = settled_by h e in
      rw (z) (omega (arith, d, s.least c a b z))
  | inr n ↦ v.edges c a b (ground (arith, n))
]

pub sift_down-IsHeap :
    (fuel : ℕ) (l : SndUList) (q : ℕ)
    → l.count ≤ q + fuel
    → DownOrder l q
    → IsHeap (sift_down fuel l q)
unfolding sift_down
sift_down-IsHeap zero l q f v = λ c a b. v.edges c a b (omega arith)
sift_down-IsHeap (suc fuel) l q f v =
    let p = earlier_child l q in
    elim (Bool-cases (ltb (q * 2 + 1) l.count && ltb (time_at l p) (time_at l q))) [
      | inl e ↦
          let s = earlier_child-IsEarlierChild l q (ground (arith, e)) in
          let k : q < l.count = omega (arith, s.after, s.inside) in
          rw (e) (
            sift_down-IsHeap fuel (sink l q p) p (omega (arith, f, s.after))
              (sink-DownOrder l q p v k s (ground (arith, e))))
      | inr e ↦ rw (e) (stays-IsHeap l q v e)
    ]
