-- ===== src/SndUList/Up.antt =====
-- udt4/src/queue.cpp: the loop of `insert_`, its positions and its order.
use udt_patch_for_epoll.Prelude.{
  ℕ, zero, suc, ◌<◌, ◌≤◌, ◌≡◌, ◌≢◌, refl, ◌∙◌, not, ◌&&◌, none, some, arith, ◌==◌, ltb,
  if◌then◌else◌, Bool-cases, inl, inr,
}
use udt_patch_for_epoll.SndUList.{SndUList, parent, time_at, lift, sift_up, settle}
use udt_patch_for_epoll.SndUList.Order.{IsHeap, IsPlaced, schedule}

-- The node of `u` is at `q`, where its location is not set yet.
pub record UpPlaces (l : SndUList) (u q : ℕ) : Type 0 where
  pub inside : q < l.count
  pub here : l.heap q ≡ u
  pub placed : (i : ℕ) → i < l.count → i ≢ q → l.locs (l.heap i) ≡ some i
  pub unset : l.locs u ≡ none
  pub on_heap : (w i : ℕ) → l.locs w ≡ some i → (i < l.count) × (l.heap i ≡ w)

-- Only the node at `q` may be earlier than the one above it.
pub record UpOrder (l : SndUList) (q : ℕ) : Type 0 where
  pub edges : (c : ℕ) → 0 < c → c < l.count → c ≢ q → time_at l (parent c) ≤ time_at l c
  pub bridged :
      (c : ℕ) → 0 < c → c < l.count → parent c ≡ q → 0 < q → time_at l (parent q) ≤ time_at l c

lift-UpPlaces : (l : SndUList) (u q : ℕ) → UpPlaces l u q → 0 < q → UpPlaces (lift l q) u (parent q)
lift-UpPlaces l u q v p = record {
  inside = omega (arith, v.inside, p);
  here = ground (arith, v.here, p);
  placed = λ i a n. grind (arith, v.placed i, v.placed (parent q), v.inside);
  unset = grind (arith, v.unset, v.placed (parent q), v.inside);
  on_heap = λ w i e. grind (arith, v.on_heap w i, v.placed (parent q), v.inside, v.here, v.unset);
}

lift-UpOrder :
    (l : SndUList) (q : ℕ)
    → UpOrder l q
    → q < l.count
    → 0 < q
    → time_at l q < time_at l (parent q)
    → UpOrder (lift l q) (parent q)
lift-UpOrder l q v k p below = record {
  edges = λ c a b n. ground (arith, v.edges c, v.bridged c, below, v.edges (parent q));
  bridged = λ c a b e z. ground (arith, v.edges c, v.edges (parent q), v.bridged c, below);
}

lift-schedule :
    (l : SndUList) (u q w : ℕ) → UpPlaces l u q → 0 < q → schedule (lift l q) w ≡ schedule l w
lift-schedule l u q w v p = grind (arith, v.placed (parent q), v.inside)

-- What the loop keeps and where it ends: only the location of `u` is still to be set.
pub record Sifted (l : SndUList) (u : ℕ) (end : SndUList × ℕ) : Type 0 where
  pub places : UpPlaces end.0 u end.1
  pub counted : end.0.count ≡ l.count
  pub room : end.0.array_length ≡ l.array_length
  pub overrun : end.0.overrun ≡ l.overrun
  pub timed : (w : ℕ) → end.0.times w ≡ l.times w
  pub scheduled_alike : (w : ℕ) → schedule end.0 w ≡ schedule l w

lift-Sifted :
    (l : SndUList) (u q : ℕ) (end : SndUList × ℕ)
    → UpPlaces l u q
    → 0 < q
    → Sifted (lift l q) u end
    → Sifted l u end
lift-Sifted l u q end v p s = record {
  places = s.places;
  counted = s.counted;
  room = s.room;
  overrun = s.overrun;
  timed = s.timed;
  scheduled_alike = λ w. s.scheduled_alike w ∙ lift-schedule l u q w v p;
}

pub sift_up-Sifted :
    (fuel : ℕ) (l : SndUList) (u q : ℕ) → UpPlaces l u q → Sifted l u (sift_up fuel l q)
unfolding sift_up
sift_up-Sifted zero l u q v = record {
  places = v;
  counted = refl;
  room = refl;
  overrun = refl;
  timed = λ w. refl;
  scheduled_alike = λ w. refl;
}
sift_up-Sifted (suc fuel) l u q v =
    elim (Bool-cases (not (q == 0) && ltb (time_at l q) (time_at l (parent q)))) [
      | inl e ↦
          let p : 0 < q = ground (arith, e) in
          rw (e) (
            lift-Sifted l u q (sift_up fuel (lift l q) (parent q)) v p
              (sift_up-Sifted fuel (lift l q) u (parent q) (lift-UpPlaces l u q v p)))
      | inr e ↦ rw (e) (record {
        places = v;
        counted = refl;
        room = refl;
        overrun = refl;
        timed = λ w. refl;
        scheduled_alike = λ w. refl;
      })
    ]

pub sift_up-IsHeap :
    (fuel : ℕ) (l : SndUList) (q : ℕ)
    → q < fuel
    → q < l.count
    → UpOrder l q
    → IsHeap (sift_up fuel l q).0
unfolding sift_up
sift_up-IsHeap zero l q f k v = absurd (omega (arith, f))
sift_up-IsHeap (suc fuel) l q f k v =
    elim (Bool-cases (not (q == 0) && ltb (time_at l q) (time_at l (parent q)))) [
      | inl e ↦
          let p : 0 < q = ground (arith, e) in
          rw (e) (
            sift_up-IsHeap fuel (lift l q) (parent q) (omega (arith, f, p)) (omega (arith, k, p))
              (lift-UpOrder l q v k p (ground (arith, e))))
      | inr e ↦ rw (e) (λ c a b. ground (arith, v.edges c, e))
    ]

-- The last location that `insert_` sets completes the positions.
pub settle-IsPlaced :
    (l : SndUList) (u : ℕ) (end : SndUList × ℕ) → Sifted l u end → IsPlaced (settle end u)
settle-IsPlaced l u (r, q) s =
    let v = s.places in
    record {
      placed = λ i a. grind (arith, v.placed i, v.placed q, v.here, v.unset, v.inside);
      on_heap = λ w i e. grind (arith, v.on_heap w i, v.here, v.inside);
    }

pub settle-schedule :
    (l : SndUList) (u w : ℕ) (end : SndUList × ℕ)
    → Sifted l u end
    → schedule (settle end u) w ≡ (if u == w then some (l.times u) else schedule l w)
settle-schedule l u w (r, q) s = grind (arith, s.scheduled_alike w, s.timed w)
