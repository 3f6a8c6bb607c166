-- ===== src/UnitQueue/Finding.antt =====
-- udt4/src/queue.cpp: the search of `getNextAvailUnit`.
use udt_patch_for_epoll.Prelude.{
  ℕ, zero, suc, ◌+◌, ◌-◌, ◌<◌, ◌≤◌, ◌≡◌, ◌≢◌, refl, ap, Bool, true, false, Option, none, some, ◌==◌,
  ltb, leb, if◌then◌else◌, arith, Bool-cases, inl, inr, ◌⊎◌, ◌&&◌, ◌||◌,
}
use udt_patch_for_epoll.UnitQueue.{UnitQueue, find_free, in_queue, next_queue, search}
use udt_patch_for_epoll.UnitQueue.Counting.{IsValid}

find_free_lem :
    (n : ℕ) (flag : ℕ → ℕ) (a s : ℕ)
    → a ≤ s
    → s < a + n
    → ((i : ℕ) × (find_free n flag a s ≡ some i) × (a ≤ i) × (i < s) × (flag i ≡ 0))
      ⊎ ((find_free n flag a s ≡ none) × ((j : ℕ) → a ≤ j → j < s → flag j ≢ 0))
unfolding find_free
find_free_lem zero flag a s h k = absurd (omega (arith, h, k))
find_free_lem (suc n) flag a s h k = elim (Bool-cases (a == s)) [
  | inl e ↦ inr (rw (e) refl, λ j b c. absurd (ground (arith, e, b, c)))
  | inr e ↦ elim (Bool-cases (flag a == 0)) [
    | inl z ↦ inl (a, rw (e, z) refl, omega arith, ground (arith, e, h), ground (arith, z))
    | inr z ↦ elim (find_free_lem n flag (suc a) s (ground (arith, e, h)) (omega (arith, k))) [
      | inl (i, f, m, b, c) ↦ inl (i, rw (e, z) f, omega (arith, m), b, c)
      | inr (f, all) ↦ inr (rw (e, z) f, λ j b c. grind (arith, z, all j, e, b, c))
    ]
  ]
]

-- The places in a queue that the search looks at: the first, and those from `a` on but the last.
abbrev pub IsSearched : ℕ → ℕ → ℕ → Type 0
IsSearched each a j = (j ≡ 0) ⊎ ((a ≤ j) × (j + 1 < each))

in_queue_lem :
    (q : UnitQueue)
    → q.avail < q.each
    → ((i : ℕ) × (in_queue q ≡ some i) × IsSearched q.each q.avail i × (q.flags q.curr i ≡ 0))
      ⊎ ((in_queue q ≡ none) × ((j : ℕ) → IsSearched q.each q.avail j → q.flags q.curr j ≢ 0))
in_queue_lem q h =
    elim (find_free_lem q.each (q.flags q.curr) q.avail (q.each - 1) (omega (arith, h))
      (omega (arith, h))) [
        | inl (i, f, m, b, z) ↦ inl (i, rw (f) refl, inr (m, omega (arith, b)), z)
        | inr (f, all) ↦ elim (Bool-cases (q.flags q.curr 0 == 0)) [
          | inl z ↦ inl (0, rw (f, z) refl, inl refl, ground (arith, z))
          | inr z ↦ inr (
            rw (f, z) refl,
            λ j s. elim s [ inl y ↦ grind (arith, z, y) | inr (b, c) ↦ all j b (omega (arith, c)) ],
          )
        ]
      ]

-- The queues that the search still meets from `c` on, before it is back at the entrance `e`.
abbrev pub ahead : ℕ → ℕ → ℕ → Bool
ahead e c x = if ltb c e then leb c x && ltb x e else leb c x || ltb x e

abbrev next_pos : ℕ → ℕ → ℕ
next_pos queues c = if c + 1 == queues then 0 else c + 1

ahead-next :
    (queues e c x : ℕ)
    → c < queues
    → x < queues
    → next_pos queues c ≢ e
    → c ≢ x
    → ahead e c x ≡ true
    → ahead e (next_pos queues c) x ≡ true
ahead-next queues e c x h k n d a = ground (arith, h, k, n, d, a)

ahead_ends :
    (queues e c x : ℕ)
    → c < queues
    → x < queues
    → next_pos queues c ≡ e
    → ahead e c x ≡ true
    → x ≡ c
ahead_ends queues e c x h k n a = ground (arith, h, k, n, a)

-- The queues that are left to the search.
abbrev pub rounds : ℕ → ℕ → ℕ → ℕ
rounds queues e c = if ltb c e then e - c else queues - c + e

rounds-next :
    (queues e c n : ℕ)
    → c < queues
    → e < queues
    → next_pos queues c ≢ e
    → rounds queues e c ≤ suc n
    → rounds queues e (next_pos queues c) ≤ n
rounds-next queues e c n h k d r = ground (arith, h, k, d, r)

rounds-pos : (queues e c : ℕ) → c < queues → 0 < rounds queues e c
rounds-pos queues e c h = ground (arith, h)

-- The search gives a free unit, or has met none and is back at the entrance.
abbrev pub Searched : UnitQueue → ℕ → Option (ℕ × ℕ) × UnitQueue → Type 0
Searched q e r =
    ((c i : ℕ) × (r ≡ (some (c, i), record q { curr = c; avail = i }))
      × (c < q.queues)
      × IsSearched q.each 0 i
      × (q.flags c i ≡ 0))
    ⊎ ((r ≡ (none, record q { curr = e; avail = 0 }))
        × ((x j : ℕ)
            → x < q.queues
            → ahead e q.curr x ≡ true
            → IsSearched q.each (if x == q.curr then q.avail else 0) j
            → q.flags x j ≢ 0))

IsSearched-anywhere : (each a j : ℕ) → IsSearched each a j → IsSearched each 0 j
IsSearched-anywhere each a j (inl e) = inl e
IsSearched-anywhere each a j (inr (b, c)) = inr (omega arith, c)

IsSearched-here :
    (each a j : ℕ) (b : Bool)
    → b ≡ true
    → IsSearched each (if b then a else 0) j
    → IsSearched each a j
IsSearched-here each a j true e s = s
IsSearched-here each a j false e s = absurd (grind (arith, e))

IsSearched-later :
    (each j : ℕ) (b : Bool) → IsSearched each 0 j → IsSearched each (if b then 0 else 0) j
IsSearched-later each j true s = s
IsSearched-later each j false s = s

IsSearched-elsewhere :
    (each a j : ℕ) (b : Bool) → IsSearched each (if b then a else 0) j → IsSearched each 0 j
IsSearched-elsewhere each a j true s = IsSearched-anywhere each a j s
IsSearched-elsewhere each a j false s = s

occupied_here :
    (q : UnitQueue) (x j : ℕ)
    → x ≡ q.curr
    → ((j : ℕ) → IsSearched q.each q.avail j → q.flags q.curr j ≢ 0)
    → IsSearched q.each (if x == q.curr then q.avail else 0) j
    → q.flags x j ≢ 0
occupied_here q x j e all s z =
    all j (IsSearched-here q.each q.avail j (x == q.curr) (ground (arith, e)) s)
      (grind (arith, e, z))

next_queue-IsValid : (q : UnitQueue) → IsValid q → IsValid (next_queue q)
next_queue-IsValid q v = record {
  unit = omega (arith, v.unit);
  queue = ground (arith, v.queue);
  sized = v.sized;
}

next-Searched :
    (q : UnitQueue) (e : ℕ) (r : Option (ℕ × ℕ) × UnitQueue)
    → q.curr < q.queues
    → next_pos q.queues q.curr ≢ e
    → ((j : ℕ) → IsSearched q.each q.avail j → q.flags q.curr j ≢ 0)
    → Searched (next_queue q) e r
    → Searched q e r
next-Searched q e r k n all (inl hit) = inl hit
next-Searched q e r k n all (inr (back, free)) = inr (
  back,
  λ x j h a s. elim (Bool-cases (x == q.curr)) [
    | inl y ↦ occupied_here q x j (ground (arith, y)) all s
    | inr y ↦ free x j h (ahead-next q.queues e q.curr x k h n (ground (arith, y)) a) (
        IsSearched-later q.each j (x == next_pos q.queues q.curr)
          (IsSearched-elsewhere q.each q.avail j (x == q.curr) s))
  ],
)

pub search_lem :
    (n : ℕ) (q : UnitQueue) (e : ℕ)
    → IsValid q
    → e < q.queues
    → rounds q.queues e q.curr ≤ n
    → Searched q e (search n q e)
unfolding search
search_lem zero q e v k r = absurd (omega (arith, r, rounds-pos q.queues e q.curr v.queue))
search_lem (suc n) q e v k r = elim (in_queue_lem q v.unit) [
  | inl (i, f, s, z) ↦
      inl (q.curr, i, rw (f) refl, v.queue, IsSearched-anywhere q.each q.avail i s, z)
  | inr (f, all) ↦ elim (Bool-cases (next_pos q.queues q.curr == e)) [
    | inl y ↦
        let back : next_pos q.queues q.curr ≡ e = ground (arith, y) in
        inr (
          rw (f, y) (ap (λ c. (none, record q { curr = c; avail = 0 })) back),
          λ x j h a s. occupied_here q x j (ahead_ends q.queues e q.curr x v.queue h back a) all s,
        )
    | inr y ↦
        let away : next_pos q.queues q.curr ≢ e = ground (arith, y) in
        rw (f, y)
          (next-Searched q e (search n (next_queue q) e) v.queue away all (
            search_lem n (next_queue q) e (next_queue-IsValid q v) k
              (rounds-next q.queues e q.curr n v.queue k away r)))
  ]
]
