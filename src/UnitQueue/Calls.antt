-- ===== src/UnitQueue/Calls.antt =====
-- udt4/src/queue.cpp: calls of `getNextAvailUnit`, while receivers take and free units.
use udt_patch_for_epoll.Prelude.{
  ℕ, zero, suc, ◌*◌, ◌<◌, ◌≤◌, ◌≡◌, ◌≢◌, refl, ap, ◌∙◌, Bool, true, false, Option, none, some, ◌==◌,
  ltb, leb, if◌then◌else◌, arith, Bool-cases, inl, inr, ◌⊎◌,
}
use udt_patch_for_epoll.UnitQueue.{
  UnitQueue, init, real_count, increase, search, or_increase, next_avail_unit,
}
use udt_patch_for_epoll.UnitQueue.Counting.{IsValid, increase-IsValid, increase-room}
use udt_patch_for_epoll.UnitQueue.Finding.{IsSearched, ahead, rounds, search_lem}

positive : (b d : ℕ) → 0 < b → 0 < d → 0 < b * d
positive zero d h k = absurd (omega (arith, h))
positive (suc b) d h k = omega (arith, k)

room_left :
    (n size count : ℕ) → size ≡ n → 0 < n → ltb (size * 9) (count * 10) ≡ false → count < size
room_left n size count e p h = ground (arith, e, p, h)

-- The queue that is searched, enlarged first if it is nearly full.
abbrev pub prepared : UnitQueue → UnitQueue
prepared q = if ltb (q.size * 9) (q.count * 10) then increase q else q

prepared-IsValid : (q : UnitQueue) → IsValid q → IsValid (prepared q)
prepared-IsValid q v = elim (Bool-cases (ltb (q.size * 9) (q.count * 10))) [
  | inl e ↦ rw (e) (increase-IsValid q v)
  | inr e ↦ rw (e) v
]

prepared-room : (q : UnitQueue) → IsValid q → (prepared q).count < (prepared q).size
prepared-room q v = elim (Bool-cases (ltb (q.size * 9) (q.count * 10))) [
  | inl e ↦ rw (e) (increase-room q v)
  | inr e ↦ rw (e) (
      room_left (q.queues * q.each) q.size q.count v.sized
        (positive q.queues q.each (omega (arith, v.queue)) (omega (arith, v.unit))) e)
]

-- The outcome of a call: a free unit of the queue that was searched, or none, when no place that the
-- search looks at is free, and then the next search begins at the start of a queue.
abbrev pub Got : UnitQueue → Option (ℕ × ℕ) × UnitQueue → Type 0
Got q r =
    IsValid r.1
    × (((c i : ℕ) × (r ≡ (some (c, i), record q { curr = c; avail = i }))
          × (c < q.queues)
          × IsSearched q.each 0 i
          × (q.flags c i ≡ 0))
        ⊎ ((r ≡ (none, increase (record q { avail = 0 })))
            × ((x j : ℕ)
                → x < q.queues
                → IsSearched q.each (if x == q.curr then q.avail else 0) j
                → q.flags x j ≢ 0)))

IsValid-at :
    (q : UnitQueue) (c i : ℕ)
    → IsValid q
    → c < q.queues
    → IsSearched q.each 0 i
    → IsValid (record q { curr = c; avail = i })
IsValid-at q c i v k (inl e) = record {
  unit = omega (arith, e, v.unit);
  queue = k;
  sized = v.sized;
}
IsValid-at q c i v k (inr (a, b)) = record { unit = omega (arith, b); queue = k; sized = v.sized }

whole_circle : (queues c x : ℕ) → c < queues → rounds queues c c ≤ queues
whole_circle queues c x h = ground (arith, h)

all_ahead : (c x : ℕ) → ahead c c x ≡ true
all_ahead c x = ground arith

prepared-Got :
    (q : UnitQueue)
    → IsValid q
    → q.count < q.size
    → Got q (if leb q.size q.count then (none, q) else or_increase (search q.queues q q.curr))
prepared-Got q v room =
    let some_room : leb q.size q.count ≡ false = ground (arith, room) in
    elim (search_lem q.queues q q.curr v v.queue (whole_circle q.queues q.curr 0 v.queue)) [
      | inl (c, i, r, k, s, z) ↦
          rw (some_room, r) (IsValid-at q c i v k s, inl (c, i, refl, k, s, z))
      | inr (r, free) ↦
          rw (some_room, r)
            (
              increase-IsValid (record q { avail = 0 })
                  (record { unit = omega (arith, v.unit); queue = v.queue; sized = v.sized }),
              inr (refl, λ x j k s. free x j k (all_ahead q.curr x) s),
            )
    ]

-- On a well-formed queue, enlarged first if it is nearly full, `getNextAvailUnit` gives a free unit that
-- is the first or not the last of its queue. Or it gives none, and then every unit was in use, except
-- perhaps the last of each queue and, in the current one, units in front of the available unit but the
-- first; the queue is enlarged if it is nearly full, and its available unit is the first of the current
-- queue. Either way the queue is well formed.
pub next_avail_unit_lem : (q : UnitQueue) → IsValid q → Got (prepared q) (next_avail_unit q)
unfolding next_avail_unit
next_avail_unit_lem q v = prepared-Got (prepared q) (prepared-IsValid q v) (prepared-room q v)

-- An older unit is where it was.
record Grown (q r : UnitQueue) : Type 0 where
  same : (x j : ℕ) → x < q.queues → r.flags x j ≡ q.flags x j
  more : q.queues ≤ r.queues
  unit : r.avail ≡ q.avail
  each_alike : r.each ≡ q.each

increase-Grown : (q : UnitQueue) → Grown q (increase q)
unfolding increase
increase-Grown q = elim (Bool-cases (ltb (real_count q.flags q.each q.queues * 10) (q.size * 9))) [
  | inl e ↦
      rw (e) (record { same = λ x j h. refl; more = omega arith; unit = refl; each_alike = refl })
  | inr e ↦ rw (e) (record {
    same = λ x j h. ground (arith, h);
    more = omega arith;
    unit = refl;
    each_alike = refl;
  })
]

prepared-Grown : (q : UnitQueue) → Grown q (prepared q)
prepared-Grown q = elim (Bool-cases (ltb (q.size * 9) (q.count * 10))) [
  | inl e ↦ rw (e) (increase-Grown q)
  | inr e ↦
      rw (e) (record { same = λ x j h. refl; more = omega arith; unit = refl; each_alike = refl })
]

pub init-IsValid : (n : ℕ) → 0 < n → IsValid (init n)
unfolding init
init-IsValid n h = record { unit = h; queue = omega arith; sized = omega arith }

-- The receivers set flags and counts of their own.
abbrev pub reflagged : UnitQueue → (ℕ → ℕ → ℕ) → ℕ → UnitQueue
reflagged q flags n = record q { flags = flags; count = n }

starts_over :
    (p : UnitQueue) (r : Option (ℕ × ℕ) × UnitQueue) → Got p r → r.0 ≡ none → r.1.avail ≡ 0
starts_over p r (v, inl (c, i, e, k, s, z)) n = absurd (grind (arith, ap (λ r. r.0) e, n))
starts_over p r (v, inr (e, free)) n =
    ap (λ r. r.1.avail) e ∙ (increase-Grown (record p { avail = 0 })).unit

IsSearched-from :
    (each a j : ℕ) (b : Bool) → a ≡ 0 → IsSearched each 0 j → IsSearched each (if b then a else 0) j
IsSearched-from each a j true e (inl z) = inl z
IsSearched-from each a j true e (inr (b, c)) = inr (omega (arith, e), c)
IsSearched-from each a j false e s = s

met :
    (q : UnitQueue) (x j : ℕ) (r : Option (ℕ × ℕ) × UnitQueue)
    → q.avail ≡ 0
    → x < q.queues
    → IsSearched q.each 0 j
    → q.flags x j ≡ 0
    → Got q r
    → (p : ℕ × ℕ) × (r.0 ≡ some p)
met q x j r a h s z (v, inl (c, i, e, k, y, w)) = ((c, i), ap (λ r. r.0) e)
met q x j r a h s z (v, inr (e, free)) =
    absurd (free x j h (IsSearched-from q.each q.avail j (x == q.curr) a s) z)

IsSearched-alike : {a b : ℕ} (j : ℕ) → b ≡ a → IsSearched a 0 j → IsSearched b 0 j
IsSearched-alike j e (inl z) = inl z
IsSearched-alike j e (inr (b, c)) = inr (b, omega (arith, e, c))

-- A call that gave no unit is followed by one that does, if by then some unit is free that is the first
-- or not the last of its queue, whatever the receivers did with the flags and the count meanwhile.
pub unit_after_none :
    (q : UnitQueue) (flags : ℕ → ℕ → ℕ) (n x j : ℕ)
    → IsValid q
    → (next_avail_unit q).0 ≡ none
    → x < (next_avail_unit q).1.queues
    → IsSearched (next_avail_unit q).1.each 0 j
    → flags x j ≡ 0
    → (p : ℕ × ℕ) × ((next_avail_unit (reflagged (next_avail_unit q).1 flags n)).0 ≡ some p)
unit_after_none q flags n x j v e h s z =
    let r = next_avail_unit q in
    let got = next_avail_unit_lem q v in
    let q2 = reflagged r.1 flags n in
    let w : IsValid q2 = record { unit = got.0.unit; queue = got.0.queue; sized = got.0.sized } in
    let g = prepared-Grown q2 in
    met (prepared q2) x j (next_avail_unit q2) (g.unit ∙ starts_over (prepared q) r got e)
      (omega (arith, g.more, h)) (IsSearched-alike j g.each_alike s) (g.same x j h ∙ z)
      (next_avail_unit_lem q2 w)
