-- ===== src/AckWindow/Refines.antt =====
-- udt4/src/window.cpp: `acknowledge` beside a search in the list of entries.
use mathlib.Core.Path.{subst}
use native.Mathlib.Nat.{mod-lt, mod-mod, mod-eq_of_lt, mod-add-mod}
use udt_patch_for_epoll.Prelude.{
  ℕ, zero, suc, ◌+◌, ◌-◌, ◌%◌, ◌^◌, ◌<◌, ◌≤◌, ◌≡◌, ◌≢◌, refl, sym, ap, ◌∙◌, Bool, true, false,
  Option, none, some, List, [], arith, ◌==◌, leb, Bool-cases, inl, inr,
}
use udt_patch_for_epoll.RcvBuffer.Positions.{dist, dist-lt, mod_wrap}
use udt_patch_for_epoll.AckWindow.{AckWindow, find_seq, reset, on_found, acknowledge}
use udt_patch_for_epoll.AckWindow.Entries.{
  Entry, entry, listed, entries, acked, listed-mod, find_seq_here, find_seq_after, find_seq-none,
  find_seq-some,
}

pub record InWindow (w : AckWindow) : Type 0 where
  pub head : w.head < w.size
  pub tail : w.tail < w.size

abbrev pub around : AckWindow → ℕ → Entry
around w i = entry w (i % w.size)

-- What `acknowledge` does when the search in the list gives this.
abbrev pub Acknowledges : AckWindow → ℕ → ℕ → Option (Entry × List Entry) → Type 0
Acknowledges w seq now none = acknowledge w seq now ≡ (none, w)
Acknowledges w seq now (some (e, rest)) =
    (w1 : AckWindow) × (acknowledge w seq now ≡ (some (e.ack, (now - e.time) % 2 ^ 32), w1))
    × (entries w1 ≡ rest)
    × InWindow w1
    × (w1.size ≡ w.size)

dist_after :
    (size tail head k : ℕ)
    → tail < size
    → head < size
    → 0 < k
    → k ≤ dist size tail head
    → dist size ((tail + k) % size) head ≡ dist size tail head - k
dist_after size tail head k h j p d =
    let less : k < size = omega (arith, d, dist-lt size tail head h j) in
    rw (mod_wrap size tail k h less) (ground (arith, d, h, j, p))

-- The tail moves behind entry `j`.
entries-after :
    (w : AckWindow) (j : ℕ)
    → InWindow w
    → w.tail ≤ j
    → j < w.tail + dist w.size w.tail w.head
    → entries (record w { tail = (j + 1) % w.size })
      ≡ listed (w.tail + dist w.size w.tail w.head - (j + 1)) (around w) (j + 1)
entries-after w j v h d =
    let k = j + 1 - w.tail in
    let e : w.tail + k ≡ j + 1 = omega (arith, h) in
    let moved =
      dist_after w.size w.tail w.head k v.tail v.head (omega (arith, h)) (omega (arith, d)) in
    let n : dist w.size ((j + 1) % w.size) w.head ≡ w.tail + dist w.size w.tail w.head - (j + 1) =
      ap (λ x. dist w.size (x % w.size) w.head) (sym e) ∙ moved ∙ omega (arith, h) in
    rw n (
      listed-mod (w.tail + dist w.size w.tail w.head - (j + 1)) w.size (entry w) ((j + 1) % w.size)
        (j + 1) (mod-mod (j + 1) w.size))

entries-reset : (w : AckWindow) → entries (reset w) ≡ []
entries-reset w = refl

-- The position where the search ends is passed, or the window is emptied.
passed :
    (w : AckWindow) (j : ℕ) (at_end : Bool) (seq now : ℕ)
    → InWindow w
    → w.tail ≤ j
    → j < w.tail + dist w.size w.tail w.head
    → (at_end ≡ true → j + 1 ≡ w.tail + dist w.size w.tail w.head)
    → acknowledge w seq now ≡ on_found w (j % w.size) at_end now
    → Acknowledges w seq now (
        some (around w j, listed (w.tail + dist w.size w.tail w.head - (j + 1)) (around w) (j + 1)))
passed w j true seq now v h d ends found =
    let none_left : w.tail + dist w.size w.tail w.head - (j + 1) ≡ 0 = omega (arith, ends refl) in
    (
      reset w,
      found,
      rw none_left (entries-reset w),
      record { head = omega (arith, v.head); tail = omega (arith, v.head) },
      refl,
    )
passed w j false seq now v h d ends found =
    let next : (j % w.size + 1) % w.size ≡ (j + 1) % w.size = mod-add-mod j w.size 1 in
    (
      record w { tail = (j + 1) % w.size },
      found ∙ rw next refl,
      entries-after w j v h d,
      record { head = v.head; tail = mod-lt (j + 1) (omega (arith, v.head)) },
      refl,
    )

-- Numbers that agree where they are searched.
find_seq_same :
    (n : ℕ) (f g : ℕ → ℕ) (seq i : ℕ)
    → ((j : ℕ) → i ≤ j → j < i + n → f j ≡ g j)
    → find_seq n f seq i ≡ find_seq n g seq i
unfolding find_seq
find_seq_same zero f g seq i h = refl
find_seq_same (suc n) f g seq i h =
    let e : f i ≡ g i = h i (omega arith) (omega arith) in
    let rest =
      find_seq_same n f g seq (i + 1) (λ j a b. h j (omega (arith, a)) (omega (arith, b))) in
    elim (Bool-cases (seq == g i)) [
      | inl t ↦ find_seq_here n f seq i (rw e t) ∙ sym (find_seq_here n g seq i t)
      | inr t ↦ find_seq_after n f seq i (rw e t) ∙ rest ∙ sym (find_seq_after n g seq i t)
    ]

-- A branch of `acknowledge` that searches all entries.
searched :
    (w : AckWindow) (seq now : ℕ) (at_end : ℕ → Bool) (o : Option ℕ)
    → InWindow w
    → find_seq (dist w.size w.tail w.head) (λ k. w.seqs (k % w.size)) seq w.tail ≡ o
    → ((j : ℕ)
        → w.tail ≤ j
        → j < w.tail + dist w.size w.tail w.head
        → at_end j ≡ true
        → j + 1 ≡ w.tail + dist w.size w.tail w.head)
    → (o ≡ none → acknowledge w seq now ≡ (none, w))
    → ((j : ℕ)
        → o ≡ some j
        → w.tail ≤ j
        → j < w.tail + dist w.size w.tail w.head
        → acknowledge w seq now ≡ on_found w (j % w.size) (at_end j) now)
    → Acknowledges w seq now (acked (entries w) seq)
searched w seq now at_end none v e ends missed hit =
    let n = dist w.size w.tail w.head in
    subst (Acknowledges w seq now) (sym (find_seq-none n w (λ k. k % w.size) seq w.tail e))
      (missed refl)
searched w seq now at_end (some j) v e ends missed hit =
    let n = dist w.size w.tail w.head in
    let f = find_seq-some n w (λ k. k % w.size) seq w.tail j e in
    subst (Acknowledges w seq now) (sym f.found) (
      passed w j (at_end j) seq now v f.from f.below (ends j f.from f.below)
        (hit j refl f.from f.below))

-- The test of the position in the branch of a wrapped window never holds.
never_head :
    (w : AckWindow) (j : ℕ)
    → InWindow w
    → leb w.tail w.head ≡ false
    → w.tail ≤ j
    → j < w.head + w.size
    → (j % w.size == w.head) ≢ true
never_head w j v t h d x =
    let k : w.tail + (j - w.tail) ≡ j = omega (arith, h) in
    let wrapped = mod_wrap w.size w.tail (j - w.tail) v.tail (ground (arith, t, d, h)) in
    absurd (ground (arith, ap (λ i. i % w.size) k, wrapped, x, t, d, h, v.tail, v.head))

-- The search of `acknowledge` stops at the oldest entry with the number: it gives what the entry
-- carries and the time since it was stored, and keeps the entries after it; without such an entry
-- it gives -1 and changes nothing.
pub acknowledge_lem :
    (w : AckWindow) (seq now : ℕ) → InWindow w → Acknowledges w seq now (acked (entries w) seq)
unfolding acknowledge
acknowledge_lem w seq now v = elim (Bool-cases (leb w.tail w.head)) [
  | inl t ↦
      let n : dist w.size w.tail w.head ≡ w.head - w.tail = rw t refl in
      let less : w.tail + dist w.size w.tail w.head ≡ w.head = ground (arith, n, t) in
      let same : find_seq (dist w.size w.tail w.head) (λ k. w.seqs (k % w.size)) seq w.tail
          ≡ find_seq (w.head - w.tail) w.seqs seq w.tail =
        find_seq_same (dist w.size w.tail w.head) (λ k. w.seqs (k % w.size)) w.seqs seq w.tail
          (λ j a b. ap w.seqs (mod-eq_of_lt (omega (arith, b, less, v.head))))
        ∙ ap (λ x. find_seq x w.seqs seq w.tail) n in
      searched w seq now (λ j. j + 1 == w.head) _ v same (λ j a b x. ground (arith, x, less))
        (λ e. rw (acknowledge, t, e) refl)
        (λ j e a b.
          let small : j % w.size ≡ j = mod-eq_of_lt (omega (arith, b, less, v.head)) in
          rw (acknowledge, small, t, e) refl)
  | inr t ↦
      let n : dist w.size w.tail w.head ≡ w.head + w.size - w.tail = ground (arith, t) in
      searched w seq now (λ j. j % w.size == w.head) _ v
        (ap (λ x. find_seq x (λ k. w.seqs (k % w.size)) seq w.tail) n)
        (λ j a b x. absurd (never_head w j v t a (omega (arith, b, n)) x))
        (λ e. rw (acknowledge, t, e) refl) (λ j e a b. rw (acknowledge, t, e) refl)
]
