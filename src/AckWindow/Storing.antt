-- ===== src/AckWindow/Storing.antt =====
-- udt4/src/window.cpp: `store` beside a list of bounded length.
use mathlib.Core.Path.{subst}
use native.Mathlib.Nat.{mod-lt, mod-mod}
use udt_patch_for_epoll.Prelude.{
  ℕ, suc, ◌+◌, ◌-◌, ◌%◌, ◌<◌, ◌≤◌, ◌≡◌, refl, sym, ap, ◌∙◌, true, false, List, [], ◌∷◌, ◌++◌, arith,
  ◌==◌, if◌then◌else◌, length, drop, Bool-cases, inl, inr,
}
use udt_patch_for_epoll.RcvBuffer.{next_pos}
use udt_patch_for_epoll.RcvBuffer.Positions.{dist, dist-lt, mod_wrap, mod_next}
use udt_patch_for_epoll.AckWindow.{AckWindow, write, store_ack}
use udt_patch_for_epoll.AckWindow.Entries.{
  Entry, entry, listed, entries, listed_same, listed-mod, listed_last, length-listed,
}
use udt_patch_for_epoll.AckWindow.Refines.{InWindow, around}

-- An entry put behind the others of a list that stays shorter than `size`.
abbrev pub put : ℕ → List Entry → Entry → List Entry
put size es e = if length es + 1 == size then drop 1 (es ++ (e ∷ [])) else es ++ (e ∷ [])

module _ (w : AckWindow) (seq ack now : ℕ) (v : InWindow w) where
  abbrev written : AckWindow
  written = record w {
    seqs = write w.seqs w.head seq;
    acks = write w.acks w.head ack;
    times = write w.times w.head now;
  }

  abbrev n : ℕ
  n = dist w.size w.tail w.head

  at_head : (w.tail + n) % w.size ≡ w.head
  at_head = ground (
    arith,
    mod_wrap w.size w.tail n v.tail (dist-lt w.size w.tail w.head v.tail v.head),
    v.head,
    v.tail,
  )

  not_head : (j : ℕ) → w.tail ≤ j → j < w.tail + n → (w.head == j % w.size) ≡ false
  not_head j h d =
      let k : w.tail + (j - w.tail) ≡ j = omega (arith, h) in
      let less : j - w.tail < w.size =
        omega (arith, d, h, dist-lt w.size w.tail w.head v.tail v.head) in
      let m = mod_wrap w.size w.tail (j - w.tail) v.tail less in
      ground (arith, ap (λ i. i % w.size) k, m, k, d, h, v.tail, v.head)

  -- The entries with the new one behind them.
  all_entries :
      listed (suc n) (around written) w.tail
      ≡ entries w ++ (record { seq = seq; ack = ack; time = now } ∷ [])
  all_entries =
      let here : (w.head == w.head) ≡ true = ground arith in
      let new : around written (w.tail + n) ≡ record { seq = seq; ack = ack; time = now } =
        rw (at_head, here) refl in
      let old : listed n (around written) w.tail ≡ entries w =
        listed_same n (around written) (around w) w.tail (λ j h d. rw (not_head j h d) refl) in
      listed_last n (around written) w.tail
      ∙ ap (λ (e : Entry). listed n (around written) w.tail ++ (e ∷ [])) new
      ∙ ap (λ (es : List Entry). es ++ (record { seq = seq; ack = ack; time = now } ∷ [])) old

  size_one : length (entries w) ≡ n
  size_one = length-listed n (around w) w.tail

put_full :
    (size : ℕ) (es : List Entry) (e : Entry)
    → (length es + 1 == size) ≡ true
    → put size es e ≡ drop 1 (es ++ (e ∷ []))
put_full size es e t = rw t refl

put_more :
    (size : ℕ) (es : List Entry) (e : Entry)
    → (length es + 1 == size) ≡ false
    → put size es e ≡ es ++ (e ∷ [])
put_more size es e t = rw t refl

-- The distance from the tail to the head after a step of the head, and of both.
dist_full :
    (size tail head : ℕ)
    → tail < size
    → head < size
    → (next_pos size head == tail) ≡ true
    → (dist size (next_pos size tail) (next_pos size head) ≡ dist size tail head)
      × (suc (dist size tail head) ≡ size)
dist_full size tail head h k t = (ground arith, ground arith)

dist_more :
    (size tail head : ℕ)
    → tail < size
    → head < size
    → (next_pos size head == tail) ≡ false
    → (dist size tail (next_pos size head) ≡ suc (dist size tail head))
      × (suc (dist size tail head) < size)
dist_more size tail head h k t = (ground arith, ground arith)

-- `store` puts the entry behind the others; when the window then has as many entries as slots, it
-- forgets the oldest one. The positions stay in the arrays.
pub store_ack_lem :
    (w : AckWindow) (seq ack now : ℕ)
    → InWindow w
    → (entries (store_ack w seq ack now)
        ≡ put w.size (entries w) (record { seq = seq; ack = ack; time = now }))
      × InWindow (store_ack w seq ack now)
unfolding store_ack
store_ack_lem w seq ack now v =
    let e : Entry = record { seq = seq; ack = ack; time = now } in
    let n = dist w.size w.tail w.head in
    let f = around (written w seq ack now v) in
    let l : length (entries w) ≡ n = length-listed n (around w) w.tail in
    let all = all_entries w seq ack now v in
    let positive : 0 < w.size = omega (arith, v.head) in
    let head = mod_next w.size w.head v.head in
    let tail = mod_next w.size w.tail v.tail in
    elim (Bool-cases ((w.head + 1) % w.size == w.tail)) [
      | inl t ↦
          let (d, full) = dist_full w.size w.tail w.head v.tail v.head (rw (← head) t) in
          let test : (length (entries w) + 1 == w.size) ≡ true = ground (arith, l, full) in
          let moved : store_ack w seq ack now ≡ record (written w seq ack now v) {
            head = (w.head + 1) % w.size;
            tail = (w.tail + 1) % w.size;
          } =
            rw (store_ack, t) refl in
          let count : dist w.size ((w.tail + 1) % w.size) ((w.head + 1) % w.size) ≡ n =
            rw (head, tail) d in
          (
            ap entries moved
                ∙ ap (λ (k : ℕ). listed k f ((w.tail + 1) % w.size)) count
                ∙ listed-mod n w.size (entry (written w seq ack now v)) ((w.tail + 1) % w.size)
                    (w.tail + 1) (mod-mod (w.tail + 1) w.size)
                ∙ ap (drop 1) all
                ∙ sym (put_full w.size (entries w) e test),
            subst InWindow (sym moved) (record {
              head = mod-lt (w.head + 1) positive;
              tail = mod-lt (w.tail + 1) positive;
            }),
          )
      | inr t ↦
          let (d, room) = dist_more w.size w.tail w.head v.tail v.head (rw (← head) t) in
          let test : (length (entries w) + 1 == w.size) ≡ false = ground (arith, l, room) in
          let moved : store_ack w seq ack now
              ≡ record (written w seq ack now v) { head = (w.head + 1) % w.size } =
            rw (store_ack, t) refl in
          let count : dist w.size w.tail ((w.head + 1) % w.size) ≡ suc n = rw head d in
          (
            ap entries moved
                ∙ ap (λ (k : ℕ). listed k f w.tail) count
                ∙ all
                ∙ sym (put_more w.size (entries w) e test),
            subst InWindow (sym moved)
                (record { head = mod-lt (w.head + 1) positive; tail = v.tail }),
          )
    ]
