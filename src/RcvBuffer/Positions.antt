-- ===== src/RcvBuffer/Positions.antt =====
-- udt4/src/buffer.cpp: positions in the ring of `CRcvBuffer`, and distances between them.
use native.Mathlib.Nat.{mod_self, mod-eq_of_lt, add-mul-mod_self_left}
use udt_patch_for_epoll.Prelude.{
  ℕ, suc, ◌+◌, ◌-◌, ◌%◌, ◌<◌, ◌≤◌, ◌≡◌, ◌≢◌, ap, ◌∙◌, arith, ◌==◌, leb, if◌then◌else◌, ltb, ◌*◌,
  Bool-cases, inl, inr, false,
}
use udt_patch_for_epoll.RcvBuffer.{next_pos}

-- The steps of `next_pos` from one position to another.
abbrev pub dist : ℕ → ℕ → ℕ → ℕ
dist size p q = if leb p q then q - p else size + q - p

pub next_pos-lt : (size p : ℕ) → p < size → next_pos size p < size
next_pos-lt size p h = ground arith

pub dist-lt : (size p q : ℕ) → p < size → q < size → dist size p q < size
dist-lt size p q h k = ground arith

pub dist-next_pos :
    (size p q : ℕ)
    → p < size
    → q < size
    → p ≢ q
    → dist size p q ≡ suc (dist size (next_pos size p) q)
dist-next_pos size p q h k n = ground arith

-- From `p` the position `q` comes before `next_pos q`, unless that is `p` again.
pub dist_last :
    (size p q : ℕ)
    → p < size
    → q < size
    → next_pos size q ≢ p
    → dist size p (next_pos size q) ≡ suc (dist size p q)
dist_last size p q h k n = ground arith

pub dist_self : (size p : ℕ) → dist size p p ≡ 0
dist_self size p = ground arith

pub dist_inj :
    (size p i j : ℕ) → p < size → i < size → j < size → dist size p i ≡ dist size p j → i ≡ j
dist_inj size p i j h k m e = ground arith

pub mod_next : (size q : ℕ) → q < size → (q + 1) % size ≡ next_pos size q
mod_next size q h = elim (Bool-cases (q + 1 == size)) [
  | inl t ↦ let e : q + 1 ≡ size = ground arith in rw t (ap (λ x. x % size) e ∙ mod_self size)
  | inr t ↦ rw t (mod-eq_of_lt (ground arith))
]

-- A step towards a position that is not there yet.
pub dist_step :
    (size q stop n : ℕ)
    → q < size
    → stop < size
    → suc n ≤ dist size q stop
    → ((q == stop) ≡ false) × (n ≤ dist size (next_pos size q) stop)
dist_step size q stop n h k d = (ground arith, ground arith)

pub dist-back : (size q : ℕ) → q < size → suc (dist size (next_pos size q) q) ≡ size
dist-back size q h = ground arith

-- A sum that leaves the array once comes back at its start.
pub mod_wrap :
    (size a n : ℕ)
    → a < size
    → n < size
    → (a + n) % size ≡ (if ltb (a + n) size then a + n else a + n - size)
mod_wrap size a n h k = elim (Bool-cases (ltb (a + n) size)) [
  | inl t ↦ rw t (mod-eq_of_lt (ground (arith, t)))
  | inr t ↦
      (let over : a + n ≡ a + n - size + size * 1 = ground (arith, t) in
        let less : a + n - size < size = ground (arith, t, h, k) in
        rw t (
          ap (λ x. x % size) over
          ∙ add-mul-mod_self_left (a + n - size) size 1
          ∙ mod-eq_of_lt less))
]

pub mod_wrap-lt : (size a n : ℕ) → a < size → n < size → (a + n) % size < size
mod_wrap-lt size a n h k = ground (arith, mod_wrap size a n h k)

-- A position that moves ahead of another by `n` without coming round.
pub dist-mod :
    (size p q n : ℕ)
    → p < size
    → q < size
    → dist size p q + n < size
    → dist size p ((q + n) % size) ≡ dist size p q + n
dist-mod size p q n h k d =
    let m : n < size = omega (arith, d) in rw (mod_wrap size q n k m) (ground (arith, d, h, k))
