-- ===== src/Std/Set.antt =====
-- `std::set` of non-negative integers: the elements in ascending order, as an iteration visits them.
-- Clients use the membership laws at the end.
use udt_patch_for_epoll.Prelude.{
  ℕ, ◌+◌, ◌<◌, ◌≡◌, refl, Bool, true, false, List, [], ◌∷◌, arith, ltb, ◌==◌, if◌then◌else◌,
}

abbrev pub Set : Type 0
Set = List ℕ

unfoldable pub contains : ℕ → Set → Bool
contains k [] = false
contains k (x ∷ s) = if x == k then true else contains k s

unfoldable pub insert : ℕ → Set → Set
insert k [] = k ∷ []
insert k (x ∷ s) = if x == k then x ∷ s else if ltb k x then k ∷ x ∷ s else x ∷ insert k s

unfoldable pub erase : ℕ → Set → Set
erase k [] = []
erase k (x ∷ s) = if x == k then erase k s else x ∷ erase k s

pub contains-insert :
    (j k : ℕ) (s : Set) → contains j (insert k s) ≡ (if k == j then true else contains j s)
unfolding contains insert
contains-insert j k [] = refl
contains-insert j k (x ∷ s) = ground (arith, contains-insert j k s)

pub contains-erase :
    (j k : ℕ) (s : Set) → contains j (erase k s) ≡ (if k == j then false else contains j s)
unfolding contains erase
contains-erase j k [] = ground arith
contains-erase j k (x ∷ s) = ground (arith, contains-erase j k s)

-- Ascending, from a lower bound on: the representation that `std::set` keeps.
abbrev pub Ascends : ℕ → Set → Type 0
Ascends n [] = Unit {0}
Ascends n (x ∷ s) = (n < x + 1) × Ascends (x + 1) s

pub Ascends-mono : (m n : ℕ) (s : Set) → m < n + 1 → Ascends n s → Ascends m s
Ascends-mono m n [] h a = tt
Ascends-mono m n (x ∷ s) h a = (omega arith, a.1)

pub insert-Ascends : (k n : ℕ) (s : Set) → n < k + 1 → Ascends n s → Ascends n (insert k s)
unfolding insert
insert-Ascends k n [] h a = (h, tt)
insert-Ascends k n (x ∷ s) h a = ground (arith, insert-Ascends k (x + 1) s)

pub erase-Ascends : (k n : ℕ) (s : Set) → Ascends n s → Ascends n (erase k s)
unfolding erase
erase-Ascends k n [] a = tt
erase-Ascends k n (x ∷ s) a =
    ground (arith, erase-Ascends k (x + 1) s, Ascends-mono n (x + 1) (erase k s))

pub insert_twice : (k : ℕ) (s : Set) → insert k (insert k s) ≡ insert k s
unfolding insert
insert_twice k [] = ground arith
insert_twice k (x ∷ s) = ground (arith, insert_twice k s)

pub erase_twice : (k : ℕ) (s : Set) → erase k (erase k s) ≡ erase k s
unfolding erase
erase_twice k [] = refl
erase_twice k (x ∷ s) = ground (arith, erase_twice k s)
