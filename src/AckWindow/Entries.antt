-- ===== src/AckWindow/Entries.antt =====
-- udt4/src/window.cpp: the entries of the window, from the oldest on.
use mathlib.Core.Path.{subst}
use native.Mathlib.Nat.{mod-add-mod}
use udt_patch_for_epoll.Prelude.{
  ℕ, zero, suc, ◌+◌, ◌-◌, ◌%◌, ◌<◌, ◌≤◌, ◌≡◌, refl, sym, ap, ◌∙◌, true, false, Option, none, some,
  List, [], ◌∷◌, ◌++◌, arith, ◌==◌, if◌then◌else◌, length, Bool-cases, inl, inr,
}
use udt_patch_for_epoll.RcvBuffer.Positions.{dist}
use udt_patch_for_epoll.AckWindow.{AckWindow, find_seq}

pub record Entry : Type 0 where
  pub seq : ℕ
  pub ack : ℕ
  pub time : ℕ

abbrev pub entry : AckWindow → ℕ → Entry
entry w i = record { seq = w.seqs i; ack = w.acks i; time = w.times i }

-- `n` values of a function from `i` on.
abbrev pub listed {ℓ} : {A : Type ℓ} → ℕ → (ℕ → A) → ℕ → List A
listed zero f i = []
listed (suc n) f i = f i ∷ listed n f (i + 1)

abbrev pub entries : AckWindow → List Entry
entries w = listed (dist w.size w.tail w.head) (λ i. entry w (i % w.size)) w.tail

-- The first entry with this number, and the entries after it.
abbrev pub acked : List Entry → ℕ → Option (Entry × List Entry)
acked [] seq = none
acked (e ∷ es) seq = let rest = acked es seq in if seq == e.seq then some (e, es) else rest

pub length-listed {ℓ} : {A : Type ℓ} (n : ℕ) (f : ℕ → A) (i : ℕ) → length (listed n f i) ≡ n
length-listed zero f i = refl
length-listed (suc n) f i = ap suc (length-listed n f (i + 1))

-- Values that agree where they are listed.
pub listed_same :
    {A : Type 0} (n : ℕ) (f g : ℕ → A) (i : ℕ)
    → ((j : ℕ) → i ≤ j → j < i + n → f j ≡ g j)
    → listed n f i ≡ listed n g i
listed_same zero f g i h = refl
listed_same (suc n) f g i h =
    rw
      (
        h i (omega arith) (omega arith),
        listed_same n f g (i + 1) (λ j a b. h j (omega (arith, a)) (omega (arith, b))),
      )
      refl

-- Values around a ring.
pub listed-mod :
    {A : Type 0} (n size : ℕ) (f : ℕ → A) (i j : ℕ)
    → i % size ≡ j % size
    → listed n (λ k. f (k % size)) i ≡ listed n (λ k. f (k % size)) j
listed-mod zero size f i j e = refl
listed-mod (suc n) size f i j e =
    let next : (i + 1) % size ≡ (j + 1) % size =
      sym (mod-add-mod i size 1) ∙ ap (λ k. (k + 1) % size) e ∙ mod-add-mod j size 1 in
    rw (e, listed-mod n size f (i + 1) (j + 1) next) refl

pub listed_last :
    {A : Type 0} (n : ℕ) (f : ℕ → A) (i : ℕ) → listed (suc n) f i ≡ listed n f i ++ (f (i + n) ∷ [])
listed_last zero f i = let e : i + 0 ≡ i = omega arith in rw e refl
listed_last (suc n) f i =
    let e : i + suc n ≡ i + 1 + n = omega arith in rw e (ap (◌∷◌ (f i)) (listed_last n f (i + 1)))

-- What a search of `acknowledge` gives, beside the search in the list.
pub record Found (w : AckWindow) (n : ℕ) (index : ℕ → ℕ) (seq i j : ℕ) : Type 0 where
  pub from : i ≤ j
  pub below : j < i + n
  pub found :
      acked (listed n (λ k. entry w (index k)) i) seq
      ≡ some (entry w (index j), listed (i + n - (j + 1)) (λ k. entry w (index k)) (j + 1))

module _ (n : ℕ) (seqs : ℕ → ℕ) (seq i : ℕ) where
  pub find_seq_here : (seq == seqs i) ≡ true → find_seq (suc n) seqs seq i ≡ some i
  unfolding find_seq
  find_seq_here t = rw (find_seq, t) refl

  pub find_seq_after :
      (seq == seqs i) ≡ false → find_seq (suc n) seqs seq i ≡ find_seq n seqs seq (i + 1)
  unfolding find_seq
  find_seq_after t = rw (find_seq, t) refl

pub find_seq-none :
    (n : ℕ) (w : AckWindow) (index : ℕ → ℕ) (seq i : ℕ)
    → find_seq n (λ k. w.seqs (index k)) seq i ≡ none
    → acked (listed n (λ k. entry w (index k)) i) seq ≡ none
unfolding find_seq
find_seq-none zero w index seq i e = refl
find_seq-none (suc n) w index seq i e = elim (Bool-cases (seq == w.seqs (index i))) [
  | inl t ↦ let here = find_seq_here n (λ k. w.seqs (index k)) seq i t in absurd (cc)
  | inr t ↦ rw t (
      find_seq-none n w index seq (i + 1)
        (sym (find_seq_after n (λ k. w.seqs (index k)) seq i t) ∙ e))
]

module _ (n : ℕ) (w : AckWindow) (index : ℕ → ℕ) (seq i : ℕ) where
  found_here : (seq == w.seqs (index i)) ≡ true → Found w (suc n) index seq i i
  found_here t =
      let e : i + suc n - (i + 1) ≡ n = omega arith in
      record { from = omega arith; below = omega arith; found = rw (t, e) refl }

  found_after :
      (j : ℕ)
      → (seq == w.seqs (index i)) ≡ false
      → Found w n index seq (i + 1) j
      → Found w (suc n) index seq i j
  found_after j t v =
      let e : i + suc n - (j + 1) ≡ i + 1 + n - (j + 1) = omega arith in
      record {
        from = omega (arith, v.from);
        below = omega (arith, v.below);
        found = rw (t, e) v.found;
      }

pub find_seq-some :
    (n : ℕ) (w : AckWindow) (index : ℕ → ℕ) (seq i j : ℕ)
    → find_seq n (λ k. w.seqs (index k)) seq i ≡ some j
    → Found w n index seq i j
unfolding find_seq
find_seq-some zero w index seq i j e = absurd (cc)
find_seq-some (suc n) w index seq i j e = elim (Bool-cases (seq == w.seqs (index i))) [
  | inl t ↦
      let here = find_seq_here n (λ k. w.seqs (index k)) seq i t in
      let same : i ≡ j = cc in
      subst (Found w (suc n) index seq i) same (found_here n w index seq i t)
  | inr t ↦ found_after n w index seq i j t (
      find_seq-some n w index seq (i + 1) j
        (sym (find_seq_after n (λ k. w.seqs (index k)) seq i t) ∙ e))
]
