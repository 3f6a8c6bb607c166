-- ===== src/TestStr/Size.antt =====
-- server_udt/test_util.cpp: the length of what `test_str` gives.
use udt_patch_for_epoll.Prelude.{
  ℕ, zero, suc, ◌+◌, ◌-◌, ◌*◌, ◌/◌, ◌≤◌, ◌<◌, ◌≡◌, refl, ap, true, some, [], ◌∷◌, ◌++◌, arith, ltb,
  leb, length, take, length-append, length-take, Bool-cases, inl, inr,
}
use udt_patch_for_epoll.SendMsgBuf.{Bytes}
use udt_patch_for_epoll.TestStr.{
  digits, decimal, fill, repeat, resize, fill_up, add_block, add_blocks, finish, test_str,
}

length-fill : (n i : ℕ) → length (fill n i) ≡ n
unfolding fill
length-fill zero i = refl
length-fill (suc n) i = ap suc (length-fill n (i + 1))

length-repeat : (n c : ℕ) → length (repeat n c) ≡ n
length-repeat zero c = refl
length-repeat (suc n) c = ap suc (length-repeat n c)

length-resize : (str : Bytes) (n c : ℕ) → length (resize str n c) ≡ n
unfolding resize
length-resize str n c = omega (
  arith,
  length-append (take n str) (repeat (n - length str) c),
  length-take n str,
  length-repeat (n - length str) c,
)

length-fill_up : (str : Bytes) (n : ℕ) → length str ≤ n → length (fill_up str n) ≡ n
unfolding fill_up
length-fill_up str n h = omega (
  arith,
  h,
  length-append str (fill (n - length str) (length str + 1)),
  length-fill (n - length str) (length str + 1),
)

-- A number below 10 * b has at most one digit more than the numbers below b have.
length-digits :
    (fuel n b k : ℕ)
    → n < 10 * b
    → ((m : ℕ) → m < b → length (digits fuel m) ≤ k)
    → length (digits (suc fuel) n) ≤ suc k
unfolding digits
length-digits fuel n b k h r = elim (Bool-cases (ltb n 10)) [
  | inl t ↦ rw (t, digits) (omega arith)
  | inr t ↦
      rw (t, digits)
        (omega
          (arith, length-append (digits fuel (n / 10)) (_ ∷ []), r (n / 10) (omega (arith, h))))
]

ltb_intro : (a b : ℕ) → a < b → ltb a b ≡ true
ltb_intro a b h = ground arith

leb_elim : (a b : ℕ) → leb a b ≡ true → a ≤ b
leb_elim a b t = ground arith

one_digit : (fuel n : ℕ) → n < 10 → length (digits (suc fuel) n) ≤ 1
unfolding digits
one_digit fuel n h = rw (ltb_intro n 10 h, digits) (omega arith)

seven_digits : (n : ℕ) → n < 10000000 → length (decimal n) ≤ 7
unfolding decimal
seven_digits n h =
    let d2 = λ (m : ℕ) (b : m < 100). length-digits 14 m 10 1 b (one_digit 13) in
    let d3 = λ (m : ℕ) (b : m < 1000). length-digits 15 m 100 2 b d2 in
    let d4 = λ (m : ℕ) (b : m < 10000). length-digits 16 m 1000 3 b d3 in
    let d5 = λ (m : ℕ) (b : m < 100000). length-digits 17 m 10000 4 b d4 in
    let d6 = λ (m : ℕ) (b : m < 1000000). length-digits 18 m 100000 5 b d5 in
    length-digits 19 n 1000000 6 h d6

length-add_block :
    (str : Bytes) → length str + 10 < 10000000 → length (add_block str) ≡ length str + 10
unfolding add_block
length-add_block str h =
    let n = length str + 10 in
    let tmp = str ++ (40 ∷ decimal n ++ (95 ∷ [])) in
    omega (
      arith,
      length-append (tmp ++ fill (n - (length tmp + 1)) (length tmp + 1)) (41 ∷ []),
      length-append tmp (fill (n - (length tmp + 1)) (length tmp + 1)),
      length-fill (n - (length tmp + 1)) (length tmp + 1),
      length-append str (40 ∷ decimal n ++ (95 ∷ [])),
      length-append (decimal n) (95 ∷ []),
      seven_digits n h,
    )

-- The loop comes back, with a string that has no room for a block more.
add_blocks_size :
    (fuel : ℕ) (str : Bytes) (n : ℕ)
    → n < 10000000
    → length str ≤ n
    → n < length str + fuel
    → (s : Bytes) × (add_blocks fuel str n ≡ some s) × (length s ≤ n)
unfolding add_blocks
add_blocks_size zero str n b h f = absurd (omega (arith, h, f))
add_blocks_size (suc fuel) str n b h f = elim (Bool-cases (leb (length str + 10) n)) [
  | inl t ↦
      (let k = leb_elim (length str + 10) n t in
        let e = length-add_block str (omega (arith, k, b)) in
        rw (t, add_blocks)
          (add_blocks_size fuel (add_block str) n b (omega (arith, e, k)) (omega (arith, e, f))))
  | inr t ↦ rw (t, add_blocks) (str, refl, h)
]

finish_size :
    (str : Bytes) (n : ℕ)
    → length str ≤ n
    → (s : Bytes) × (finish (some str) n ≡ some s) × (length s ≡ n)
finish_size str n h = elim (Bool-cases (ltb (length str) n)) [
  | inl t ↦ rw t (fill_up str n, refl, length-fill_up str n h)
  | inr t ↦ rw t (str, refl, ground arith)
]

-- For a length below ten million `test_str` comes back, with a string of exactly that length.
pub length-test_str :
    (str_prefix : Bytes) (n : ℕ)
    → n < 10000000
    → (s : Bytes) × (test_str str_prefix n ≡ some s) × (length s ≡ n)
unfolding test_str
length-test_str str_prefix n b =
    let str = str_prefix ++ (58 ∷ []) in
    elim (Bool-cases (leb n (length str))) [
      | inl t ↦ rw (t, test_str) (resize str n 0, refl, length-resize str n 0)
      | inr t ↦ elim (Bool-cases (ltb n 20)) [
        | inl x ↦
            rw (t, x, test_str) (fill_up str n, refl, length-fill_up str n (ground (arith, t)))
        | inr x ↦
            (let e = length-resize str 10 61 in
              let (s, r, h) =
                add_blocks_size (suc n) (resize str 10 61) n b (ground (arith, x, e))
                  (omega arith) in
              rw (t, x, r, test_str) (finish_size s n h))
      ]
    ]
