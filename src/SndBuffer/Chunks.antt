-- ===== src/SndBuffer/Chunks.antt =====
-- udt4/src/buffer.cpp: the packets into which `addBuffer` cuts the data.
use native.Mathlib.Nat.{add-mul, suc-mul, one-mul, zero-mul, div-add-mod', lt-div-mul-add}
use udt_patch_for_epoll.Prelude.{
  ℕ, zero, suc, ◌+◌, ◌-◌, ◌*◌, ◌/◌, ◌%◌, ◌<◌, ◌≤◌, ◌≡◌, refl, sym, ap, ◌∙◌, Bool, Option, List, [],
  ◌∷◌, ◌++◌, arith, ◌==◌, ltb, length, take, drop, length-drop, drop-drop, take_nil, Bool-cases,
  inl, inr,
}
use udt_patch_for_epoll.SendMsgBuf.{Bytes}
use udt_patch_for_epoll.SndBuffer.{Block, packets_of, chunk, packet_of}

-- The packets from number `i` on, `n` of them.
abbrev pub segment {ℓ} : {A : Type ℓ} → (ℕ → A) → ℕ → ℕ → List A
segment packet i zero = []
segment packet i (suc n) = packet i ∷ segment packet (i + 1) n

pub length-segment {ℓ} : {A : Type ℓ} (packet : ℕ → A) (i n : ℕ) → length (segment packet i n) ≡ n
length-segment packet i zero = refl
length-segment packet i (suc n) = ap suc (length-segment packet (i + 1) n)

abbrev pub bytes_of : List Block → Bytes
bytes_of [] = []
bytes_of (b ∷ blocks) = b.payload ++ bytes_of blocks

pub take_all : (n : ℕ) (xs : Bytes) → length xs ≤ n → take n xs ≡ xs
take_all n [] h = take_nil n
take_all zero (x ∷ xs) h = absurd (omega (arith, h))
take_all (suc n) (x ∷ xs) h = ap (λ (ys : Bytes). x ∷ ys) (take_all n xs (omega (arith, h)))

take_split : (m k : ℕ) (xs : Bytes) → take m xs ++ take k (drop m xs) ≡ take (m + k) xs
take_split zero k xs = let e : 0 + k ≡ k = omega arith in rw e refl
take_split (suc m) k [] = let e : suc m + k ≡ suc (m + k) = omega arith in rw e (take_nil k)
take_split (suc m) k (x ∷ xs) =
    let e : suc m + k ≡ suc (m + k) = omega arith in
    rw e (ap (λ (ys : Bytes). x ∷ ys) (take_split m k xs))

chunk-take : (mss : ℕ) (bytes : Bytes) (i : ℕ) → chunk mss bytes i ≡ take mss (drop (i * mss) bytes)
unfolding chunk
chunk-take mss bytes i =
    let ys = drop (i * mss) bytes in
    let e = length-drop (i * mss) bytes in
    elim (Bool-cases (ltb mss (length bytes - i * mss))) [
      | inl t ↦ rw t refl
      | inr t ↦
          let k : length ys ≤ mss = ground (arith, t, e) in
          rw t (take_all (length bytes - i * mss) ys (omega (arith, e)) ∙ sym (take_all mss ys k))
    ]

module _ (mss next : ℕ) (bytes : Bytes) (ttl : Option ℕ) (order : Bool) (now : ℕ) where
  bytes_of-segment :
      (i n : ℕ)
      → bytes_of (segment (packet_of mss next bytes ttl order now) i n)
        ≡ take (n * mss) (drop (i * mss) bytes)
  bytes_of-segment i zero = rw (zero-mul mss) refl
  bytes_of-segment i (suc n) =
      let e : (i + 1) * mss ≡ i * mss + mss =
        add-mul i 1 mss ∙ ap (λ x. i * mss + x) (one-mul mss) in
      let k : suc n * mss ≡ mss + n * mss = omega (arith, suc-mul n mss) in
      rw (chunk-take mss bytes i, bytes_of-segment (i + 1) n, e, k)
        (ap (λ (ys : Bytes). take mss (drop (i * mss) bytes) ++ take (n * mss) ys)
            (sym (drop-drop (i * mss) mss bytes))
          ∙ take_split mss (n * mss) (drop (i * mss) bytes))

pub packets_cover : (len mss : ℕ) → 0 < mss → len ≤ packets_of len mss * mss
packets_cover len mss h = elim (Bool-cases (len % mss == 0)) [
  | inl t ↦ rw t (ground (arith, t, div-add-mod' len mss))
  | inr t ↦
      let e : (len / mss + 1) * mss ≡ len / mss * mss + mss =
        add-mul (len / mss) 1 mss ∙ ap (λ x. len / mss * mss + x) (one-mul mss) in
      rw t (omega (arith, e, lt-div-mul-add {a = len} h))
]

-- The packets of the data hold its bytes in order.
pub bytes_of-packets :
    (mss next : ℕ) (bytes : Bytes) (ttl : Option ℕ) (order : Bool) (now : ℕ)
    → 0 < mss
    → bytes_of (segment (packet_of mss next bytes ttl order now) 0 (packets_of (length bytes) mss))
      ≡ bytes
bytes_of-packets mss next bytes ttl order now h =
    let n = packets_of (length bytes) mss in
    bytes_of-segment mss next bytes ttl order now 0 n
    ∙ rw (zero-mul mss) (take_all (n * mss) bytes (packets_cover (length bytes) mss h))
