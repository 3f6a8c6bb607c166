-- ===== src/SndBuffer/Growing.antt =====
-- udt4/src/buffer.cpp: `increase` and the loop around it.
use udt_patch_for_epoll.Prelude.{
  ℕ, zero, suc, ◌+◌, ◌-◌, ◌<◌, ◌≤◌, ◌≡◌, refl, ap, ◌∙◌, false, List, [], ◌∷◌, ◌++◌, arith, leb, ltb,
  length, take, drop, length-append, Bool-cases, inl, inr,
}
use udt_patch_for_epoll.RcvBuffer.{done}
use udt_patch_for_epoll.SndBuffer.{Block, SndBuffer, replicate, increase, grow}

-- The blocks from `m_pFirstBlock` to `m_pLastBlock` are these, and a free one follows.
pub record IsQueue (b : SndBuffer) (used : List Block) : Type 0 where
  pub free : List Block
  pub split : b.blocks ≡ used ++ free
  pub room : 0 < length free
  pub count : b.count ≡ length used
  pub last : b.last ≡ length used
  pub size : length b.blocks ≡ b.size
  pub sent : b.curr ≤ length used
  pub unit_size : 0 < b.unit_size

pub length-replicate : (n : ℕ) (block : Block) → length (replicate n block) ≡ n
length-replicate zero block = refl
length-replicate (suc n) block = ap suc (length-replicate n block)

insert_after :
    (used fresh rest : List Block) (block : Block)
    → take (length used + 1) (used ++ (block ∷ rest))
        ++ (fresh ++ drop (length used + 1) (used ++ (block ∷ rest)))
      ≡ used ++ (block ∷ (fresh ++ rest))
insert_after [] fresh rest block = refl
insert_after (u ∷ used) fresh rest block =
    let e : suc (length used) + 1 ≡ suc (length used + 1) = omega arith in
    rw e (ap (λ (blocks : List Block). u ∷ blocks) (insert_after used fresh rest block))

-- What `increase` and the loop around it keep.
pub record Grown (b b1 : SndBuffer) : Type 0 where
  pub curr : b1.curr ≡ b.curr
  pub count : b1.count ≡ b.count
  pub mss : b1.mss ≡ b.mss
  pub next_msg_no : b1.next_msg_no ≡ b.next_msg_no

length-inserted :
    (used fresh rest : List Block) (block : Block)
    → length (used ++ (block ∷ (fresh ++ rest))) ≡ length (used ++ (block ∷ rest)) + length fresh
length-inserted used fresh rest block = omega (
  arith,
  length-append used (block ∷ (fresh ++ rest)),
  length-append used (block ∷ rest),
  length-append fresh rest,
)

increase_before :
    (b : SndBuffer) (used free : List Block) (memory : Block)
    → IsQueue b used
    → b.blocks ≡ used ++ free
    → 0 < length free
    → IsQueue (increase b memory) used × Grown b (increase b memory)
unfolding increase
increase_before b used [] memory v e h = absurd (omega (arith, h))
increase_before b used (f ∷ rest) memory v e h =
    let fresh = replicate (suc (b.unit_size - 1)) memory in
    let behind : ltb b.last b.curr ≡ false = ground (arith, v.last, v.sent) in
    let inserted : take (b.last + 1) b.blocks ++ (fresh ++ drop (b.last + 1) b.blocks)
        ≡ used ++ (f ∷ (fresh ++ rest)) =
      rw (e, v.last) (insert_after used fresh rest f) in
    let longer = ap length inserted ∙ length-inserted used fresh rest f in
    (
      record {
        free = f ∷ (fresh ++ rest);
        split = inserted;
        room = omega arith;
        count = v.count;
        last = v.last;
        size = omega (
          arith,
          longer,
          ap length e,
          v.size,
          length-replicate (suc (b.unit_size - 1)) memory,
          v.unit_size,
        );
        sent = rw behind v.sent;
        unit_size = v.unit_size;
      },
      record { curr = rw behind refl; count = refl; mss = refl; next_msg_no = refl },
    )

grown_fuel :
    (fuel : ℕ) (b : SndBuffer) (size : ℕ) (memory : Block)
    → 0 < b.unit_size
    → size + b.count + 1 < suc fuel + b.size
    → size + (increase b memory).count + 1 < fuel + (increase b memory).size
unfolding increase
grown_fuel fuel b size memory h f = omega (arith, h, f)

-- The loop around `increase` ends with room for the packets and one block more.
pub grow-IsQueue :
    (fuel : ℕ) (b : SndBuffer) (used : List Block) (size : ℕ) (memory : Block)
    → IsQueue b used
    → size + b.count + 1 < fuel + b.size
    → 0 < fuel
    → (b1 : SndBuffer) × (grow fuel b size memory ≡ done b1)
      × IsQueue b1 used
      × Grown b b1
      × (size + b1.count < b1.size)
unfolding grow
grow-IsQueue zero b used size memory v f p = absurd (omega (arith, p))
grow-IsQueue (suc fuel) b used size memory v f p = elim (Bool-cases (leb b.size (size + b.count))) [
  | inr t ↦
      rw (grow, t)
        (
          b,
          refl,
          v,
          record { curr = refl; count = refl; mss = refl; next_msg_no = refl },
          ground (arith, t),
        )
  | inl t ↦
      let (w, g) = increase_before b used v.free memory v v.split v.room in
      let (b1, e, w1, g1, h) =
        grow-IsQueue fuel (increase b memory) used size memory w
          (grown_fuel fuel b size memory v.unit_size f) (ground (arith, f, t)) in
      rw (grow, t)
        (
          b1,
          e,
          w1,
          record {
            curr = g1.curr ∙ g.curr;
            count = g1.count ∙ g.count;
            mss = g1.mss ∙ g.mss;
            next_msg_no = g1.next_msg_no ∙ g.next_msg_no;
          },
          h,
        )
]
