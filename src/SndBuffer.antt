-- ===== src/SndBuffer.antt =====
-- udt4/src/buffer.h and buffer.cpp: `CSndBuffer`, the packets that a socket sends.
-- The circular list of blocks is the list of its blocks from `m_pFirstBlock` on. `m_pCurrBlock` and
-- `m_pLastBlock` are the steps from there. A block's memory holds its bytes only: what was allocated
-- and not yet written is a block given from outside. A negative `m_iTTL` is none. Memory never runs
-- out, and the clock is an argument.
pub mod Chunks
pub mod Growing
pub mod Adding
pub mod Reading
pub mod Refines
pub mod Transfer
pub mod Delivery
pub mod RoundTrip
mod Tests
use udt_patch_for_epoll.Prelude.{
  ℕ, zero, suc, ◌+◌, ◌-◌, ◌*◌, ◌/◌, ◌%◌, ◌^◌, Bool, true, false, ◌&&◌, Option, none, some, List, [],
  ◌∷◌, ◌++◌, ◌==◌, ltb, leb, if◌then◌else◌, length, get_elem?, take, drop,
}
use udt_patch_for_epoll.SendMsgBuf.{Bytes}
use udt_patch_for_epoll.RcvBuffer.{Run, done, null_dereferenced, out_of_fuel, ◌>>=◌, next_pos}

-- `Block`, with the bytes that it holds.
pub record Block : Type 0 where
  pub payload : Bytes
  pub msg_no : ℕ
  pub origin_time : ℕ
  pub ttl : Option ℕ

-- `CSndBuffer`; `unit_size` is the size of a physical buffer, `m_pBuffer->m_iSize`.
pub record SndBuffer : Type 0 where
  pub blocks : List Block
  pub curr : ℕ
  pub last : ℕ
  pub next_msg_no : ℕ
  pub size : ℕ
  pub mss : ℕ
  pub count : ℕ
  pub unit_size : ℕ

abbrev pub replicate {ℓ} : {A : Type ℓ} → ℕ → A → List A
replicate zero a = []
replicate (suc n) a = a ∷ replicate n a

abbrev pub set_at {ℓ} : {A : Type ℓ} → List A → ℕ → A → List A
set_at [] i b = []
set_at (a ∷ rest) zero b = b ∷ rest
set_at (a ∷ rest) (suc i) b = a ∷ set_at rest i b

-- The constructor. The number of the last block is not set.
unfoldable pub new_snd_buffer : ℕ → ℕ → Block → SndBuffer
new_snd_buffer size mss memory = record {
  blocks = replicate (size - 1) (record memory { msg_no = 0 }) ++ (memory ∷ []);
  curr = 0;
  last = 0;
  next_msg_no = 1;
  size = size;
  mss = mss;
  count = 0;
  unit_size = size;
}

-- `increase`: new blocks after the one at `m_pLastBlock`, at least one.
unfoldable pub increase : SndBuffer → Block → SndBuffer
increase b memory =
    let blocks = replicate (suc (b.unit_size - 1)) memory in
    record b {
      blocks = take (b.last + 1) b.blocks ++ (blocks ++ drop (b.last + 1) b.blocks);
      curr = if ltb b.last b.curr then b.curr + length blocks else b.curr;
      size = b.size + b.unit_size;
    }

-- `while (size + m_iCount >= m_iSize) increase();`
unfoldable pub grow : ℕ → SndBuffer → ℕ → Block → Run SndBuffer
grow zero b size memory = out_of_fuel
grow (suc fuel) b size memory = elim (leb b.size (size + b.count)) [
  | true ↦ grow fuel (increase b memory) size memory
  | false ↦ done b
]

-- The packets for so many bytes.
abbrev pub packets_of : ℕ → ℕ → ℕ
packets_of len mss = if len % mss == 0 then len / mss else len / mss + 1

-- The bytes of packet `i`.
unfoldable pub chunk : ℕ → Bytes → ℕ → Bytes
chunk mss bytes i =
    let pktlen = length bytes - i * mss in
    take (if ltb mss pktlen then mss else pktlen) (drop (i * mss) bytes)

-- `m_iMsgNo` of packet `i` of `size`: the parts do not overlap, as `m_iNextMsgNo` is less than 2^29,
-- so that `|` is their sum.
unfoldable pub msg_word : ℕ → Bool → ℕ → ℕ → ℕ
msg_word next order size i =
    next
    + (if order then 2 ^ 29 else 0)
    + (if i == 0 then 2 ^ 31 else 0)
    + (if i + 1 == size then 2 ^ 30 else 0)

-- The loop of `addBuffer` at packet `i` and block `s`, with `n` packets to go.
unfoldable pub write_blocks : ℕ → (ℕ → Block) → List Block → ℕ → ℕ → List Block × ℕ
write_blocks zero packet blocks i s = (blocks, s)
write_blocks (suc n) packet blocks i s =
    write_blocks n packet (set_at blocks s (packet i)) (i + 1) (next_pos (length blocks) s)

-- `++ m_iNextMsgNo`, with the wrap; `m_iMaxMsgNo` is 0x1FFFFFFF.
abbrev pub next_number : ℕ → ℕ
next_number n = if n + 1 == 2 ^ 29 - 1 then 1 else n + 1

abbrev pub packet_of : ℕ → ℕ → Bytes → Option ℕ → Bool → ℕ → ℕ → Block
packet_of mss next bytes ttl order now i = record {
  payload = chunk mss bytes i;
  msg_no = msg_word next order (packets_of (length bytes) mss) i;
  origin_time = now;
  ttl = ttl;
}

-- `addBuffer`
unfoldable pub add_buffer : SndBuffer → Bytes → Option ℕ → Bool → ℕ → Block → Run SndBuffer
add_buffer b bytes ttl order now memory =
    let size = packets_of (length bytes) b.mss in
    grow (size + b.count + 1) b size memory >>= λ b1.
    let (blocks, last) =
      write_blocks size (packet_of b1.mss b1.next_msg_no bytes ttl order now) b1.blocks 0 b1.last in
    done (record b1 {
      blocks = blocks;
      last = last;
      count = b1.count + size;
      next_msg_no = next_number b1.next_msg_no;
    })

-- `readData` of a packet that was not sent before: the block, if there is one.
unfoldable pub read_data : SndBuffer → Option Block × SndBuffer
read_data b =
    if b.curr == b.last
    then (none, b)
    else (get_elem? b.blocks b.curr, record b { curr = next_pos (length b.blocks) b.curr })

-- A step of `m_pFirstBlock`; the other two pointers stay on their blocks.
abbrev pub rotate {ℓ} : {A : Type ℓ} → List A → List A
rotate [] = []
rotate (a ∷ rest) = rest ++ (a ∷ [])

abbrev pub prev_pos : ℕ → ℕ → ℕ
prev_pos size p = if p == 0 then size - 1 else p - 1

unfoldable pub move_first : ℕ → SndBuffer → SndBuffer
move_first zero b = b
move_first (suc n) b = move_first n (record b {
  blocks = rotate b.blocks;
  curr = prev_pos (length b.blocks) b.curr;
  last = prev_pos (length b.blocks) b.last;
})

-- `ackData`
unfoldable pub ack_data : SndBuffer → ℕ → SndBuffer
ack_data b offset = let b1 = move_first offset b in record b1 { count = b1.count - offset }

-- The block so many steps after `p` on a ring of this size.
abbrev pub steps_from : ℕ → ℕ → ℕ → ℕ
steps_from size p zero = p
steps_from size p (suc n) = steps_from size (next_pos size p) n

-- What the other `readData` gives: a packet, or the number of an expired message with the packets
-- that it passed.
pub data Answer : Type 0 where
  packet : Block → Answer
  expired : ℕ → ℕ → Answer

-- The time of life is over; the clock does not go back.
abbrev pub is_expired : Block → ℕ → Bool
is_expired p now = elim p.ttl [ none ↦ false | some ttl ↦ ltb ttl ((now - p.origin_time) / 1000) ]

-- The loop over the other packets of an expired message, from block `p` on: how many there are and
-- where `m_pCurrBlock` is then. On a ring whose blocks all have the number it does not end.
unfoldable pub pass_expired : ℕ → List Block → ℕ → ℕ → Bool → ℕ → Run (ℕ × ℕ)
pass_expired zero blocks msgno p move curr = out_of_fuel
pass_expired (suc fuel) blocks msgno p move curr = elim (get_elem? blocks p) [
  | none ↦ null_dereferenced
  | some block ↦ elim (msgno == block.msg_no % 2 ^ 29) [
    | false ↦ done (0, curr)
    | true ↦
        (let moves = if p == curr then true else move in
          let next = next_pos (length blocks) p in
          pass_expired fuel blocks msgno next moves (if moves then next else curr) >>= λ r.
          done (r.0 + 1, r.1))
  ]
]

-- `readData` of the packet so far after `m_pFirstBlock`, which is sent again.
unfoldable pub read_data_at : ℕ → SndBuffer → ℕ → ℕ → Run (Answer × SndBuffer)
read_data_at fuel b offset now =
    let p = steps_from (length b.blocks) 0 offset in
    elim (get_elem? b.blocks p) [
      | none ↦ null_dereferenced
      | some block ↦ elim (is_expired block now) [
        | false ↦ done (packet block, b)
        | true ↦
            (let msgno = block.msg_no % 2 ^ 29 in
              pass_expired fuel b.blocks msgno (next_pos (length b.blocks) p) false b.curr >>= λ r.
              done (expired msgno (r.0 + 1), record b { curr = r.1 }))
      ]
    ]
