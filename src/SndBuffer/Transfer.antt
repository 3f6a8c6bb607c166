-- ===== src/SndBuffer/Transfer.antt =====
-- udt4/src/buffer.cpp and packet.cpp: a message from the send buffer to the receive buffer.
use udt_patch_for_epoll.Prelude.{
  ℕ, zero, suc, ◌+◌, ◌^◌, ◌<◌, ◌≡◌, refl, ap, Bool, true, false, Option, List, [], ◌∷◌, ◌++◌, map,
  arith, ◌==◌, if◌then◌else◌, length,
}
use udt_patch_for_epoll.SendMsgBuf.{Bytes}
use udt_patch_for_epoll.RcvBuffer.{RcvUnit, msg_boundary}
use udt_patch_for_epoll.RcvBuffer.Message.{IsMessage, IsTail, payloads}
use udt_patch_for_epoll.SndBuffer.{Block, packets_of, msg_word, packet_of}
use udt_patch_for_epoll.SndBuffer.Chunks.{segment, bytes_of}

-- The packet of a block as it stands in the receiver's unit.
abbrev pub received : Block → RcvUnit
received b = record { payload = b.payload; msg_no = b.msg_no; flag = 1 }

pub payloads-received : (blocks : List Block) → payloads (map received blocks) ≡ bytes_of blocks
payloads-received [] = refl
payloads-received (b ∷ blocks) = ap (λ (xs : Bytes). b.payload ++ xs) (payloads-received blocks)

low_bits : (next : ℕ) (order : Bool) → next < 2 ^ 29 → next + (if order then 2 ^ 29 else 0) < 2 ^ 30
low_bits next true h = omega (arith, h)
low_bits next false h = omega (arith, h)

module _ (mss next : ℕ) (bytes : Bytes) (ttl : Option ℕ) (order : Bool) (now : ℕ)
    (h : next < 2 ^ 29) where
  abbrev packet : ℕ → Block
  packet i = packet_of mss next bytes ttl order now i

  abbrev place : ℕ → ℕ
  place i = msg_boundary (received (packet i))

  place_word :
      (i : ℕ) (first last : Bool)
      → (i == 0) ≡ first
      → (i + 1 == packets_of (length bytes) mss) ≡ last
      → place i ≡ (if first then 2 else 0) + (if last then 1 else 0)
  unfolding msg_boundary msg_word
  place_word i true true e k = rw (e, k) (omega (arith, low_bits next order h))
  place_word i true false e k = rw (e, k) (omega (arith, low_bits next order h))
  place_word i false true e k = rw (e, k) (omega (arith, low_bits next order h))
  place_word i false false e k = rw (e, k) (omega (arith, low_bits next order h))

  rest_IsTail :
      (i m : ℕ)
      → i + suc (suc m) ≡ packets_of (length bytes) mss
      → IsTail (map received (segment packet (i + 1) (suc m)))
  rest_IsTail i zero e = (refl, place_word (i + 1) false true (ground arith) (ground (arith, e)))
  rest_IsTail i (suc m) e = (
    refl,
    place_word (i + 1) false false (ground arith) (ground (arith, e)),
    rest_IsTail (i + 1) m (omega (arith, e)),
  )

  -- The packets of data that is not empty are a whole message for the receiver.
  pub packets-IsMessage :
      (n : ℕ)
      → suc n ≡ packets_of (length bytes) mss
      → IsMessage (map received (segment packet 0 (suc n)))
  packets-IsMessage zero e = (refl, place_word 0 true true refl (ground (arith, e)))
  packets-IsMessage (suc m) e =
      (refl, place_word 0 true false refl (ground (arith, e)), rest_IsTail 0 m (omega (arith, e)))
