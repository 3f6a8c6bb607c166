-- ===== src/SeqNo.antt =====
-- udt4/src/common.h: the numbers of packets, acknowledgements and messages, which wrap around
-- (CSeqNo, CAckNo, CMsgNo; their constants are set in udt4/src/core.cpp). A number is a natural
-- number up to the class's maximum; a difference of two is an integer, exact as long as it fits in
-- an `int`. Sums and differences are written in an order in which they stay natural numbers.
pub mod Wrap
pub mod Msg
mod Tests
use udt_patch_for_epoll.Prelude.{
  ℕ, ◌+◌, ◌-◌, ◌*◌, ◌^◌, Bool, true, false, ◌==◌, ltb, leb, if◌then◌else◌,
}

-- `negsuc n` is -(n + 1).
pub data ℤ : Type 0 where
  pos : ℕ → ℤ
  negsuc : ℕ → ℤ

-- a - b
abbrev pub minus : ℕ → ℕ → ℤ
minus a b = if leb b a then pos (a - b) else negsuc (b - a - 1)

-- `abs(a - b)`
abbrev pub distance : ℕ → ℕ → ℕ
distance a b = (a - b) + (b - a)

-- `m_iSeqNoTH`, 0x3FFFFFFF
abbrev pub seq_no_th : ℕ
seq_no_th = 2 ^ 30 - 1

-- `m_iMaxSeqNo` and `m_iMaxAckSeqNo`, 0x7FFFFFFF
abbrev pub max_seq_no : ℕ
max_seq_no = 2 ^ 31 - 1

abbrev pub max_ack_seq_no : ℕ
max_ack_seq_no = 2 ^ 31 - 1

-- `m_iMsgNoTH`, 0xFFFFFFF, and `m_iMaxMsgNo`, 0x1FFFFFFF
abbrev pub msg_no_th : ℕ
msg_no_th = 2 ^ 28 - 1

abbrev pub max_msg_no : ℕ
max_msg_no = 2 ^ 29 - 1

unfoldable pub seqcmp : ℕ → ℕ → ℤ
seqcmp seq1 seq2 = if ltb (distance seq1 seq2) seq_no_th then minus seq1 seq2 else minus seq2 seq1

unfoldable pub seqlen : ℕ → ℕ → ℤ
seqlen seq1 seq2 =
    if leb seq1 seq2 then minus (seq2 + 1) seq1 else minus (seq2 + max_seq_no + 2) seq1

unfoldable pub seqoff : ℕ → ℕ → ℤ
seqoff seq1 seq2 =
    if ltb (distance seq1 seq2) seq_no_th
    then minus seq2 seq1
    else if ltb seq1 seq2
    then minus seq2 (seq1 + max_seq_no + 1)
    else minus (seq2 + max_seq_no + 1) seq1

unfoldable pub incseq : ℕ → ℕ
incseq seq = if seq == max_seq_no then 0 else seq + 1

unfoldable pub decseq : ℕ → ℕ
decseq seq = if seq == 0 then max_seq_no else seq - 1

-- The overload of `incseq` with an increment.
unfoldable pub incseq_by : ℕ → ℕ → ℕ
incseq_by seq inc = if leb inc (max_seq_no - seq) then seq + inc else seq + inc - max_seq_no - 1

unfoldable pub incack : ℕ → ℕ
incack ackno = if ackno == max_ack_seq_no then 0 else ackno + 1

unfoldable pub msgcmp : ℕ → ℕ → ℤ
msgcmp msgno1 msgno2 =
    if ltb (distance msgno1 msgno2) msg_no_th then minus msgno1 msgno2 else minus msgno2 msgno1

unfoldable pub msglen : ℕ → ℕ → ℤ
msglen msgno1 msgno2 =
    if leb msgno1 msgno2 then minus (msgno2 + 1) msgno1 else minus (msgno2 + max_msg_no + 2) msgno1

unfoldable pub msgoff : ℕ → ℕ → ℤ
msgoff msgno1 msgno2 =
    if ltb (distance msgno1 msgno2) msg_no_th
    then minus msgno2 msgno1
    else if ltb msgno1 msgno2
    then minus msgno2 (msgno1 + max_msg_no + 1)
    else minus (msgno2 + max_msg_no + 1) msgno1

unfoldable pub incmsg : ℕ → ℕ
incmsg msgno = if msgno == max_msg_no then 0 else msgno + 1
