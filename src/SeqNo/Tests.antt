-- ===== src/SeqNo/Tests.antt =====
-- Sequence numbers at the wrap, and their theorems there.
use udt_patch_for_epoll.Prelude.{suc, ◌≡◌, refl, arith}
use udt_patch_for_epoll.SeqNo.{pos, negsuc, max_seq_no, seqlen, seqoff, incseq_by}
use udt_patch_for_epoll.SeqNo.Wrap.{seqoff-incseq_by}

-- The one count that does not fit: all the numbers, from 1 round to 0.
whole_circle : seqlen 1 0 ≡ pos (suc max_seq_no)
unfolding seqlen
whole_circle = refl

seqoff-incseq_by_example :
    (seqoff max_seq_no (incseq_by max_seq_no 3) ≡ pos 3)
    × (seqoff (incseq_by max_seq_no 3) max_seq_no ≡ negsuc 2)
seqoff-incseq_by_example = seqoff-incseq_by max_seq_no 2 (omega arith) (omega arith)
