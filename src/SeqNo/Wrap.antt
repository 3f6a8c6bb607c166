-- ===== src/SeqNo/Wrap.antt =====
-- udt4/src/common.h: CSeqNo against counting, across the wrap.
use udt_patch_for_epoll.Prelude.{
  ℕ, zero, suc, ◌-◌, ◌≤◌, ◌<◌, ◌≡◌, ap, ◌∙◌, arith, leb, Bool-cases, inl, inr,
}
use udt_patch_for_epoll.SeqNo.{
  pos, negsuc, seq_no_th, max_seq_no, seqcmp, seqlen, seqoff, incseq, decseq, incseq_by,
}

-- `f` applied `n` times.
abbrev pub iterate : (ℕ → ℕ) → ℕ → ℕ → ℕ
iterate f zero x = x
iterate f (suc n) x = f (iterate f n x)

incseq_by-suc :
    (s k : ℕ) → s ≤ max_seq_no → k < max_seq_no → incseq_by s (suc k) ≡ incseq (incseq_by s k)
unfolding incseq_by incseq
incseq_by-suc s k h b = ground arith

incseq_by_zero : (s : ℕ) → s ≤ max_seq_no → incseq_by s 0 ≡ s
unfolding incseq_by
incseq_by_zero s h = ground arith

-- For a sequence number and an increment up to the maximum, the overload of `incseq` with the
-- increment is `incseq` applied that many times.
pub incseq_by_iterates :
    (s k : ℕ) → s ≤ max_seq_no → k ≤ max_seq_no → incseq_by s k ≡ iterate incseq k s
incseq_by_iterates s zero h b = incseq_by_zero s h
incseq_by_iterates s (suc k) h b =
    incseq_by-suc s k h (omega (arith, b)) ∙ ap incseq (incseq_by_iterates s k h (omega (arith, b)))

-- On the sequence numbers `decseq` undoes `incseq` and `incseq` undoes `decseq`, and both give
-- sequence numbers.
pub decseq-incseq :
    (s : ℕ)
    → s ≤ max_seq_no
    → (decseq (incseq s) ≡ s)
      × (incseq (decseq s) ≡ s)
      × (incseq s ≤ max_seq_no)
      × (decseq s ≤ max_seq_no)
unfolding incseq decseq
decseq-incseq s h = (ground arith, ground arith, ground arith, ground arith)

-- For fewer than `seq_no_th` steps from a sequence number, across the wrap or not: `seqoff` gives the
-- number of steps forward, and its negation the other way round.
pub seqoff-incseq_by :
    (s k : ℕ)
    → s ≤ max_seq_no
    → suc k < seq_no_th
    → (seqoff s (incseq_by s (suc k)) ≡ pos (suc k)) × (seqoff (incseq_by s (suc k)) s ≡ negsuc k)
unfolding seqoff incseq_by
seqoff-incseq_by s k h b = (ground arith, ground arith)

-- `seqlen` counts the sequence numbers from one to another, both included, across the wrap or not.
-- With fewer than the maximum of steps between them the count fits in an `int`.
pub seqlen-incseq_by :
    (s k : ℕ)
    → s ≤ max_seq_no
    → k < max_seq_no
    → (seqlen s (incseq_by s k) ≡ pos (suc k)) × (suc k ≤ max_seq_no)
unfolding seqlen incseq_by
seqlen-incseq_by s k h b = (ground arith, omega (arith, b))

-- For fewer than `seq_no_th` steps from a sequence number, across the wrap or not, `seqcmp` puts the
-- later number after the earlier one: it is positive on them, and the negation the other way round.
pub seqcmp_orders :
    (s k : ℕ)
    → s ≤ max_seq_no
    → suc k < seq_no_th
    → (n : ℕ) × (seqcmp (incseq_by s (suc k)) s ≡ pos (suc n))
      × (seqcmp s (incseq_by s (suc k)) ≡ negsuc n)
unfolding seqcmp incseq_by
seqcmp_orders s k h b = elim (Bool-cases (leb (suc k) (max_seq_no - s))) [
  | inl t ↦ (k, ground arith, ground arith)
  | inr t ↦ (max_seq_no - k - 1, ground arith, ground arith)
]
