-- ===== src/RcvBuffer/Search.antt =====
-- udt4/src/buffer.cpp: how the search of `scanMsg` ends.
use mathlib.Core.Path.{subst}
use udt_patch_for_epoll.Prelude.{
  ℕ, zero, suc, ◌+◌, ◌%◌, ◌<◌, ◌≡◌, refl, sym, ◌∙◌, true, false, ◌&&◌, Option, none, some, arith,
  ◌==◌, Bool-cases, inl, inr,
}
use udt_patch_for_epoll.RcvBuffer.{
  RcvBuffer, done, next_pos, rcv_data_size, Scan, visit, may_read, find_msg, or_part, whole_ring,
  scan_msg,
}
use udt_patch_for_epoll.RcvBuffer.Positions.{dist, next_pos-lt, dist-lt, dist_self, mod_next}
use udt_patch_for_epoll.RcvBuffer.Skip.{
  InRing, Skipped, Skipped-self, Skipped-InRing, skip_bad-Done,
}
use udt_patch_for_epoll.RcvBuffer.Found.{
  RunFrom, Standing, Reads, visit-RunFrom, visit_found, visit_q, visit_passack, may_read_found,
  run-Reads, NotPast, NotPast-before, before_next,
}

-- How the search ends: a message found has its units, up to the position where it ends.
pub record Ended (b : RcvBuffer) (s : Scan) : Type 0 where
  pub inside : s.q < b.size
  pub reads : s.found ≡ true → Reads b s.p (next_pos b.size s.q)
  pub head : s.found ≡ false → RunFrom b s.p s.q
  pub stop : s.passack ≡ false → NotPast b s.q

pub kept_found : (b : RcvBuffer) (s : Scan) → s.found ≡ true → or_part b s ≡ s
kept_found b s t = ground (arith)

pub else_part : (b : RcvBuffer) (s : Scan) → s.found ≡ false → or_part b s ≡ whole_ring b s.p s
else_part b s t = ground (arith)

pub find_msg-Ended :
    (rounds : ℕ) (b : RcvBuffer) (s : Scan)
    → InRing b
    → Standing b s
    → s.found ≡ false
    → Ended b (find_msg rounds b s)
unfolding find_msg
find_msg-Ended zero b s w v f = record {
  inside = v.inside;
  reads = λ e. absurd (ground (arith, e, f));
  head = λ e. v.head;
  stop = λ e. NotPast-before b s.q w v.inside (v.before e);
}
find_msg-Ended (suc rounds) b s w v f =
    let o = b.units s.q in
    let s1 = visit o s in
    let next = next_pos b.size s.q in
    let r = visit-RunFrom b s o refl v in
    elim (Bool-cases (may_read o s1)) [
      | inl t ↦
          (let g = may_read_found o s1 t in
            let e = visit_q o s in
            rw (t, find_msg)
              (record {
                inside = rw e v.inside;
                reads = λ x. rw e (run-Reads b s1.p next (visit_found o s f g) r);
                head = λ x. absurd (ground (arith, x, g));
                stop = λ x.
                    subst (NotPast b) (sym e)
                      (NotPast-before b s.q w v.inside (v.before (sym (visit_passack o s) ∙ x)));
              }))
      | inr t ↦
          rw (t, find_msg)
            (find_msg-Ended rounds b _ w
              (record {
                inside = next_pos-lt b.size s.q v.inside;
                head = r;
                before = λ x.
                    before_next b s.q s1.passack w v.inside
                      (λ y. v.before (sym (visit_passack o s) ∙ y)) x;
              })
              refl)
    ]

pub whole_ring-Ended :
    (b : RcvBuffer) (p : Option ℕ) (s : Scan)
    → s.p ≡ p
    → s.found ≡ false
    → Ended b s
    → Ended b (whole_ring b p s)
whole_ring-Ended b none s e f v = v
whole_ring-Ended b (some p) s e f v = elim (Bool-cases ((s.q + 1) % b.size == p)) [
  | inr t ↦ rw t v
  | inl t ↦
      (let h : RunFrom b (some p) s.q = subst (λ (o : Option ℕ). RunFrom b o s.q) e (v.head f) in
        let c : next_pos b.size s.q ≡ p = ground (arith, mod_next b.size s.q v.inside, t) in
        rw t (record {
          inside = v.inside;
          reads = λ x. rw (e, c) (h.0, λ j m d. absurd (ground (arith, d, dist_self b.size p)));
          head = λ x. absurd (cc);
          stop = v.stop;
        }))
]

pub or_part-Ended : (b : RcvBuffer) (s : Scan) → Ended b s → Ended b (or_part b s)
or_part-Ended b s v = elim (Bool-cases s.found) [
  | inl t ↦ subst (Ended b) (sym (kept_found b s t)) v
  | inr t ↦ subst (Ended b) (sym (else_part b s t)) (whole_ring-Ended b s.p s refl t v)
]

before_start :
    (b : RcvBuffer)
    → InRing b
    → (b.start_pos == b.last_ack_pos) ≡ false
    → dist b.size b.start_pos b.start_pos < dist b.size b.start_pos b.last_ack_pos
before_start b v e = ground (arith, e, v.start, v.last_ack)

-- `scanMsg` comes back. It moves the start only, and a message that it found has its units.
pub record Scanned (b : RcvBuffer) (s : Scan) (b1 : RcvBuffer) : Type 0 where
  pub kept : Skipped b b1
  pub reads : s.found ≡ true → (s.q < b1.size) × Reads b1 s.p (next_pos b1.size s.q)
  pub stop : s.found ≡ true → s.passack ≡ false → NotPast b1 s.q

pub scan_msg-Scanned :
    (b : RcvBuffer)
    → InRing b
    → (s : Scan) × (b1 : RcvBuffer) × (scan_msg b ≡ done (s, b1)) × Scanned b s b1
unfolding scan_msg
scan_msg-Scanned b v = elim (Bool-cases (b.start_pos == b.last_ack_pos && b.max_pos == 0)) [
  | inl t ↦
      rw (t, scan_msg)
        (
          _,
          b,
          refl,
          record {
            kept = Skipped-self b v.start;
            reads = λ x. absurd (cc);
            stop = λ x. absurd (cc);
          },
        )
  | inr t ↦
      (let (b1, r, k) =
          skip_bad-Done (b.size + 1) b v
            (omega (arith, dist-lt b.size b.start_pos b.last_ack_pos v.start v.last_ack)) in
        let s : Scan = record {
          p = none;
          q = b1.start_pos;
          passack = b1.start_pos == b1.last_ack_pos;
          found = false;
        } in
        let w = or_part-Ended b1 _ (
          find_msg-Ended (b1.max_pos + rcv_data_size b1 + 1) b1 s (Skipped-InRing b b1 v k)
            (record {
              inside = k.start;
              head = tt;
              before = λ x. before_start b1 (Skipped-InRing b b1 v k) x;
            })
            refl) in
        rw (t, scan_msg, r)
          (
            _,
            b1,
            refl,
            record { kept = k; reads = λ x. (w.inside, w.reads x); stop = λ x. w.stop },
          ))
]
