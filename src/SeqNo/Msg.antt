-- ===== src/SeqNo/Msg.antt =====
-- udt4/src/common.h: CMsgNo against counting, across the wrap.
use udt_patch_for_epoll.Prelude.{
  ℕ, zero, suc, ◌+◌, ◌-◌, ◌≤◌, ◌<◌, ◌≡◌, ap, ◌∙◌, arith, leb, if◌then◌else◌,
}
use udt_patch_for_epoll.SeqNo.{pos, negsuc, msg_no_th, max_msg_no, msglen, msgoff, incmsg}
use udt_patch_for_epoll.SeqNo.Wrap.{iterate}

-- Where a number of steps leads.
abbrev msg_after : ℕ → ℕ → ℕ
msg_after m k = if leb k (max_msg_no - m) then m + k else m + k - max_msg_no - 1

msg_after-suc :
    (m k : ℕ) → m ≤ max_msg_no → k < max_msg_no → incmsg (msg_after m k) ≡ msg_after m (suc k)
unfolding incmsg
msg_after-suc m k h b = ground arith

iterate-incmsg : (m k : ℕ) → m ≤ max_msg_no → k ≤ max_msg_no → iterate incmsg k m ≡ msg_after m k
iterate-incmsg m zero h b = ground arith
iterate-incmsg m (suc k) h b =
    ap incmsg (iterate-incmsg m k h (omega (arith, b))) ∙ msg_after-suc m k h (omega (arith, b))

msgoff-msg_after :
    (m k : ℕ)
    → m ≤ max_msg_no
    → suc k < msg_no_th
    → (msgoff m (msg_after m (suc k)) ≡ pos (suc k)) × (msgoff (msg_after m (suc k)) m ≡ negsuc k)
unfolding msgoff
msgoff-msg_after m k h b = (ground arith, ground arith)

msglen-msg_after :
    (m k : ℕ) → m ≤ max_msg_no → k ≤ max_msg_no → msglen m (msg_after m k) ≡ pos (suc k)
unfolding msglen
msglen-msg_after m k h b = ground arith

-- After fewer than `msg_no_th` steps of `incmsg` from a message number, across the wrap or not,
-- `msgoff` gives the number of steps, its negation the other way round, and `msglen` counts the
-- numbers passed, both ends included.
pub msgoff-iterate :
    (m k : ℕ)
    → m ≤ max_msg_no
    → suc k < msg_no_th
    → (msgoff m (iterate incmsg (suc k) m) ≡ pos (suc k))
      × (msgoff (iterate incmsg (suc k) m) m ≡ negsuc k)
      × (msglen m (iterate incmsg (suc k) m) ≡ pos (suc (suc k)))
msgoff-iterate m k h b =
    let (p, q) = msgoff-msg_after m k h b in
    let e = iterate-incmsg m (suc k) h (omega (arith, b)) in
    (
      ap (msgoff m) e ∙ p,
      ap (λ (x : ℕ). msgoff x m) e ∙ q,
      ap (msglen m) e ∙ msglen-msg_after m (suc k) h (omega (arith, b)),
    )
