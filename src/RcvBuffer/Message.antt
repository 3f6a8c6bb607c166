-- ===== src/RcvBuffer/Message.antt =====
-- udt4/src/buffer.cpp: `readMsg` when a whole acknowledged message stands at the start of the ring.
use udt_patch_for_epoll.Prelude.{
  ℕ, zero, suc, ◌+◌, ◌<◌, ◌≤◌, ◌≡◌, refl, ◌∙◌, true, false, List, [], ◌∷◌, ◌++◌, Option, none, some,
  arith, ◌==◌, length,
}
use udt_patch_for_epoll.SendMsgBuf.{Bytes}
use udt_patch_for_epoll.RcvBuffer.{
  RcvUnit, RcvBuffer, done, next_pos, release, msg_boundary, ends_msg, starts_msg, is_some,
  look_ahead, whole_msg, skip_bad, Scan, visit, find_msg,
}
use udt_patch_for_epoll.RcvBuffer.Positions.{dist, next_pos-lt, dist-lt, dist_step}
use udt_patch_for_epoll.RcvBuffer.Skip.{InRing}

-- These units stand one after the other from position `q` of an array of this size on.
abbrev pub Stands : (ℕ → Option RcvUnit) → ℕ → ℕ → List RcvUnit → Type 0
Stands units size q [] = Unit
Stands units size q (u ∷ us) = (units q ≡ some u) × Stands units size (next_pos size q) us

abbrev pub Holds : RcvBuffer → ℕ → List RcvUnit → Type 0
Holds b q us = Stands b.units b.size q us

-- The rest of a message after its first packet.
abbrev pub IsTail : List RcvUnit → Type 0
IsTail [] = ⊥
IsTail (u ∷ []) = (u.flag ≡ 1) × (msg_boundary u ≡ 1)
IsTail (u ∷ us) = (u.flag ≡ 1) × (msg_boundary u ≡ 0) × IsTail us

-- The packets of a whole message, none of which was read or dropped.
abbrev pub IsMessage : List RcvUnit → Type 0
IsMessage [] = ⊥
IsMessage (u ∷ []) = (u.flag ≡ 1) × (msg_boundary u ≡ 3)
IsMessage (u ∷ us) = (u.flag ≡ 1) × (msg_boundary u ≡ 2) × IsTail us

abbrev pub payloads : List RcvUnit → Bytes
payloads [] = []
payloads (u ∷ us) = u.payload ++ payloads us

-- The position of the last of the units, and the one after it.
abbrev pub last_pos : ℕ → ℕ → List RcvUnit → ℕ
last_pos size q [] = q
last_pos size q (u ∷ []) = q
last_pos size q (u ∷ us) = last_pos size (next_pos size q) us

abbrev pub pos_after : ℕ → ℕ → List RcvUnit → ℕ
pos_after size q [] = q
pos_after size q (u ∷ us) = pos_after size (next_pos size q) us

-- The buffer after these units went back to the unit queue.
abbrev pub released : RcvBuffer → ℕ → List RcvUnit → RcvBuffer
released b q [] = b
released b q (u ∷ us) = released (release b q) (next_pos b.size q) us

unread : (u : RcvUnit) → u.flag ≡ 1 → (u.flag == 1) ≡ true
unread u g = ground arith

ends_msg_one : (u : RcvUnit) → msg_boundary u ≡ 1 → ends_msg u ≡ true
ends_msg_one u x = ground arith

ends_msg_three : (u : RcvUnit) → msg_boundary u ≡ 3 → ends_msg u ≡ true
ends_msg_three u x = ground arith

ends_msg_zero : (u : RcvUnit) → msg_boundary u ≡ 0 → ends_msg u ≡ false
ends_msg_zero u x = ground arith

ends_msg_two : (u : RcvUnit) → msg_boundary u ≡ 2 → ends_msg u ≡ false
ends_msg_two u x = ground arith

look_ahead-tail :
    (fuel : ℕ) (b : RcvBuffer) (q : ℕ) (us : List RcvUnit)
    → q < b.size
    → b.last_ack_pos < b.size
    → Holds b q us
    → IsTail us
    → length us ≤ dist b.size q b.last_ack_pos
    → length us < fuel
    → look_ahead fuel b q ≡ done true
unfolding look_ahead
look_ahead-tail zero b q us h k hs t d f = absurd (omega arith)
look_ahead-tail (suc fuel) b q [] h k hs t d f = absurd t
look_ahead-tail (suc fuel) b q (u ∷ []) h k (e, hs) (g, x) d f =
    rw ((dist_step b.size q b.last_ack_pos 0 h k d).0, look_ahead, e, unread u g, ends_msg_one u x)
look_ahead-tail (suc fuel) b q (u ∷ v ∷ us) h k (e, hs) (g, x, t) d f =
    let step = dist_step b.size q b.last_ack_pos (length (v ∷ us)) h k d in
    rw (step.0, look_ahead, e, unread u g, ends_msg_zero u x)
      (look_ahead-tail fuel b (next_pos b.size q) (v ∷ us) (next_pos-lt b.size q h) k hs t step.1
        (omega (arith, f)))

look_ahead-message :
    (fuel : ℕ) (b : RcvBuffer) (q : ℕ) (us : List RcvUnit)
    → q < b.size
    → b.last_ack_pos < b.size
    → Holds b q us
    → IsMessage us
    → length us ≤ dist b.size q b.last_ack_pos
    → length us < fuel
    → look_ahead fuel b q ≡ done true
unfolding look_ahead
look_ahead-message zero b q us h k hs m d f = absurd (omega arith)
look_ahead-message (suc fuel) b q [] h k hs m d f = absurd m
look_ahead-message (suc fuel) b q (u ∷ []) h k (e, hs) (g, x) d f =
    rw
      ((dist_step b.size q b.last_ack_pos 0 h k d).0, look_ahead, e, unread u g, ends_msg_three u x)
look_ahead-message (suc fuel) b q (u ∷ v ∷ us) h k (e, hs) (g, x, t) d f =
    let step = dist_step b.size q b.last_ack_pos (length (v ∷ us)) h k d in
    rw (step.0, look_ahead, e, unread u g, ends_msg_two u x)
      (look_ahead-tail fuel b (next_pos b.size q) (v ∷ us) (next_pos-lt b.size q h) k hs t step.1
        (omega (arith, f)))

pub starts_msg-message :
    (u : RcvUnit) (us : List RcvUnit) → IsMessage (u ∷ us) → starts_msg u ≡ true
starts_msg-message u [] (g, x) = rw (x, g)
starts_msg-message u (v ∷ us) (g, x, t) = rw (x, g)

-- The first packet of a whole message ends the skipping.
pub skip_bad-message :
    (fuel : ℕ) (b : RcvBuffer) (u : RcvUnit) (us : List RcvUnit)
    → InRing b
    → Holds b b.start_pos (u ∷ us)
    → IsMessage (u ∷ us)
    → length (u ∷ us) ≤ dist b.size b.start_pos b.last_ack_pos
    → skip_bad (suc fuel) b ≡ done b
unfolding skip_bad whole_msg
skip_bad-message fuel b u us v hs m d =
    let step = dist_step b.size b.start_pos b.last_ack_pos (length us) v.start v.last_ack d in
    let l =
      look_ahead-message (b.size + 1) b b.start_pos (u ∷ us) v.start v.last_ack hs m d
        (omega (arith, d, dist-lt b.size b.start_pos b.last_ack_pos v.start v.last_ack)) in
    rw (step.0, skip_bad, hs.0, whole_msg, starts_msg-message u us m, l)

visit_only :
    (u : RcvUnit) (s : Scan)
    → u.flag ≡ 1
    → msg_boundary u ≡ 3
    → visit (some u) s ≡ record s { p = some s.q; found = true }
unfolding visit
visit_only u s g x = ground arith

visit_first :
    (u : RcvUnit) (s : Scan)
    → u.flag ≡ 1
    → msg_boundary u ≡ 2
    → visit (some u) s ≡ record s { p = some s.q }
unfolding visit
visit_first u s g x = ground arith

visit_middle : (u : RcvUnit) (s : Scan) → u.flag ≡ 1 → msg_boundary u ≡ 0 → visit (some u) s ≡ s
unfolding visit
visit_middle u s g x = ground arith

visit_last :
    (u : RcvUnit) (s : Scan)
    → u.flag ≡ 1
    → msg_boundary u ≡ 1
    → visit (some u) s ≡ record s { found = is_some s.p }
unfolding visit
visit_last u s g x = ground arith

abbrev searching : Option ℕ → ℕ → Scan
searching p q = record { p = p; q = q; passack = false; found = false }

-- The search goes on after a packet within an acknowledged message.
find_msg-step :
    (rounds : ℕ) (b : RcvBuffer) (p p' : Option ℕ) (q : ℕ) (u : RcvUnit)
    → b.units q ≡ some u
    → visit (some u) (searching p q) ≡ searching p' q
    → (next_pos b.size q == b.last_ack_pos) ≡ false
    → find_msg (suc rounds) b (searching p q) ≡ find_msg rounds b (searching p' (next_pos b.size q))
unfolding find_msg
find_msg-step rounds b p p' q u e w n = rw (find_msg, e, w, n) (rw (e, w) refl)

find_msg-stop :
    (rounds : ℕ) (b : RcvBuffer) (p : Option ℕ) (h q : ℕ) (u : RcvUnit)
    → b.units q ≡ some u
    → visit (some u) (searching p q) ≡ record { p = some h; q = q; passack = false; found = true }
    → find_msg (suc rounds) b (searching p q)
      ≡ record { p = some h; q = q; passack = false; found = true }
unfolding find_msg
find_msg-stop rounds b p h q u e w = rw (find_msg, e, w) (rw (e, w) refl)

-- A search that has passed the head of a message and stands in it finds its end.
find_msg-tail :
    (rounds : ℕ) (b : RcvBuffer) (p : ℕ) (q : ℕ) (us : List RcvUnit)
    → q < b.size
    → b.last_ack_pos < b.size
    → Holds b q us
    → IsTail us
    → length us ≤ dist b.size q b.last_ack_pos
    → length us ≤ rounds
    → find_msg rounds b (searching (some p) q)
      ≡ record { p = some p; q = last_pos b.size q us; passack = false; found = true }
find_msg-tail rounds b p q [] h k hs t d f = absurd t
find_msg-tail zero b p q (u ∷ us) h k hs t d f = absurd (omega (arith, f))
find_msg-tail (suc rounds) b p q (u ∷ []) h k (e, hs) (g, x) d f =
    find_msg-stop rounds b (some p) p q u e (visit_last u (searching (some p) q) g x)
find_msg-tail (suc rounds) b p q (u ∷ v ∷ us) h k (e, hs) (g, x, t) d f =
    let next = next_pos b.size q in
    let step = dist_step b.size q b.last_ack_pos (length (v ∷ us)) h k d in
    let n = next_pos-lt b.size q h in
    find_msg-step rounds b (some p) (some p) q u e (visit_middle u (searching (some p) q) g x)
      (dist_step b.size next b.last_ack_pos (length us) n k step.1).0
    ∙ find_msg-tail rounds b p next (v ∷ us) n k hs t step.1 (omega (arith, f))

pub find_msg-message :
    (rounds : ℕ) (b : RcvBuffer) (q : ℕ) (us : List RcvUnit)
    → q < b.size
    → b.last_ack_pos < b.size
    → Holds b q us
    → IsMessage us
    → length us ≤ dist b.size q b.last_ack_pos
    → length us ≤ rounds
    → find_msg rounds b (searching none q)
      ≡ record { p = some q; q = last_pos b.size q us; passack = false; found = true }
find_msg-message rounds b q [] h k hs m d f = absurd m
find_msg-message zero b q (u ∷ us) h k hs m d f = absurd (omega (arith, f))
find_msg-message (suc rounds) b q (u ∷ []) h k (e, hs) (g, x) d f =
    find_msg-stop rounds b none q q u e (visit_only u (searching none q) g x)
find_msg-message (suc rounds) b q (u ∷ v ∷ us) h k (e, hs) (g, x, t) d f =
    let next = next_pos b.size q in
    let step = dist_step b.size q b.last_ack_pos (length (v ∷ us)) h k d in
    let n = next_pos-lt b.size q h in
    find_msg-step rounds b none (some q) q u e (visit_first u (searching none q) g x)
      (dist_step b.size next b.last_ack_pos (length us) n k step.1).0
    ∙ find_msg-tail rounds b q next (v ∷ us) n k hs t step.1 (omega (arith, f))
