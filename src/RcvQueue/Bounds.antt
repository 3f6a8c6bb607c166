-- ===== src/RcvQueue/Bounds.antt =====
-- udt4/src/queue.cpp: how many packets `CRcvQueue` keeps for a socket, and what it gives.
use udt_patch_for_epoll.Prelude.{
  ℕ, ◌≤◌, ◌<◌, ◌≡◌, refl, sym, ap, ◌∙◌, Bool, true, false, Option, none, some, List, [], ◌∷◌, ◌++◌,
  ◌==◌, ltb, if◌then◌else◌, length, length-append, arith, Bool-cases, inl, inr,
}
use udt_patch_for_epoll.Std.Map.{lookup, insert, erase, lookup-insert, lookup-erase}
use udt_patch_for_epoll.RcvQueue.{
  Packet, RcvQueue, new_queue, remove_connector, store_behind, store_pkt, take_front, take_pkt,
}
use udt_patch_for_epoll.RcvQueue.Buffers.{
  or_empty, queue_of, IsFilled, IsValid, reply, Call, stored, asked, disconnected, call, own_calls,
  calls, call-queue_of, taken-reply,
}

conditional-IsFilled :
    (b : Bool) (o p r : Option (List Packet))
    → r ≡ (if b then o else p)
    → IsFilled o
    → IsFilled p
    → IsFilled r
conditional-IsFilled true o p r e f g ps z = f ps (sym e ∙ z)
conditional-IsFilled false o p r e f g ps z = g ps (sym e ∙ z)

none-IsFilled : IsFilled none
none-IsFilled ps z = absurd (grind (arith, z))

some-IsFilled : (ps : List Packet) → 0 < length ps → length ps ≤ 17 → IsFilled (some ps)
some-IsFilled ps h k qs z = grind (arith, h, k, z)

insert-IsFilled :
    (q : RcvQueue) (id : ℕ) (ps : List Packet)
    → IsValid q
    → 0 < length ps
    → length ps ≤ 17
    → (w : ℕ) → IsFilled (lookup w (insert id ps q.buffer))
insert-IsFilled q id ps v h k w =
    conditional-IsFilled (id == w) (some ps) (lookup w q.buffer) (lookup w (insert id ps q.buffer))
      (lookup-insert w id ps q.buffer) (some-IsFilled ps h k) (v w)

erase-IsFilled :
    (q : RcvQueue) (id : ℕ) → IsValid q → (w : ℕ) → IsFilled (lookup w (erase id q.buffer))
erase-IsFilled q id v w =
    conditional-IsFilled (id == w) none (lookup w q.buffer) (lookup w (erase id q.buffer))
      (lookup-erase w id q.buffer) none-IsFilled (v w)

stored-IsValid :
    (q : RcvQueue) (id : ℕ) (p : Packet) (o : Option (List Packet))
    → IsValid q
    → IsValid (store_behind q id p o)
stored-IsValid q id p none v = insert-IsFilled q id (p ∷ []) v (omega arith) (omega arith)
stored-IsValid q id p (some ps) v = elim (Bool-cases (ltb 16 (length ps))) [
  | inl z ↦ rw (z) v
  | inr z ↦ rw (z) (
      insert-IsFilled q id (ps ++ (p ∷ [])) v (omega (arith, length-append ps (p ∷ [])))
        (ground (arith, z, length-append ps (p ∷ []))))
]

taken-IsValid :
    (q : RcvQueue) (id room : ℕ) (o : Option (List Packet))
    → IsValid q
    → IsFilled o
    → IsValid (take_front q id room o).1
taken-IsValid q id room none v f = v
taken-IsValid q id room (some []) v f = v
taken-IsValid q id room (some (p ∷ [])) v f = elim (Bool-cases (ltb room (length p.bytes))) [
  | inl z ↦ rw (z) v
  | inr z ↦ rw (z) (erase-IsFilled q id v)
]
taken-IsValid q id room (some (p ∷ r ∷ ps)) v f = elim (Bool-cases (ltb room (length p.bytes))) [
  | inl z ↦ rw (z) v
  | inr z ↦
      rw (z)
        (insert-IsFilled q id (r ∷ ps) v (omega arith) (omega (arith, (f (p ∷ r ∷ ps) refl).1)))
]

call-IsValid : (q : RcvQueue) (c : Call) → IsValid q → IsValid (call q c)
unfolding store_pkt take_pkt remove_connector
call-IsValid q (stored id p) v = stored-IsValid q id p (lookup id q.buffer) v
call-IsValid q (asked id room) v = taken-IsValid q id room (lookup id q.buffer) v (v id)
call-IsValid q (disconnected id) v = erase-IsFilled q id v

calls_keep :
    (q : RcvQueue) (cs : List Call)
    → IsValid q
    → IsValid (calls q cs) × ((w : ℕ) → queue_of (calls q cs) w ≡ own_calls w (queue_of q w) cs)
unfolding calls own_calls
calls_keep q [] v = (v, λ w. refl)
calls_keep q (c ∷ cs) v =
    let kept = calls_keep (call q c) cs (call-IsValid q c v) in
    (kept.0, λ w. kept.1 w ∙ ap (λ ps. own_calls w ps cs) (call-queue_of q c w))

new_queue-IsValid : IsValid new_queue
unfolding lookup
new_queue-IsValid w = none-IsFilled

filled-bound : (o : Option (List Packet)) → IsFilled o → length (or_empty o) ≤ 17
filled-bound none f = omega arith
filled-bound (some ps) f = (f ps refl).1

-- After any calls of `storePkt`, `recvfrom` and `removeConnector` a socket has the packets that its own
-- calls leave in a queue that drops what comes when it has more than 16, and they are at most 17; the
-- next `recvfrom` gives the oldest, or -1 if there is none or it does not fit, and never looks at the
-- front of an empty queue.
pub take_pkt-calls :
    (cs : List Call) (w room : ℕ)
    → let q = calls new_queue cs in
      (queue_of q w ≡ own_calls w [] cs)
      × (length (queue_of q w) ≤ 17)
      × ((take_pkt q w room).0 ≡ reply room (own_calls w [] cs))
unfolding take_pkt lookup
take_pkt-calls cs w room =
    let kept = calls_keep new_queue cs new_queue-IsValid in
    let q = calls new_queue cs in
    (
      kept.1 w,
      filled-bound (lookup w q.buffer) (kept.0 w),
      taken-reply q w room (lookup w q.buffer) (kept.0 w) ∙ ap (reply room) (kept.1 w),
    )
