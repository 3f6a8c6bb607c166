-- ===== src/RcvQueue/Buffers.antt =====
-- udt4/src/queue.cpp: the packets that `CRcvQueue` keeps, against one queue for each socket.
use udt_patch_for_epoll.Prelude.{
  ℕ, ◌≤◌, ◌<◌, ◌≡◌, refl, sym, ap, ◌∙◌, Option, none, some, List, [], ◌∷◌, ◌++◌, ◌==◌, ltb,
  if◌then◌else◌, length, arith, Bool-cases, inl, inr,
}
use udt_patch_for_epoll.Std.Map.{lookup, insert, erase, lookup-insert, lookup-erase}
use udt_patch_for_epoll.RcvQueue.{
  Packet, RcvQueue, remove_connector, store_behind, store_pkt, Reply, received, refused, left,
  take_front, take_pkt,
}

abbrev pub or_empty : Option (List Packet) → List Packet
or_empty none = []
or_empty (some ps) = ps

abbrev pub queue_of : RcvQueue → ℕ → List Packet
queue_of q id = or_empty (lookup id q.buffer)

-- A socket that is in the map has a packet, and no more than 17.
abbrev pub IsFilled : Option (List Packet) → Type 0
IsFilled o = (ps : List Packet) → o ≡ some ps → (0 < length ps) × (length ps ≤ 17)

abbrev pub IsValid : RcvQueue → Type 0
IsValid q = (id : ℕ) → IsFilled (lookup id q.buffer)

-- The calls on a queue of packets of one socket's own.
abbrev pub behind : Packet → List Packet → List Packet
behind p ps = if ltb 16 (length ps) then ps else ps ++ (p ∷ [])

abbrev pub taken : ℕ → List Packet → List Packet
taken room [] = []
taken room (p ∷ ps) = if ltb room (length p.bytes) then p ∷ ps else ps

abbrev pub reply : ℕ → List Packet → Reply
reply room [] = refused
reply room (p ∷ ps) = if ltb room (length p.bytes) then refused else received p

pub data Call : Type 0 where
  stored : ℕ → Packet → Call
  asked : ℕ → ℕ → Call
  disconnected : ℕ → Call

abbrev pub call : RcvQueue → Call → RcvQueue
call q (stored id p) = store_pkt q id p
call q (asked id room) = (take_pkt q id room).1
call q (disconnected id) = remove_connector q id

abbrev pub own_call : ℕ → List Packet → Call → List Packet
own_call w ps (stored id p) = if id == w then behind p ps else ps
own_call w ps (asked id room) = if id == w then taken room ps else ps
own_call w ps (disconnected id) = if id == w then [] else ps

unfoldable pub calls : RcvQueue → List Call → RcvQueue
calls q [] = q
calls q (c ∷ cs) = calls (call q c) cs

unfoldable pub own_calls : ℕ → List Packet → List Call → List Packet
own_calls w ps [] = ps
own_calls w ps (c ∷ cs) = own_calls w (own_call w ps c) cs

-- The entry of `w` after a call, given the entry of the call's socket and its own.
inserted_entry :
    (q : RcvQueue) (id w : ℕ) (ps : List Packet)
    → or_empty (lookup w (insert id ps q.buffer)) ≡ (if id == w then ps else queue_of q w)
inserted_entry q id w ps = grind (arith, lookup-insert w id ps q.buffer)

erased_entry :
    (q : RcvQueue) (id w : ℕ)
    → or_empty (lookup w (erase id q.buffer)) ≡ (if id == w then [] else queue_of q w)
erased_entry q id w = grind (arith, lookup-erase w id q.buffer)

at_own :
    (id w : ℕ) (f : List Packet → List Packet) (g : ℕ → List Packet)
    → (if id == w then f (g id) else g w) ≡ (if id == w then f (g w) else g w)
at_own id w f g = grind arith

kept_at :
    (id w : ℕ) (f : List Packet → List Packet) (g : ℕ → List Packet)
    → g id ≡ f (g id)
    → g w ≡ (if id == w then f (g w) else g w)
kept_at id w f g e = grind (arith, e)

-- An entry that is set to what `f` makes of the socket's packets.
entry_made :
    (q : RcvQueue) (id w : ℕ) (f : List Packet → List Packet) (os ps es : List Packet)
    → queue_of q id ≡ os
    → ps ≡ f os
    → es ≡ (if id == w then ps else queue_of q w)
    → es ≡ (if id == w then f (queue_of q w) else queue_of q w)
entry_made q id w f os ps es y z e =
    e
    ∙ ap (λ ps. if id == w then ps else queue_of q w) (z ∙ ap f (sym y))
    ∙ at_own id w f (queue_of q)

entry_kept :
    (q : RcvQueue) (id w : ℕ) (f : List Packet → List Packet) (os : List Packet)
    → queue_of q id ≡ os
    → os ≡ f os
    → queue_of q w ≡ (if id == w then f (queue_of q w) else queue_of q w)
entry_kept q id w f os y z = kept_at id w f (queue_of q) (y ∙ z ∙ ap f (sym y))

stored-queue_of :
    (q : RcvQueue) (id w : ℕ) (p : Packet) (o : Option (List Packet))
    → lookup id q.buffer ≡ o
    → queue_of (store_behind q id p o) w
      ≡ (if id == w then behind p (queue_of q w) else queue_of q w)
stored-queue_of q id w p none e =
    entry_made q id w (behind p) [] (p ∷ []) (queue_of (store_behind q id p none) w) (ap or_empty e)
      refl (inserted_entry q id w (p ∷ []))
stored-queue_of q id w p (some ps) e = elim (Bool-cases (ltb 16 (length ps))) [
  | inl z ↦ rw (z) (entry_kept q id w (behind p) ps (ap or_empty e) (rw (z) refl))
  | inr z ↦ rw (z) (
      entry_made q id w (behind p) ps (ps ++ (p ∷ []))
        (or_empty (lookup w (insert id (ps ++ (p ∷ [])) q.buffer))) (ap or_empty e) (rw (z) refl)
        (inserted_entry q id w (ps ++ (p ∷ []))))
]

left-queue_of :
    (q : RcvQueue) (id w : ℕ) (ps : List Packet)
    → queue_of (left q id ps) w ≡ (if id == w then ps else queue_of q w)
left-queue_of q id w [] = erased_entry q id w
left-queue_of q id w (p ∷ ps) = inserted_entry q id w (p ∷ ps)

taken-queue_of :
    (q : RcvQueue) (id w room : ℕ) (o : Option (List Packet))
    → lookup id q.buffer ≡ o
    → queue_of (take_front q id room o).1 w
      ≡ (if id == w then taken room (queue_of q w) else queue_of q w)
taken-queue_of q id w room none e = entry_kept q id w (taken room) [] (ap or_empty e) refl
taken-queue_of q id w room (some []) e = entry_kept q id w (taken room) [] (ap or_empty e) refl
taken-queue_of q id w room (some (p ∷ ps)) e = elim (Bool-cases (ltb room (length p.bytes))) [
  | inl z ↦ rw (z) (entry_kept q id w (taken room) (p ∷ ps) (ap or_empty e) (rw (z) refl))
  | inr z ↦ rw (z) (
      entry_made q id w (taken room) (p ∷ ps) ps (queue_of (left q id ps) w) (ap or_empty e)
        (rw (z) refl) (left-queue_of q id w ps))
]

pub taken-reply :
    (q : RcvQueue) (id room : ℕ) (o : Option (List Packet))
    → IsFilled o
    → (take_front q id room o).0 ≡ reply room (or_empty o)
taken-reply q id room none v = refl
taken-reply q id room (some []) v = absurd (omega (arith, (v [] refl).0))
taken-reply q id room (some (p ∷ ps)) v = elim (Bool-cases (ltb room (length p.bytes))) [
  | inl z ↦ rw (z) refl
  | inr z ↦ rw (z) refl
]

pub call-queue_of :
    (q : RcvQueue) (c : Call) (w : ℕ) → queue_of (call q c) w ≡ own_call w (queue_of q w) c
unfolding store_pkt take_pkt remove_connector
call-queue_of q (stored id p) w = stored-queue_of q id w p (lookup id q.buffer) refl
call-queue_of q (asked id room) w = taken-queue_of q id w room (lookup id q.buffer) refl
call-queue_of q (disconnected id) w = erased_entry q id w
