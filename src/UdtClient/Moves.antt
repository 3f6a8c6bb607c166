-- ===== src/UdtClient/Moves.antt =====
-- The steps of a round of `Run` that move messages or change the events: `SendMsg`, `TryGrabMsg` and
-- the branches that watch the socket for writing.
use udt_patch_for_epoll.Prelude.{
  ◌≡◌, refl, sym, ap, ◌∙◌, Bool, true, false, List, [], ◌∷◌, ◌++◌, map, some, arith, append_assoc,
  append-nil, Bool-cases, inl, inr,
}
use udt_patch_for_epoll.SendMsgBuf.{MsgPtr}
use udt_patch_for_epoll.ThreadsafeQueue
use udt_patch_for_epoll.ThreadsafeQueue.{grab_all}
use udt_patch_for_epoll.Udt.{Udt}
use udt_patch_for_epoll.UdtClient.{
  UdtClient, is_empty, send_msg, try_grab_msg, update_events, event_only_read, event_with_write,
}
use udt_patch_for_epoll.UdtClient.Setup.{send_all, grab_if_empty}
use udt_patch_for_epoll.UdtClient.Ledger.{Ledger, NotNull, NotNull-append, Sendable, trail}

is_empty-nil : (ms : List MsgPtr) → is_empty ms ≡ true → ms ≡ []
is_empty-nil [] e = refl
is_empty-nil (m ∷ ms) e = absurd (cc)

-- With an empty buffer the client may be watching for reading only; else it watches for writing.
abbrev pub Armed : Bool → UdtClient → Type 0
Armed only_read c = only_read ≡ true → c.send_msg_buff ≡ []

-- The messages that a schedule sends.
abbrev pub all_of : List (List MsgPtr) → List MsgPtr
all_of [] = []
all_of (ms ∷ schedule) = ms ++ all_of schedule

pub NotNull-split : (xs ys : List MsgPtr) → NotNull (xs ++ ys) → NotNull xs × NotNull ys
NotNull-split [] ys v = (tt, v)
NotNull-split (x ∷ xs) ys (n, v) = let (a, b) = NotNull-split xs ys v in ((n, a), b)

pub send_all_buff :
    (ms : List MsgPtr) (c : UdtClient) → (send_all c ms).send_msg_buff ≡ c.send_msg_buff
unfolding send_msg
send_all_buff [] c = refl
send_all_buff (m ∷ ms) c = send_all_buff ms (send_msg c m)

pub send_all-Sendable :
    (ms : List MsgPtr) (c : UdtClient) → Sendable c → NotNull ms → Sendable (send_all c ms)
unfolding send_msg ThreadsafeQueue.push
send_all-Sendable [] c v n = v
send_all-Sendable (m ∷ ms) c (b, q) (n, ns) =
    send_all-Sendable ms (send_msg c m)
      (b, NotNull-append c.send_msg_queue.data_queue (m ∷ []) q (n, tt)) ns

module _ (u : Udt) (l : Ledger u) where
  trail-send_msg :
      (c : UdtClient) (m : MsgPtr) (w : u.World)
      → trail u l (send_msg c m) w ≡ trail u l c w ++ (m ∷ [])
  unfolding send_msg ThreadsafeQueue.push
  trail-send_msg c m w =
      let s = map some (l.sent w) in
      let q = c.send_msg_queue.data_queue in
      ap (◌++◌ s) (sym (append_assoc c.send_msg_buff q (m ∷ [])))
      ∙ sym (append_assoc s (c.send_msg_buff ++ q) (m ∷ []))

  pub trail-send_all :
      (ms : List MsgPtr) (c : UdtClient) (w : u.World)
      → trail u l (send_all c ms) w ≡ trail u l c w ++ ms
  trail-send_all [] c w = sym (append-nil (trail u l c w))
  trail-send_all (m ∷ ms) c w =
      trail-send_all ms (send_msg c m) w
      ∙ ap (λ (zs : List MsgPtr). zs ++ ms) (trail-send_msg c m w)
      ∙ append_assoc (trail u l c w) (m ∷ []) ms

  pub grab_if_empty_keeps :
      (c : UdtClient) (w : u.World) → trail u l (grab_if_empty c) w ≡ trail u l c w
  unfolding grab_if_empty try_grab_msg grab_all
  grab_if_empty_keeps c w = elim (Bool-cases (is_empty c.send_msg_buff)) [
    | inl t ↦
        rw (t, is_empty-nil c.send_msg_buff t)
          (ap (◌++◌ (map some (l.sent w))) (append-nil c.send_msg_queue.data_queue))
    | inr t ↦ rw t refl
  ]

  pub grab_if_empty-Sendable : (c : UdtClient) → Sendable c → Sendable (grab_if_empty c)
  unfolding grab_if_empty try_grab_msg grab_all
  grab_if_empty-Sendable c (b, q) = elim (Bool-cases (is_empty c.send_msg_buff)) [
    | inl t ↦ rw t (q, tt)
    | inr t ↦ rw t (b, q)
  ]

  pub update_events_sends_nothing :
      (c : UdtClient) (only_read : Bool) (w : u.World)
      → l.sent (update_events u c only_read w).1 ≡ l.sent w
  unfolding update_events
  update_events_sends_nothing c true w = elim (Bool-cases (is_empty c.send_msg_buff)) [
    | inl t ↦ rw (t, update_events) refl
    | inr t ↦ rw (t, update_events) (l.epoll_add_keeps w c.udt_eid c.sock event_with_write)
  ]
  update_events_sends_nothing c false w = elim (Bool-cases (is_empty c.send_msg_buff)) [
    | inl t ↦
        rw (t, update_events)
          (l.epoll_add_keeps _ c.udt_eid c.sock event_only_read
            ∙ l.epoll_remove_keeps w c.udt_eid c.sock)
    | inr t ↦ rw (t, update_events) refl
  ]

  -- With messages in the buffer the client watches for writing.
  watches_for_writing :
      (c : UdtClient) (only_read : Bool) (w : u.World)
      → is_empty c.send_msg_buff ≡ false
      → (update_events u c only_read w).0 ≡ false
  unfolding update_events
  watches_for_writing c true w t = rw (t, update_events) refl
  watches_for_writing c false w t = rw (t, update_events) refl

  pub update_events-Armed :
      (c : UdtClient) (only_read : Bool) (w : u.World) → Armed (update_events u c only_read w).0 c
  unfolding update_events
  update_events-Armed c only_read w = elim (Bool-cases (is_empty c.send_msg_buff)) [
    | inl t ↦ λ h. is_empty-nil c.send_msg_buff t
    | inr t ↦ λ h. absurd (ground (arith, h, watches_for_writing c only_read w t))
  ]
