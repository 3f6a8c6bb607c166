-- ===== src/SendMsgCtrl/Drain.antt =====
-- What `TrySendMsgOfOneSock` does with a socket's queue: how its loop ends, which messages went to
-- the library and in what order, and what stays queued.
use mathlib.Core.Path.{fun_ext}
use udt_patch_for_epoll.Prelude.{
  ℕ, zero, suc, false, ◌<◌, ◌≡◌, ◌≢◌, refl, ap, ◌∙◌, inl, inr, some, List, [], ◌∷◌, ◌++◌, map,
  arith, ◌==◌, if◌then◌else◌, length, Bool-cases, ==_iff,
}
use udt_patch_for_epoll.SendMsgBuf.{
  Bytes, MsgQueue, SendMsgBuf, get_msg_queue, peek_front_msg, pop_msg, front,
}
use udt_patch_for_epoll.Std.Set.{contains, contains-erase}
use udt_patch_for_epoll.SendMsgBuf.Fifo.{
  Fifos, get_msg_queue-pop_msg, get_msg_queue-clean_msg, peek_front_msg-front,
}
use udt_patch_for_epoll.Udt.{Udt, Reply, ret, error, easyncsnd}
use udt_patch_for_epoll.SendMsgCtrl.{
  SendMsgCtrl, event_only_read, Outcome, returned, assert_failed, try_remove_write_event,
  handle_send_msg_error, after_send, send_loop, try_send_msg_of_one_sock,
}

-- The queues after one socket's queue became `ms`.
abbrev pub with_queue : Fifos → ℕ → List Bytes → Fifos
with_queue f sock ms = λ j. if sock == j then map some ms else f j

abbrev pub with_buf : SendMsgCtrl → SendMsgBuf → SendMsgCtrl
with_buf c b = record c { send_msg_buf = b }

length-map-some : (ms : List Bytes) → length (map some ms) ≡ length ms
length-map-some [] = refl
length-map-some (m ∷ ms) = ap suc (length-map-some ms)

module _ (u : Udt) (sock : ℕ) where
  -- The library took these messages, each whole and in this order, on the way from `w` to `w'`.
  abbrev pub Sends : u.World → List Bytes → u.World → Type 0
  Sends w [] w' = w ≡ w'
  Sends w (m ∷ ms) w' =
      (w1 : u.World) × (u.sendmsg w sock m ≡ (ret (length m), w1)) × Sends w1 ms w'

  -- The socket left `events_with_write_` and no messages are queued for it. The other sockets'
  -- queues and places in `events_with_write_` are what they were.
  pub record Unwatched (c c' : SendMsgCtrl) : Type 0 where
    pub same_eid : c'.udt_eid ≡ c.udt_eid
    pub queues : get_msg_queue c'.send_msg_buf ≡ with_queue (get_msg_queue c.send_msg_buf) sock []
    pub events :
        (j : ℕ)
        → contains j c'.events_with_write
          ≡ (if sock == j then false else contains j c.events_with_write)

  -- The socket taken out of the epoll and, if it is to be read still, added for reading alone.
  abbrev pub taken_out : SendMsgCtrl → u.World → u.World
  taken_out c w = (u.epoll_remove_usock w c.udt_eid sock).1

  abbrev pub only_read : SendMsgCtrl → u.World → u.World
  only_read c w = (u.epoll_add_usock (taken_out c w) c.udt_eid sock event_only_read).1

  -- How the loop ends, for a queue with the messages `ms`:
  -- * it sent them all, and then stopped watching the socket for writing, if it was watched;
  -- * after some, the library had no space: the rest stays queued, nothing else changes;
  -- * after some, another error: the socket leaves the epoll and its messages are dropped;
  -- * after some, the library reported another size than the message's, and the assertion failed.
  -- In each case the other sockets' queues are what they were.
  pub data Drained (c : SendMsgCtrl) (w : u.World) (ms : List Bytes) (o : Outcome u) : Type 0 where
    emptied :
        (c' : SendMsgCtrl) (w1 w' : u.World)
        → Sends w ms w1
        → Unwatched c c'
        → w' ≡ (if contains sock c.events_with_write then only_read c w1 else w1)
        → o ≡ returned c' w'
        → Drained c w ms o
    blocked :
        (sent rest : List Bytes) (m : Bytes) (b : SendMsgBuf) (w1 w2 : u.World)
        → ms ≡ sent ++ (m ∷ rest)
        → Sends w sent w1
        → u.sendmsg w1 sock m ≡ (error easyncsnd, w2)
        → get_msg_queue b ≡ with_queue (get_msg_queue c.send_msg_buf) sock (m ∷ rest)
        → o ≡ returned (with_buf c b) w2
        → Drained c w ms o
    broken :
        (sent rest : List Bytes) (m : Bytes) (code : ℕ) (c' : SendMsgCtrl) (w1 w2 : u.World)
        → ms ≡ sent ++ (m ∷ rest)
        → Sends w sent w1
        → u.sendmsg w1 sock m ≡ (error code, w2)
        → code ≢ easyncsnd
        → Unwatched c c'
        → o ≡ returned c' (taken_out c w2)
        → Drained c w ms o
    cut_short :
        (sent rest : List Bytes) (m : Bytes) (n : ℕ) (b : SendMsgBuf) (w1 w2 : u.World)
        → ms ≡ sent ++ (m ∷ rest)
        → Sends w sent w1
        → u.sendmsg w1 sock m ≡ (ret n, w2)
        → n ≢ length m
        → get_msg_queue b ≡ with_queue (get_msg_queue c.send_msg_buf) sock (m ∷ rest)
        → o ≡ assert_failed (with_buf c b) w2
        → Drained c w ms o

  queue_eta :
      (b : SendMsgBuf) (ms : List Bytes)
      → get_msg_queue b sock ≡ map some ms
      → get_msg_queue b ≡ with_queue (get_msg_queue b) sock ms
  queue_eta b ms e = fun_ext λ j. ground (arith)

  popped :
      (b : SendMsgBuf) (m : Bytes) (ms : List Bytes)
      → get_msg_queue b sock ≡ map some (m ∷ ms)
      → get_msg_queue (pop_msg b sock) ≡ with_queue (get_msg_queue b) sock ms
  popped b m ms e = fun_ext λ j. ground (arith, get_msg_queue-pop_msg b sock j)

  with_queue_twice :
      (f : Fifos) (g : Fifos) (ms xs : List Bytes)
      → g ≡ with_queue f sock ms
      → with_queue g sock xs ≡ with_queue f sock xs
  with_queue_twice f g ms xs e = rw e (fun_ext λ j. ground arith)

  Unwatched-from :
      (c c' : SendMsgCtrl) (b : SendMsgBuf) (ms : List Bytes)
      → get_msg_queue b ≡ with_queue (get_msg_queue c.send_msg_buf) sock ms
      → Unwatched (with_buf c b) c'
      → Unwatched c c'
  Unwatched-from c c' b ms e v = record {
    same_eid = v.same_eid;
    queues = v.queues ∙ with_queue_twice _ _ ms [] e;
    events = v.events;
  }

  -- What holds of the rest of the loop holds of the loop that sent one message before it.
  resume :
      (c : SendMsgCtrl) (w w' : u.World) (m : Bytes) (ms : List Bytes) (b : SendMsgBuf)
      (o : Outcome u)
      → u.sendmsg w sock m ≡ (ret (length m), w')
      → get_msg_queue b ≡ with_queue (get_msg_queue c.send_msg_buf) sock ms
      → Drained (with_buf c b) w' ms o
      → Drained c w (m ∷ ms) o
  resume c w w' m ms b o s e (emptied c' w1 w2 t v k r) =
      emptied c' w1 w2 (w', s, t) (Unwatched-from c c' b ms e v) k r
  resume c w w' m ms b o s e (blocked sent rest x b' w1 w2 p t y q r) =
      blocked (m ∷ sent) rest x b' w1 w2 (ap (◌∷◌ m) p) (w', s, t) y
        (q ∙ with_queue_twice _ _ ms (x ∷ rest) e) r
  resume c w w' m ms b o s e (broken sent rest x code c' w1 w2 p t y k v r) =
      broken (m ∷ sent) rest x code c' w1 w2 (ap (◌∷◌ m) p) (w', s, t) y k
        (Unwatched-from c c' b ms e v) r
  resume c w w' m ms b o s e (cut_short sent rest x n b' w1 w2 p t y k q r) =
      cut_short (m ∷ sent) rest x n b' w1 w2 (ap (◌∷◌ m) p) (w', s, t) y k
        (q ∙ with_queue_twice _ _ ms (x ∷ rest) e) r

  try_remove_write_event-emptied :
      (c : SendMsgCtrl) (w : u.World)
      → get_msg_queue c.send_msg_buf sock ≡ []
      → (let (c', w') = try_remove_write_event u c w sock in Drained c w [] (returned c' w'))
  unfolding try_remove_write_event
  try_remove_write_event-emptied c w e = elim (Bool-cases (contains sock c.events_with_write)) [
    | inl t ↦ rw t (
        emptied _ w _ refl
          (record {
            same_eid = refl;
            queues = queue_eta c.send_msg_buf [] e;
            events = λ j. ground (arith, contains-erase j sock c.events_with_write);
          })
          (rw t refl) refl)
    | inr t ↦ rw t (
        emptied c w w refl
          (record {
            same_eid = refl;
            queues = queue_eta c.send_msg_buf [] e;
            events = λ j. ground (arith, t);
          })
          (rw t refl) refl)
  ]

  handle_send_msg_error-Unwatched :
      (c : SendMsgCtrl) (w : u.World) → Unwatched c (handle_send_msg_error u c w sock).0
  unfolding handle_send_msg_error
  handle_send_msg_error-Unwatched c w = record {
    same_eid = refl;
    queues = fun_ext (get_msg_queue-clean_msg c.send_msg_buf sock);
    events = λ j. ground (arith, contains-erase j sock c.events_with_write);
  }

  handle_send_msg_error_world :
      (c : SendMsgCtrl) (w : u.World) → (handle_send_msg_error u c w sock).1 ≡ taken_out c w
  unfolding handle_send_msg_error
  handle_send_msg_error_world c w = refl

  -- One round, by the library's reply.
  after_send-Drained :
      (c : SendMsgCtrl) (w w' : u.World) (m : Bytes) (ms : List Bytes) (r : Reply)
      (again : SendMsgCtrl → u.World → Outcome u)
      → u.sendmsg w sock m ≡ (r, w')
      → get_msg_queue c.send_msg_buf sock ≡ map some (m ∷ ms)
      → (let c' = with_buf c (pop_msg c.send_msg_buf sock) in Drained c' w' ms (again c' w'))
      → Drained c w (m ∷ ms) (after_send u c sock m (r, w') again)
  unfolding after_send
  after_send-Drained c w w' m ms (error code) again s e h = elim (Bool-cases (code == easyncsnd)) [
    | inl t ↦
        let k : code ≡ easyncsnd = (==_iff code easyncsnd).0 t in
        blocked [] ms m c.send_msg_buf w w' refl refl (rw (← k) s) (queue_eta _ (m ∷ ms) e) (rw t)
    | inr t ↦
        broken [] ms m code _ w w' refl refl s (ground arith) (handle_send_msg_error-Unwatched c w')
          (rw (t, handle_send_msg_error_world c w') refl)
  ]
  after_send-Drained c w w' m ms (ret n) again s e h = elim (Bool-cases (n == length m)) [
    | inl t ↦
        let k : n ≡ length m = (==_iff n (length m)).0 t in
        rw t (resume c w w' m ms _ _ (rw (← k) s) (popped _ m ms e) h)
    | inr t ↦
        cut_short [] ms m n c.send_msg_buf w w' refl refl s (ground arith) (queue_eta _ (m ∷ ms) e)
          (rw t)
  ]

  front_of :
      (b : SendMsgBuf) (q : MsgQueue) → get_msg_queue b sock ≡ q → peek_front_msg b sock ≡ front q
  front_of b q e = peek_front_msg-front b sock ∙ ap front e

  after_pop :
      (b : SendMsgBuf) (m : Bytes) (ms : List Bytes)
      → get_msg_queue b sock ≡ map some (m ∷ ms)
      → get_msg_queue (pop_msg b sock) sock ≡ map some ms
  after_pop b m ms e = ground (arith, get_msg_queue-pop_msg b sock sock)

  -- Enough fuel for the messages queued is enough for the loop.
  send_loop-Drained :
      (fuel : ℕ) (ms : List Bytes) (c : SendMsgCtrl) (w : u.World)
      → get_msg_queue c.send_msg_buf sock ≡ map some ms
      → length ms < fuel
      → Drained c w ms (send_loop u fuel sock c w)
  unfolding send_loop
  send_loop-Drained zero ms c w e h = absurd (omega arith)
  send_loop-Drained (suc fuel) [] c w e h =
      rw (front_of c.send_msg_buf [] e, send_loop) (try_remove_write_event-emptied c w e)
  send_loop-Drained (suc fuel) (m ∷ ms) c w e h =
      rw (front_of c.send_msg_buf (some m ∷ map some ms) e, send_loop)
        (after_send-Drained c w (u.sendmsg w sock m).1 m ms (u.sendmsg w sock m).0 _ refl e
          (send_loop-Drained fuel ms _ _ (after_pop _ m ms e) (omega arith)))

  -- If no pointer queued for the socket is null, `TrySendMsgOfOneSock` comes back, or its assertion
  -- fails because a send reported another size than the message's. It hands the library the queued
  -- messages in order, each once, until the queue is empty or a send fails. After the last message
  -- the socket, if it was in `events_with_write_`, is taken out of it and added to the epoll again
  -- for reading alone. What was not sent stays queued; only after an error other than a full
  -- buffer it is dropped, and the socket leaves the epoll and `events_with_write_`. The other
  -- sockets' queues and places in `events_with_write_` stay as they were.
  pub try_send_msg_of_one_sock-Drained :
      (c : SendMsgCtrl) (w : u.World) (ms : List Bytes)
      → get_msg_queue c.send_msg_buf sock ≡ map some ms
      → Drained c w ms (try_send_msg_of_one_sock u c w sock)
  unfolding try_send_msg_of_one_sock
  try_send_msg_of_one_sock-Drained c w ms e =
      send_loop-Drained (suc (length (get_msg_queue c.send_msg_buf sock))) ms c w e
        (rw e (omega (arith, length-map-some ms)))
