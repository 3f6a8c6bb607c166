-- ===== src/UdtServer/Echo.antt =====
-- server_udt/udt_server.cpp: one round of the read loop on a socket, `RecvMsg` and the queueing of
-- what it received.
use mathlib.Core.Path.{fun_ext}
use udt_patch_for_epoll.Prelude.{
  ℕ, zero, suc, ◌≡◌, ◌≢◌, refl, ap, ◌∙◌, true, some, List, [], ◌∷◌, ◌++◌, map, arith, ◌==◌, ltb,
  ◌⊎◌, ◌||◌, if◌then◌else◌, length, take, map_append_some, append_assoc, append-nil, Bool-cases,
  inl, inr,
}
use udt_patch_for_epoll.Std.Set.{contains}
use udt_patch_for_epoll.SendMsgBuf.{Bytes, get_msg_queue}
use udt_patch_for_epoll.SendMsgBuf.Fifo.{Fifos, get_msg_queue-add_msg}
use udt_patch_for_epoll.Udt.{
  Udt, FillsBuffer, Reply, ret, error, Received, easyncrcv, einvparam, econnlost, einvsock,
}
use udt_patch_for_epoll.SendMsgCtrl.{SendMsgCtrl, event_with_write, add_msg_to_send_buf}
use udt_patch_for_epoll.SendMsgCtrl.Armed.{IsArmed, add_msg_to_send_buf-IsArmed}
use udt_patch_for_epoll.UdtServer.{UdtServer, udtbuf_size, written, on_reply, queue_received}

module _ (u : Udt) (sock : ℕ) where
  -- The calls of one socket's read loop, and the messages that `recvmsg` gave in them.
  pub data Takes (w' : u.World) : u.World → List Bytes → Type 0 where
    finished : {w : u.World} → w ≡ w' → Takes w' w []
    message :
        {w : u.World} {ms : List Bytes} (w1 : u.World) (r : Received) (n : ℕ)
        → u.recvmsg w sock udtbuf_size ≡ (r, w1)
        → r.reply ≡ ret (suc n)
        → Takes w' w1 ms
        → Takes w' w (r.bytes ∷ ms)
    no_message :
        {w : u.World} {ms : List Bytes} (w1 : u.World) (r : Received)
        → u.recvmsg w sock udtbuf_size ≡ (r, w1)
        → ((n : ℕ) → r.reply ≢ ret (suc n))
        → Takes w' w1 ms
        → Takes w' w ms
    watched :
        {w : u.World} {ms : List Bytes} (eid : ℕ)
        → Takes w' (u.epoll_add_usock w eid sock event_with_write).1 ms
        → Takes w' w ms
    unwatched :
        {w : u.World} {ms : List Bytes} (eid : ℕ)
        → Takes w' (u.epoll_remove_usock w eid sock).1 ms
        → Takes w' w ms

module _ (u : Udt) (sock : ℕ) where
  -- What the program calls between two calls of `recvmsg` in a read loop: at most one call, which
  -- adds the socket to its epoll or takes it out.
  pub data Between (w1 w2 : u.World) : Type 0 where
    nothing_called : w2 ≡ w1 → Between w1 w2
    was_added : (eid : ℕ) → w2 ≡ (u.epoll_add_usock w1 eid sock event_with_write).1 → Between w1 w2
    was_removed : (eid : ℕ) → w2 ≡ (u.epoll_remove_usock w1 eid sock).1 → Between w1 w2

  -- The library answered `n` calls of `recvmsg` in a row that messages are left.
  pub data Spins : ℕ → u.World → Type 0 where
    not_asked : {w : u.World} → Spins zero w
    once_more :
        {n : ℕ} {w : u.World} (w2 : u.World)
        → (u.recvmsg w sock udtbuf_size).0.have_msg_still ≡ true
        → Between (u.recvmsg w sock udtbuf_size).1 w2
        → Spins n w2
        → Spins (suc n) w

-- On some socket the library answered `n` calls of `recvmsg` in a row that messages are left.
abbrev pub SpinsSomewhere : Udt → ℕ → Type 0
SpinsSomewhere u n = (sock : ℕ) × (w : u.World) × Spins u sock n w

-- The queues after messages were added for one socket.
abbrev pub with_added : Fifos → ℕ → List Bytes → Fifos
with_added f sock ms = λ j. if sock == j then f sock ++ map some ms else f j

ltb-zero-suc : (n : ℕ) → ltb 0 (suc n) ≡ true
ltb-zero-suc n = ground arith

pub take-append : (xs ys : Bytes) → take (length xs) (xs ++ ys) ≡ xs
take-append [] ys = refl
take-append (x ∷ xs) ys = ap (◌∷◌ x) (take-append xs ys)

pub with_added_none : (f : Fifos) (sock : ℕ) → f ≡ with_added f sock []
with_added_none f sock = fun_ext λ j. ground (arith, append-nil (f sock))

pub with_added_twice :
    (f g h : Fifos) (sock : ℕ) (xs ys : List Bytes)
    → g ≡ with_added f sock xs
    → h ≡ with_added g sock ys
    → h ≡ with_added f sock (xs ++ ys)
with_added_twice f g h sock xs ys e k = fun_ext λ j. ground (
  arith,
  ap (λ (q : Fifos). q j) k,
  ap (λ (q : Fifos). q j) e,
  ap (λ (q : Fifos). q sock) e,
  map_append_some xs ys,
  append_assoc (f sock) (map some xs) (map some ys),
)

module _ (u : Udt) (sock : ℕ) where
  -- What one round of the loop does: it hands `Takes` the messages that it took (one or none).
  pub record Round (s : UdtServer) (w : u.World) (taken : u.World) (s2 : UdtServer) (w2 : u.World)
      : Type 0 where
    pub ms : List Bytes
    pub before :
        (w' : u.World) (rest : List Bytes)
        → Takes u sock w' w2 rest
        → Takes u sock w' w (ms ++ rest)
    pub queued :
        get_msg_queue s2.send_msg_ctrl.send_msg_buf
        ≡ with_added (get_msg_queue s.send_msg_ctrl.send_msg_buf) sock ms
    pub armed : IsArmed s2.send_msg_ctrl
    pub same_listen : s2.listen_sock ≡ s.listen_sock
    pub between : Between u sock taken w2

  -- A round without a message.
  idle-Round :
      (s : UdtServer) (w w1 : u.World) (r : Received) (s2 : UdtServer) (w2 : u.World)
      → u.recvmsg w sock udtbuf_size ≡ (r, w1)
      → ((n : ℕ) → r.reply ≢ ret (suc n))
      → IsArmed s.send_msg_ctrl
      → s2.send_msg_ctrl ≡ s.send_msg_ctrl
      → s2.listen_sock ≡ s.listen_sock
      → ((w2 ≡ w1) ⊎ ((eid : ℕ) × (w2 ≡ (u.epoll_remove_usock w1 eid sock).1)))
      → Round s w w1 s2 w2
  idle-Round s w w1 r s2 w2 e h v c l (inl p) = record {
    ms = [];
    before = λ w' rest t. no_message w1 r e h (rw (← p) t);
    queued = rw c (with_added_none _ sock);
    armed = rw c v;
    same_listen = l;
    between = nothing_called p;
  }
  idle-Round s w w1 r s2 w2 e h v c l (inr (eid, p)) = record {
    ms = [];
    before = λ w' rest t. no_message w1 r e h (unwatched eid (rw (← p) t));
    queued = rw c (with_added_none _ sock);
    armed = rw c v;
    same_listen = l;
    between = was_removed eid p;
  }

  -- The library's part in `AddMsgToSendBuf`: one call at most.
  add_msg_to_send_buf-World :
      (c : SendMsgCtrl) (w : u.World) (m : Bytes)
      → ((add_msg_to_send_buf u c w sock (some m)).1 ≡ w)
        ⊎ ((add_msg_to_send_buf u c w sock (some m)).1
            ≡ (u.epoll_add_usock w c.udt_eid sock event_with_write).1)
  unfolding add_msg_to_send_buf
  add_msg_to_send_buf-World c w m = elim (Bool-cases (contains sock c.events_with_write)) [
    | inl t ↦ inl (rw t)
    | inr t ↦ inr (rw t)
  ]

  add_msg_to_send_buf-queue :
      (c : SendMsgCtrl) (w : u.World) (m : Bytes)
      → get_msg_queue (add_msg_to_send_buf u c w sock (some m)).0.send_msg_buf
        ≡ with_added (get_msg_queue c.send_msg_buf) sock (m ∷ [])
  unfolding add_msg_to_send_buf
  add_msg_to_send_buf-queue c w m = elim (Bool-cases (contains sock c.events_with_write)) [
    | inl t ↦ rw t (fun_ext (get_msg_queue-add_msg c.send_msg_buf sock (some m)))
    | inr t ↦ rw t (fun_ext (get_msg_queue-add_msg c.send_msg_buf sock (some m)))
  ]

  -- A round with the message `m`, given the sender's part in it.
  message-Round :
      (s : UdtServer) (w w1 : u.World) (r : Received) (n : ℕ) (s2 : UdtServer) (w2 : u.World)
      → u.recvmsg w sock udtbuf_size ≡ (r, w1)
      → r.reply ≡ ret (suc n)
      → IsArmed s.send_msg_ctrl
      → s2.listen_sock ≡ s.listen_sock
      → (s2.send_msg_ctrl, w2) ≡ add_msg_to_send_buf u s.send_msg_ctrl w1 sock (some r.bytes)
      → Round s w w1 s2 w2
  message-Round s w w1 r n s2 w2 e h v l p = record {
    ms = r.bytes ∷ [];
    before = λ w' rest t. elim (add_msg_to_send_buf-World s.send_msg_ctrl w1 r.bytes) [
      | inl q ↦ message w1 r n e h (rw (← (ap (λ z. z.1) p ∙ q)) t)
      | inr q ↦
          message w1 r n e h (watched s.send_msg_ctrl.udt_eid (rw (← (ap (λ z. z.1) p ∙ q)) t))
    ];
    queued = rw (ap (λ q. q.0) p) (add_msg_to_send_buf-queue s.send_msg_ctrl w1 r.bytes);
    armed = rw (ap (λ q. q.0) p) (add_msg_to_send_buf-IsArmed u s.send_msg_ctrl w1 sock r.bytes v);
    same_listen = l;
    between = elim (add_msg_to_send_buf-World s.send_msg_ctrl w1 r.bytes) [
      | inl q ↦ nothing_called (ap (λ z. z.1) p ∙ q)
      | inr q ↦ was_added s.send_msg_ctrl.udt_eid (ap (λ z. z.1) p ∙ q)
    ];
  }

  -- The server after `recvmsg` filled the buffer, before the reply is looked at.
  abbrev pub filled : UdtServer → Received → UdtServer
  filled s r = record s { udtbuf = written r.bytes s.udtbuf; udtbuf_recved_len = 0 }

  -- The rest of a round after `recvmsg`, by its reply.
  abbrev pub rest_of_round : UdtServer → u.World → Received → Reply → UdtServer × u.World
  rest_of_round s w1 r rp =
      let (s1, w2) = on_reply u (filled s r) w1 sock rp in queue_received u s1 w2 sock

  error-Round :
      (s : UdtServer) (w w1 : u.World) (r : Received) (code : ℕ)
      → u.recvmsg w sock udtbuf_size ≡ (r, w1)
      → r.reply ≡ error code
      → IsArmed s.send_msg_ctrl
      → let (s2, w2) = rest_of_round s w1 r (error code) in Round s w w1 s2 w2
  unfolding on_reply queue_received
  error-Round s w w1 r code e h v = elim (Bool-cases (code == easyncrcv)) [
    | inl a ↦ rw a (idle-Round s w w1 r _ _ e none_taken v refl refl (inl refl))
    | inr a ↦ elim (Bool-cases (code == einvparam)) [
      | inl b ↦ rw (a, b) (idle-Round s w w1 r _ _ e none_taken v refl refl (inr (s.udt_eid, refl)))
      | inr b ↦ elim (Bool-cases (code == econnlost || code == einvsock)) [
        | inl c ↦
            rw (a, b, c) (idle-Round s w w1 r _ _ e none_taken v refl refl (inr (s.udt_eid, refl)))
        | inr c ↦ rw (a, b, c) (idle-Round s w w1 r _ _ e none_taken v refl refl (inl refl))
      ]
    ]
  ]
    where
      none_taken : (n : ℕ) → r.reply ≢ ret (suc n)
      none_taken n k = cc

  pub reply-Round :
      (s : UdtServer) (w w1 : u.World) (r : Received) (rp : Reply)
      → FillsBuffer u
      → u.recvmsg w sock udtbuf_size ≡ (r, w1)
      → r.reply ≡ rp
      → IsArmed s.send_msg_ctrl
      → let (s2, w2) = rest_of_round s w1 r rp in Round s w w1 s2 w2
  unfolding on_reply queue_received
  reply-Round s w w1 r (error code) law e h v = error-Round s w w1 r code e h v
  reply-Round s w w1 r (ret zero) law e h v =
      idle-Round s w w1 r _ _ e (λ n k. ground arith) v refl refl (inl refl)
  reply-Round s w w1 r (ret (suc n)) law e h v =
      rw (ltb-zero-suc n, ltb-zero-suc n, filled_take)
        (message-Round s w w1 r n _ _ e h v refl refl)
    where
      filled_take : take (suc n) (written r.bytes s.udtbuf) ≡ r.bytes
      filled_take = rw (law w w1 sock udtbuf_size (suc n) r e h) (take-append r.bytes _)
