-- ===== src/UdtClient/Turns.antt =====
-- client_epoll/udt_client.cpp: `DoRecvMsg`, one turn of the read loop of `TryRecvMsg`.
use udt_patch_for_epoll.Prelude.{
  ℕ, zero, suc, ◌≡◌, ◌≢◌, refl, sym, ap, ◌∙◌, Bool, true, false, List, [], ◌∷◌, ◌++◌, arith, ◌==◌,
  ◌||◌, length, take, drop, append_assoc, append-nil, Bool-cases, inl, inr,
}
use udt_patch_for_epoll.SendMsgBuf.{Bytes}
use udt_patch_for_epoll.Udt.{
  Udt, FillsBuffer, Reply, ret, error, Received, easyncrcv, einvparam, econnlost, einvsock,
}
use udt_patch_for_epoll.UdtServer.Echo.{
  Takes, message, no_message, unwatched, Between, nothing_called, was_removed, take-append,
}
use udt_patch_for_epoll.UdtClient.{
  UdtClient, udtbuf_size, written, call_back, on_recv_reply, do_recv_msg,
}
use udt_patch_for_epoll.UdtClient.Ledger.{Ledger}

-- The calls of the callback, after the messages `ms` were received.
abbrev pub heard : Bool → List Bytes → List Bytes → List Bytes
heard true old ms = old ++ ms
heard false old ms = old

pub heard-nil : (b : Bool) (old : List Bytes) → heard b old [] ≡ old
heard-nil true old = append-nil old
heard-nil false old = refl

pub heard_twice :
    (b : Bool) (old xs ys : List Bytes) → heard b (heard b old xs) ys ≡ heard b old (xs ++ ys)
heard_twice true old xs ys = append_assoc old xs ys
heard_twice false old xs ys = refl

-- The fields that receiving leaves alone.
pub record SameSending (c c' : UdtClient) : Type 0 where
  pub buff : c'.send_msg_buff ≡ c.send_msg_buff
  pub queue : c'.send_msg_queue ≡ c.send_msg_queue
  pub sock : c'.sock ≡ c.sock
  pub callback : c'.has_callback ≡ c.has_callback

pub same : (c c1 c2 : UdtClient) → SameSending c c1 → SameSending c1 c2 → SameSending c c2
same c c1 c2 s t = record {
  buff = t.buff ∙ s.buff;
  queue = t.queue ∙ s.queue;
  sock = t.sock ∙ s.sock;
  callback = t.callback ∙ s.callback;
}

call_back_hears :
    (b : Bool) (c : UdtClient) (m : Bytes)
    → (call_back b c m).called_with ≡ heard b c.called_with (m ∷ [])
call_back_hears true c m = refl
call_back_hears false c m = refl

pub call_back-SameSending : (b : Bool) (c : UdtClient) (m : Bytes) → SameSending c (call_back b c m)
call_back-SameSending true c m = record { buff = refl; queue = refl; sock = refl; callback = refl }
call_back-SameSending false c m = record { buff = refl; queue = refl; sock = refl; callback = refl }

module _ (u : Udt) (l : Ledger u) (sock : ℕ) where
  -- What one turn of the loop does: the callback hears the messages received (one or none).
  pub record Turn (c : UdtClient) (w : u.World) (taken : u.World) (c2 : UdtClient) (w2 : u.World)
      : Type 0 where
    pub ms : List Bytes
    pub before :
        (w' : u.World) (rest : List Bytes)
        → Takes u sock w' w2 rest
        → Takes u sock w' w (ms ++ rest)
    pub called : c2.called_with ≡ heard c.has_callback c.called_with ms
    pub others : SameSending c c2
    pub sent : l.sent w2 ≡ l.sent w
    pub between : Between u sock taken w2

  pub idle-Turn :
      (c c2 : UdtClient) (w w1 : u.World) (r : Received)
      → u.recvmsg w sock udtbuf_size ≡ (r, w1)
      → ((n : ℕ) → r.reply ≢ ret (suc n))
      → c2.called_with ≡ c.called_with
      → SameSending c c2
      → Turn c w w1 c2 w1
  idle-Turn c c2 w w1 r s k called o = record {
    ms = [];
    before = λ w' rest t. no_message w1 r s k t;
    called = called ∙ sym (heard-nil c.has_callback c.called_with);
    others = o;
    sent = sym (ap (λ (x : Received × u.World). l.sent x.1) s) ∙ l.recvmsg_keeps w sock udtbuf_size;
    between = nothing_called refl;
  }

  -- An error after which the socket leaves the event poll.
  lost-Turn :
      (c c2 : UdtClient) (w w1 : u.World) (eid : ℕ)
      → Turn c w w1 c2 w1
      → Turn c w w1 c2 (u.epoll_remove_usock w1 eid sock).1
  lost-Turn c c2 w w1 eid t = record {
    ms = t.ms;
    before = λ w' rest k. t.before w' rest (unwatched eid k);
    called = t.called;
    others = t.others;
    sent = l.epoll_remove_keeps w1 eid sock ∙ t.sent;
    between = was_removed eid refl;
  }

  message-Turn :
      (c c2 : UdtClient) (w w1 : u.World) (r : Received) (n : ℕ)
      → u.recvmsg w sock udtbuf_size ≡ (r, w1)
      → r.reply ≡ ret (suc n)
      → c2.called_with ≡ heard c.has_callback c.called_with (r.bytes ∷ [])
      → SameSending c c2
      → Turn c w w1 c2 w1
  message-Turn c c2 w w1 r n s e called o = record {
    ms = r.bytes ∷ [];
    before = λ w' rest t. message w1 r n s e t;
    called = called;
    others = o;
    sent = sym (ap (λ (x : Received × u.World). l.sent x.1) s) ∙ l.recvmsg_keeps w sock udtbuf_size;
    between = nothing_called refl;
  }

  -- The bytes handed to the callback are those received.
  front_of_buffer :
      (r : Received) (n : ℕ) (old : Bytes)
      → n ≡ length r.bytes
      → take n (written r.bytes old) ≡ r.bytes
  front_of_buffer r n old e = rw e (take-append r.bytes (drop (length r.bytes) old))

  on_recv_reply-Turn :
      (c : UdtClient) (w w1 : u.World) (r : Received) (reply : Reply)
      → FillsBuffer u
      → u.recvmsg w sock udtbuf_size ≡ (r, w1)
      → r.reply ≡ reply
      → let c1 : UdtClient = record c {
        udtbuf = written r.bytes c.udtbuf;
        udtbuf_recved_len = 0;
      } in
        let (c2, w2) = on_recv_reply u c1 w1 sock reply in Turn c w w1 c2 w2
  unfolding on_recv_reply
  on_recv_reply-Turn c w w1 r (error code) law s e =
      let k : (n : ℕ) → r.reply ≢ ret (suc n) = λ n h. absurd (ground (arith, e, h)) in
      let c1 : UdtClient = record c { udtbuf = written r.bytes c.udtbuf; udtbuf_recved_len = 0 } in
      let o : SameSending c c1 = record {
        buff = refl;
        queue = refl;
        sock = refl;
        callback = refl;
      } in
      let o' : SameSending c (record c1 { udt_running = false }) = record {
        buff = refl;
        queue = refl;
        sock = refl;
        callback = refl;
      } in
      elim (Bool-cases (code == easyncrcv)) [
        | inl t ↦ rw t (idle-Turn c c1 w w1 r s k refl o)
        | inr t ↦ elim (Bool-cases (code == einvparam || code == econnlost || code == einvsock)) [
          | inl x ↦
              rw (t, x)
                (lost-Turn c (record c1 { udt_running = false }) w w1 c.udt_eid
                  (idle-Turn c (record c1 { udt_running = false }) w w1 r s k refl o'))
          | inr x ↦ rw (t, x) (idle-Turn c c1 w w1 r s k refl o)
        ]
      ]
  on_recv_reply-Turn c w w1 r (ret zero) law s e =
      idle-Turn c (record c { udtbuf = written r.bytes c.udtbuf; udtbuf_recved_len = 0 }) w w1 r s
        (λ n h. absurd (ground (arith, e, h))) refl
        (record { buff = refl; queue = refl; sock = refl; callback = refl })
  on_recv_reply-Turn c w w1 r (ret (suc n)) law s e =
      let b = written r.bytes c.udtbuf in
      let c1 : UdtClient = record c { udtbuf = b; udtbuf_recved_len = suc n } in
      let m : take (suc n) b ≡ r.bytes =
        front_of_buffer r (suc n) c.udtbuf (law w w1 sock _ _ r s e) in
      message-Turn c (call_back c.has_callback c1 (take (suc n) b)) w w1 r n s e
        (call_back_hears c.has_callback c1 (take (suc n) b)
          ∙ ap (λ (x : Bytes). heard c.has_callback c.called_with (x ∷ [])) m)
        (same c c1 _ (record { buff = refl; queue = refl; sock = refl; callback = refl })
          (call_back-SameSending c.has_callback c1 (take (suc n) b)))

  pub more_reported :
      (c : UdtClient) (w : u.World)
      → (do_recv_msg u c w sock).0 ≡ (u.recvmsg w sock udtbuf_size).0.have_msg_still
  unfolding do_recv_msg
  more_reported c w = refl

  pub do_recv_msg-Turn :
      (c : UdtClient) (w : u.World)
      → FillsBuffer u
      → let (more, c2, w2) = do_recv_msg u c w sock in
        Turn c w (u.recvmsg w sock udtbuf_size).1 c2 w2
  unfolding do_recv_msg
  do_recv_msg-Turn c w law = on_recv_reply-Turn c w _ _ _ law refl refl
