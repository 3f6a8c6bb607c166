-- ===== src/UdtClient/Sending.antt =====
-- client_epoll/udt_client.cpp: `TrySendMsg`, and where the messages are after it.
use udt_patch_for_epoll.Prelude.{
  ℕ, zero, suc, ◌<◌, ◌≡◌, refl, ap, ◌∙◌, none, some, List, [], ◌∷◌, ◌++◌, map, arith, ◌==◌, length,
  Bool-cases, inl, inr,
}
use udt_patch_for_epoll.Std.Set.{Set, contains}
use udt_patch_for_epoll.SendMsgBuf.{Bytes, MsgPtr}
use udt_patch_for_epoll.Udt.{Udt, Reply, ret, error, easyncsnd}
use udt_patch_for_epoll.UdtClient.{
  UdtClient, Outcome, on_send_reply, do_send_one_msg, on_send_ret, send_loop, try_send_msg,
}
use udt_patch_for_epoll.UdtClient.Ledger.{
  Ledger, sent_after, Sendable, handed_over, Kept, returned-Kept, after-Kept,
}

abbrev pub with_buff : UdtClient → List MsgPtr → UdtClient
with_buff c ms = record c { send_msg_buff = ms }

module _ (u : Udt) (l : Ledger u) where
  -- One turn of the loop on the message `m`, given what the rest of the loop does.
  on_send_reply-Kept :
      (c : UdtClient) (w w1 : u.World) (m : Bytes) (ms : List MsgPtr) (r : Reply)
      (again : UdtClient → u.World → Outcome u)
      → Sendable (with_buff c (some m ∷ ms))
      → l.sent w1 ≡ sent_after (l.sent w) m r
      → Kept u l (with_buff c ms) w1 (again (with_buff c ms) w1)
      → let (send_ret, c', w') = on_send_reply u (with_buff c (some m ∷ ms)) m (r, w1) in
        Kept u l (with_buff c (some m ∷ ms)) w (on_send_ret u send_ret c' w' again)
  unfolding on_send_reply on_send_ret
  on_send_reply-Kept c w w1 m ms (error code) again v e h = elim (Bool-cases (code == easyncsnd)) [
    | inl t ↦ rw t (returned-Kept u l (with_buff c (some m ∷ ms)) _ w w1 e refl refl v)
    | inr t ↦ rw t (returned-Kept u l (with_buff c (some m ∷ ms)) _ w w1 e refl refl v)
  ]
  on_send_reply-Kept c w w1 m ms (ret n) again v e h = elim (Bool-cases (n == length m)) [
    | inl t ↦
        (let q = c.send_msg_queue.data_queue in
          let s : l.sent w1 ≡ l.sent w ++ (m ∷ []) = e ∙ rw t refl in
          rw t (
            after-Kept u l (with_buff c (some m ∷ ms)) (with_buff c ms) w w1 _
              (ap (λ (xs : List Bytes). map some xs ++ (ms ++ q)) s
                ∙ handed_over (l.sent w) m (ms ++ q))
              (λ x. absurd (cc)) h))
    | inr t ↦
        (let s : l.sent w1 ≡ l.sent w = e ∙ rw t refl in
          rw t (returned-Kept u l (with_buff c (some m ∷ ms)) _ w w1 s refl refl v))
  ]

  pub send_loop-Kept :
      (fuel : ℕ) (ms : List MsgPtr) (c : UdtClient) (w : u.World)
      → length ms < fuel
      → Sendable (with_buff c ms)
      → Kept u l (with_buff c ms) w (send_loop u fuel (with_buff c ms) w)
  unfolding send_loop do_send_one_msg
  send_loop-Kept zero ms c w h v = absurd (omega arith)
  send_loop-Kept (suc fuel) [] c w h v =
      returned-Kept u l (with_buff c []) (with_buff c []) w w refl refl refl v
  send_loop-Kept (suc fuel) (none ∷ ms) c w h ((n, vs), vq) = absurd (n refl)
  send_loop-Kept (suc fuel) (some m ∷ ms) c w h ((n, vs), vq) =
      on_send_reply-Kept c w _ m ms _ (send_loop u fuel) ((n, vs), vq) (l.sendmsg_writes w c.sock m)
        (send_loop-Kept fuel ms c _ (omega (arith, h)) (vs, vq))

  -- If no message of the client is a null pointer, `TrySendMsg` comes back. The messages sent,
  -- those in the buffer and those in the queue, one after the other, are what they were, on an
  -- error too: none is lost, sent twice or overtaken. It puts nothing into an empty buffer.
  pub try_send_msg-Kept :
      (c : UdtClient) (w : u.World) (writefds : Set)
      → Sendable c
      → Kept u l c w (try_send_msg u c w writefds)
  unfolding try_send_msg
  try_send_msg-Kept c w writefds v = elim (Bool-cases (contains c.sock writefds)) [
    | inl t ↦
        rw t (send_loop-Kept (suc (length c.send_msg_buff)) c.send_msg_buff c w (omega arith) v)
    | inr t ↦ rw t (returned-Kept u l c c w w refl refl refl v)
  ]
