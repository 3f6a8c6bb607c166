-- ===== src/PollClient.antt =====
-- client/udt_client.cpp: the client without an event poll, which tries to send and to receive every
-- millisecond. Its class, its setup and the sending of one message are those of client_epoll
-- (UdtClient, where `udt_eid` plays no part here); this is what differs.
pub mod Rounds
mod Tests
use udt_patch_for_epoll.Prelude.{
  ℕ, zero, suc, Bool, true, false, ◌||◌, List, [], ◌∷◌, ◌==◌, if◌then◌else◌, length, take,
}
use udt_patch_for_epoll.SendMsgBuf.{Bytes, MsgPtr}
use udt_patch_for_epoll.Udt.{Udt, Reply, ret, error, econnlost, einvparam, einvsock, easyncrcv}
use udt_patch_for_epoll.UdtClient
use udt_patch_for_epoll.UdtClient.{
  UdtClient, Outcome, returned, out_of_fuel, and_then, udtbuf_size, written, call_back, send_loop,
}
use udt_patch_for_epoll.UdtClient.Setup.{send_all, grab_if_empty}

-- The branches of `DoRecvMsg` on the reply.
unfoldable pub on_recv_reply : UdtClient → Reply → UdtClient
on_recv_reply c (error code) =
    if code == easyncrcv
    then c
    else if code == einvparam || code == econnlost || code == einvsock
    then record c { udt_running = false }
    else c
on_recv_reply c (ret zero) = c
on_recv_reply c (ret (suc n)) =
    let c1 : UdtClient = record c { udtbuf_recved_len = suc n } in
    call_back c1.has_callback c1 (take (suc n) c1.udtbuf)

module _ (u : Udt) where
  -- `TrySendMsg`: the loop is tried whether or not the socket has room.
  unfoldable pub try_send_msg : UdtClient → u.World → Outcome u
  try_send_msg c w = send_loop u (suc (length c.send_msg_buff)) c w

  -- `DoRecvMsg`, with `bHaveMsgStill` as a result.
  unfoldable pub do_recv_msg : UdtClient → u.World → Bool × UdtClient × u.World
  unfolding on_recv_reply
  do_recv_msg c w =
      let (r, w1) = u.recvmsg w c.sock udtbuf_size in
      let c1 : UdtClient = record c { udtbuf = written r.bytes c.udtbuf; udtbuf_recved_len = 0 } in
      (r.have_msg_still, on_recv_reply c1 r.reply, w1)

  -- `TryRecvMsg`
  unfoldable pub try_recv_msg : ℕ → UdtClient → u.World → Outcome u
  try_recv_msg zero c w = out_of_fuel
  try_recv_msg (suc fuel) c w =
      let (more, c', w') = do_recv_msg c w in
      elim more [ true ↦ try_recv_msg fuel c' w' | false ↦ returned c' w' ]

  -- A round of the loop of `Run`; `fuel` is for the loop of `TryRecvMsg`.
  unfoldable pub body : ℕ → UdtClient → u.World → Outcome u
  body fuel c w = and_then u (try_send_msg (grab_if_empty c) w) (λ c' w'. try_recv_msg fuel c' w')

  -- One test of the loop's condition and, if it holds, one round. `ms` is what other threads passed to
  -- `SendMsg` since the round before, or after the loop ended.
  unfoldable pub round :
      (running : Bool) (fuel : ℕ) (c : UdtClient) (w : u.World) (ms : List MsgPtr)
      (again : UdtClient → u.World → Outcome u)
      → Outcome u
  round false fuel c w ms again = again (send_all c ms) w
  round true fuel c w ms again = and_then u (body fuel (send_all c ms) w) again

  -- The loop of `Run`, which makes at most as many rounds as the schedule of the other threads'
  -- calls of `SendMsg` has elements.
  unfoldable pub run_loop : ℕ → UdtClient → u.World → List (List MsgPtr) → Outcome u
  unfolding round
  run_loop fuel c w [] = returned c w
  run_loop fuel c w (ms ∷ schedule) =
      round c.udt_running fuel c w ms (λ c2 w2. run_loop fuel c2 w2 schedule)

  -- `Run` after its loop.
  unfoldable pub shut_down : UdtClient → u.World → u.World
  shut_down c w = let (k, w1) = u.close w c.sock in w1
