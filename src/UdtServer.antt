-- ===== src/UdtServer.antt =====
-- server_udt/udt_server.h and udt_server.cpp: the echo server. It accepts connections, queues every
-- message that it receives for its sender, and lets `SendMsgCtrl` send the queues.
-- Console output, the clock that it prints and the counters that it prints are left out.
pub mod Setup
pub mod Echo
pub mod ReadLoop
pub mod Rounds
mod Tests
use udt_patch_for_epoll.Prelude.{
  ℕ, zero, suc, ◌*◌, Bool, true, false, ◌||◌, some, List, [], ◌∷◌, ◌++◌, ◌==◌, ltb, if◌then◌else◌,
  length, take, drop,
}
use udt_patch_for_epoll.Std.Set.{Set}
use udt_patch_for_epoll.SendMsgBuf.{Bytes}
use udt_patch_for_epoll.Udt.{
  Udt, Reply, ret, error, Received, handle_of, econnlost, einvparam, einvsock, easyncrcv,
}
use udt_patch_for_epoll.SendMsgCtrl
use udt_patch_for_epoll.SendMsgCtrl.{
  SendMsgCtrl, event_only_read, add_msg_to_send_buf, try_send_msg,
}

-- The class's fields. `send_msg_ctrl_ptr_` is the sender that it points to.
pub record UdtServer : Type 0 where
  pub listen_sock : ℕ
  pub udtbuf : Bytes
  pub udtbuf_recved_len : ℕ
  pub udt_running : Bool
  pub udt_eid : ℕ
  pub send_msg_ctrl : SendMsgCtrl

-- `sizeof(udtbuf_)`
abbrev pub udtbuf_size : ℕ
udtbuf_size = 1024 * 100

-- The static variable `read_event`.
abbrev pub read_event : ℕ
read_event = event_only_read

-- `recvmsg` writes to the front of the buffer.
abbrev pub written : Bytes → Bytes → Bytes
written new old = new ++ drop (length new) old

module _ (u : Udt) where
  -- How a method comes back: normally, by a failed `assert` in the sender, or (in the model alone)
  -- because a loop ran out of fuel.
  pub data Outcome : Type 0 where
    returned : UdtServer → u.World → Outcome
    assert_failed : Outcome
    out_of_fuel : Outcome

  abbrev pub and_then : Outcome → (UdtServer → u.World → Outcome) → Outcome
  and_then (returned s w) f = f s w
  and_then assert_failed f = assert_failed
  and_then out_of_fuel f = out_of_fuel

  -- The branches of `RecvMsg` on the reply.
  unfoldable pub on_reply : UdtServer → u.World → ℕ → Reply → UdtServer × u.World
  on_reply s w sock (error code) =
      if code == easyncrcv
      then (s, w)
      else if code == einvparam
      then (record s { udt_running = false }, (u.epoll_remove_usock w s.udt_eid sock).1)
      else if code == econnlost || code == einvsock
      then (s, (u.epoll_remove_usock w s.udt_eid sock).1)
      else (s, w)
  on_reply s w sock (ret n) = if ltb 0 n then (record s { udtbuf_recved_len = n }, w) else (s, w)

  -- `RecvMsg`, with `bHaveMsgStill` as a result. Its own result, which nothing uses, is left out.
  unfoldable pub recv_msg : UdtServer → u.World → ℕ → Bool × UdtServer × u.World
  unfolding on_reply
  recv_msg s w sock =
      let (r, w1) = u.recvmsg w sock udtbuf_size in
      let s1 : UdtServer = record s { udtbuf = written r.bytes s.udtbuf; udtbuf_recved_len = 0 } in
      let (s2, w2) = on_reply s1 w1 sock r.reply in (r.have_msg_still, s2, w2)

  -- `if (udtbuf_recved_len_ > 0) AddMsgToSendBuf(...)`
  unfoldable pub queue_received : UdtServer → u.World → ℕ → UdtServer × u.World
  queue_received s w sock =
      if ltb 0 s.udtbuf_recved_len
      then (let (c, w') =
            add_msg_to_send_buf u s.send_msg_ctrl w sock
              (some (take s.udtbuf_recved_len s.udtbuf)) in
          (record s { send_msg_ctrl = c }, w'))
      else (s, w)

  -- The `do ... while (bHaveMsgStill)` loop on a client's socket.
  unfoldable pub recv_loop : ℕ → UdtServer → u.World → ℕ → Outcome
  unfolding recv_msg queue_received
  recv_loop zero s w sock = out_of_fuel
  recv_loop (suc fuel) s w sock =
      let (more, s1, w1) = recv_msg s w sock in
      let (s2, w2) = queue_received s1 w1 sock in
      elim more [ true ↦ recv_loop fuel s2 w2 sock | false ↦ returned s2 w2 ]

  -- The branch of `HandleReadFds` on the listening socket.
  unfoldable pub accept_one : UdtServer → u.World → Outcome
  accept_one s w =
      let (r, w1) = u.accept w s.listen_sock in
      elim r [
        | error code ↦ returned s w1
        | ret new_sock ↦ returned s (u.epoll_add_usock w1 s.udt_eid new_sock read_event).1
      ]

  -- `HandleReadFds`, the sockets in ascending order; `fuel` is for each socket's loop.
  unfoldable pub handle_read_fds : ℕ → UdtServer → u.World → Set → Outcome
  unfolding recv_loop accept_one
  handle_read_fds fuel s w [] = returned s w
  handle_read_fds fuel s w (cur_sock ∷ readfds) =
      let one = if cur_sock == s.listen_sock then accept_one s w else recv_loop fuel s w cur_sock in
      and_then one (λ s' w'. handle_read_fds fuel s' w' readfds)

  -- `send_msg_ctrl_ptr_->TrySendMsg(writefds)`
  unfoldable pub send_ready : UdtServer → u.World → Set → Outcome
  send_ready s w writefds = elim (try_send_msg u s.send_msg_ctrl w writefds) [
    | SendMsgCtrl.returned c w' ↦ returned (record s { send_msg_ctrl = c }) w'
    | SendMsgCtrl.assert_failed c w' ↦ assert_failed
    | SendMsgCtrl.out_of_fuel ↦ out_of_fuel
  ]

  -- The branches of the loop of `Run` on what `epoll_wait` returned.
  unfoldable pub on_state : ℕ → UdtServer → u.World → Reply → Set → Set → Outcome
  unfolding handle_read_fds send_ready
  on_state fuel s w (error code) readfds writefds =
      if code == einvparam || code == econnlost
      then returned (record s { udt_running = false }) w
      else returned s w
  on_state fuel s w (ret zero) readfds writefds = returned s w
  on_state fuel s w (ret (suc n)) readfds writefds =
      and_then (handle_read_fds fuel s w readfds) (λ s' w'. send_ready s' w' writefds)

  -- One round of the loop of `Run`.
  unfoldable pub run_round : ℕ → UdtServer → u.World → Outcome
  unfolding on_state
  run_round fuel s w =
      let (ready, w') = u.epoll_wait w s.udt_eid 10 in
      on_state fuel s w' ready.reply ready.readfds ready.writefds

  -- The loop of `Run` over at most `rounds` rounds, as long as the server is to run.
  unfoldable pub run_loop : ℕ → ℕ → UdtServer → u.World → Outcome
  unfolding run_round
  run_loop zero fuel s w = returned s w
  run_loop (suc rounds) fuel s w = elim s.udt_running [
    | true ↦ and_then (run_round fuel s w) (λ s' w'. run_loop rounds fuel s' w')
    | false ↦ returned s w
  ]
