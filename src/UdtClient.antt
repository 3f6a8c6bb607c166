-- ===== src/UdtClient.antt =====
-- client_epoll/udt_client.h and udt_client.cpp: the client. Callers on any thread put messages into
-- the shared queue; the client's own thread grabs them and sends them over its socket, which it asks
-- an event poll to watch for writing while it has messages. Console output is left out.
pub mod Setup
pub mod Ledger
pub mod Logged
pub mod Sending
pub mod Turns
pub mod Receiving
pub mod Moves
pub mod Rounds
pub mod Sample
mod Tests
use udt_patch_for_epoll.Prelude.{
  ℕ, zero, suc, ◌*◌, ◌+◌, Bool, true, false, ◌||◌, none, some, List, [], ◌∷◌, ◌++◌, ◌==◌, ltb,
  if◌then◌else◌, length, take, drop,
}
use udt_patch_for_epoll.Std.Set.{Set, contains}
use udt_patch_for_epoll.SendMsgBuf.{Bytes, MsgPtr}
use udt_patch_for_epoll.ThreadsafeQueue
use udt_patch_for_epoll.ThreadsafeQueue.{ThreadsafeQueue, grab_all}
use udt_patch_for_epoll.Udt.{
  Udt, Reply, ret, error, invalid_handle, econnlost, einvparam, einvsock, easyncsnd, easyncrcv,
  epoll_in, epoll_out, epoll_err,
}

-- The class's fields. `called_with` lists the messages that `recv_callback_func_` was called with;
-- the callback is a caller's code, and `has_callback` says whether there is one.
pub record UdtClient : Type 0 where
  pub has_callback : Bool
  pub called_with : List Bytes
  pub send_msg_queue : ThreadsafeQueue MsgPtr
  pub send_msg_buff : List MsgPtr
  pub local_port : ℕ
  pub ip_connect_to : Bytes
  pub port_connect_to : ℕ
  pub sock : ℕ
  pub udtbuf : Bytes
  pub udtbuf_recved_len : ℕ
  pub udt_running : Bool
  pub udt_eid : ℕ

-- `sizeof(udtbuf_)`
abbrev pub udtbuf_size : ℕ
udtbuf_size = 1024 * 100

-- The local constants of `Run`.
abbrev pub event_only_read : ℕ
event_only_read = epoll_in + epoll_err

abbrev pub event_with_write : ℕ
event_with_write = epoll_in + epoll_err + epoll_out

-- `SendMsg`
unfoldable pub send_msg : UdtClient → MsgPtr → UdtClient
send_msg c msg = record c { send_msg_queue = ThreadsafeQueue.push c.send_msg_queue msg }

-- `SendMsgQueueSize`
unfoldable pub send_msg_queue_size : UdtClient → ℕ
send_msg_queue_size c = ThreadsafeQueue.size c.send_msg_queue

-- `RecvMsg`: an empty deque.
unfoldable pub recv_msg : UdtClient → List MsgPtr
recv_msg c = []

-- `TryGrabMsg`
unfoldable pub try_grab_msg : UdtClient → UdtClient
try_grab_msg c =
    let (grabbed, q) = grab_all c.send_msg_queue in
    record c { send_msg_buff = grabbed; send_msg_queue = q }

-- `std::queue::empty` and `pop` of `send_msg_buff_`.
abbrev pub is_empty : List MsgPtr → Bool
is_empty [] = true
is_empty (m ∷ ms) = false

abbrev pub pop : List MsgPtr → List MsgPtr
pop [] = []
pop (m ∷ ms) = ms

-- `recvmsg` writes to the front of the buffer.
abbrev pub written : Bytes → Bytes → Bytes
written new old = new ++ drop (length new) old

-- `if (recv_callback_func_) ... recv_callback_func_(recved_str);`
abbrev pub call_back : Bool → UdtClient → Bytes → UdtClient
call_back true c recved_str = record c { called_with = c.called_with ++ (recved_str ∷ []) }
call_back false c recved_str = c

module _ (u : Udt) where
  -- How a loop comes back: normally, after it dereferenced a null pointer, or (in the model alone)
  -- because it ran out of fuel.
  pub data Outcome : Type 0 where
    returned : UdtClient → u.World → Outcome
    null_dereferenced : Outcome
    out_of_fuel : Outcome

  abbrev pub and_then : Outcome → (UdtClient → u.World → Outcome) → Outcome
  and_then (returned c w) f = f c w
  and_then null_dereferenced f = null_dereferenced
  and_then out_of_fuel f = out_of_fuel

  -- The branches of `DoSendOneMsg` on the reply. Its result is 0, 1 or -1.
  unfoldable pub on_send_reply : UdtClient → Bytes → Reply × u.World → ℕ × UdtClient × u.World
  on_send_reply c msg (error code, w) =
      if code == easyncsnd then (0, c, w) else (invalid_handle, record c { udt_running = false }, w)
  on_send_reply c msg (ret n, w) =
      if n == length msg then (1, c, w) else (invalid_handle, record c { udt_running = false }, w)

  -- `DoSendOneMsg`
  unfoldable pub do_send_one_msg : UdtClient → u.World → Bytes → ℕ × UdtClient × u.World
  unfolding on_send_reply
  do_send_one_msg c w msg = on_send_reply c msg (u.sendmsg w c.sock msg)

  -- The switch of `TrySendMsg`; `again` is the rest of the loop.
  unfoldable pub on_send_ret : ℕ → UdtClient → u.World → (UdtClient → u.World → Outcome) → Outcome
  on_send_ret send_ret c w again =
      if send_ret == 0
      then returned c w
      else if send_ret == invalid_handle
      then returned c w
      else if send_ret == 1
      then again (record c { send_msg_buff = pop c.send_msg_buff }) w
      else returned (record c { udt_running = false }) w

  -- The loop of `TrySendMsg`.
  unfoldable pub send_loop : ℕ → UdtClient → u.World → Outcome
  unfolding do_send_one_msg on_send_ret
  send_loop zero c w = out_of_fuel
  send_loop (suc fuel) c w =
      let again = send_loop fuel in
      elim c.send_msg_buff [
        | [] ↦ returned c w
        | none ∷ ms ↦ null_dereferenced
        | some msg ∷ ms ↦
            (let (send_ret, c', w') = do_send_one_msg c w msg in on_send_ret send_ret c' w' again)
      ]

  -- `TrySendMsg`: each round but the last pops a message, which bounds the rounds.
  unfoldable pub try_send_msg : UdtClient → u.World → Set → Outcome
  unfolding send_loop
  try_send_msg c w writefds =
      if contains c.sock writefds
      then send_loop (suc (length c.send_msg_buff)) c w
      else returned c w

  -- The branches of `DoRecvMsg` on the reply.
  unfoldable pub on_recv_reply : UdtClient → u.World → ℕ → Reply → UdtClient × u.World
  on_recv_reply c w sock (error code) =
      if code == easyncrcv
      then (c, w)
      else if code == einvparam || code == econnlost || code == einvsock
      then (record c { udt_running = false }, (u.epoll_remove_usock w c.udt_eid sock).1)
      else (c, w)
  on_recv_reply c w sock (ret zero) = (c, w)
  on_recv_reply c w sock (ret (suc n)) =
      let c1 : UdtClient = record c { udtbuf_recved_len = suc n } in
      (call_back c1.has_callback c1 (take (suc n) c1.udtbuf), w)

  -- `DoRecvMsg`, with `bHaveMsgStill` as a result.
  unfoldable pub do_recv_msg : UdtClient → u.World → ℕ → Bool × UdtClient × u.World
  unfolding on_recv_reply
  do_recv_msg c w sock =
      let (r, w1) = u.recvmsg w sock udtbuf_size in
      let c1 : UdtClient = record c { udtbuf = written r.bytes c.udtbuf; udtbuf_recved_len = 0 } in
      let (c2, w2) = on_recv_reply c1 w1 sock r.reply in (r.have_msg_still, c2, w2)

  -- The `do ... while (bHaveMsgStill)` loop of `TryRecvMsg`.
  unfoldable pub recv_loop : ℕ → UdtClient → u.World → ℕ → Outcome
  unfolding do_recv_msg
  recv_loop zero c w sock = out_of_fuel
  recv_loop (suc fuel) c w sock =
      let (more, c', w') = do_recv_msg c w sock in
      elim more [ true ↦ recv_loop fuel c' w' sock | false ↦ returned c' w' ]

  -- `TryRecvMsg`, the sockets in ascending order; `fuel` is for the loop on the client's socket.
  unfoldable pub try_recv_msg : ℕ → UdtClient → u.World → Set → Outcome
  unfolding recv_loop
  try_recv_msg fuel c w [] = returned c w
  try_recv_msg fuel c w (cur_sock ∷ readfds) =
      let one = if cur_sock == c.sock then recv_loop fuel c w cur_sock else returned c w in
      and_then one (λ c' w'. try_recv_msg fuel c' w' readfds)

  -- The part of the loop of `Run` that watches the socket for writing, or stops to, with
  -- `b_event_only_read` before and after it.
  unfoldable pub update_events : UdtClient → Bool → u.World → Bool × u.World
  update_events c only_read w = elim (is_empty c.send_msg_buff) [
    | true ↦ elim only_read [
      | true ↦ (true, w)
      | false ↦
          (let (r, w1) = u.epoll_remove_usock w c.udt_eid c.sock in
            let (a, w2) = u.epoll_add_usock w1 c.udt_eid c.sock event_only_read in (true, w2))
    ]
    | false ↦ elim only_read [
      | true ↦ (let (a, w1) = u.epoll_add_usock w c.udt_eid c.sock event_with_write in (false, w1))
      | false ↦ (false, w)
    ]
  ]
