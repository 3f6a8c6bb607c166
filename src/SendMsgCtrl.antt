-- ===== src/SendMsgCtrl.antt =====
-- server_udt/send_msg_ctrl.h and send_msg_ctrl.cpp: the sender of the server. It queues messages
-- for each socket, and watches a socket for writing while it has messages to send.
-- The state is the object and the state of the UDT library; what is printed is left out.
pub mod Drain
pub mod Armed
pub mod Watch
mod Tests
use Prim.Native.Nat.{bit_or}
use udt_patch_for_epoll.Prelude.{
  ℕ, zero, suc, Bool, true, false, none, some, List, [], ◌∷◌, ◌==◌, if◌then◌else◌, length,
}
use udt_patch_for_epoll.Std.Set.{Set, contains, insert, erase}
use udt_patch_for_epoll.SendMsgBuf.{
  Bytes, MsgPtr, SendMsgBuf, empty_buf, get_msg_queue, peek_front_msg, pop_msg, add_msg,
}
use udt_patch_for_epoll.SendMsgBuf
use udt_patch_for_epoll.Udt.{Udt, Reply, ret, error, epoll_in, epoll_out, epoll_err, easyncsnd}

-- The static variables `event_with_write` and `event_only_read`.
abbrev pub event_with_write : ℕ
event_with_write = bit_or (bit_or epoll_in epoll_err) epoll_out

abbrev pub event_only_read : ℕ
event_only_read = bit_or epoll_in epoll_err

-- The class's fields.
pub record SendMsgCtrl : Type 0 where
  pub udt_eid : ℕ
  pub events_with_write : Set
  pub send_msg_buf : SendMsgBuf

-- The constructor.
unfoldable pub new_ctrl : ℕ → SendMsgCtrl
new_ctrl eid = record { udt_eid = eid; events_with_write = []; send_msg_buf = empty_buf }

-- `IsWriteEventAdd`
unfoldable pub is_write_event_add : SendMsgCtrl → ℕ → Bool
is_write_event_add c sock = contains sock c.events_with_write

-- `CleanMsg`
unfoldable pub clean_msg : SendMsgCtrl → ℕ → SendMsgCtrl
clean_msg c sock = record c { send_msg_buf = SendMsgBuf.clean_msg c.send_msg_buf sock }

-- `CleanAll`, whose body is empty.
unfoldable pub clean_all : SendMsgCtrl → SendMsgCtrl
clean_all c = c

module _ (u : Udt) where
  abbrev pub State : Type 0
  State = SendMsgCtrl × u.World

  -- How a method that sends comes back: normally, by a failed `assert`, or (in the model alone)
  -- because its loop ran out of fuel.
  pub data Outcome : Type 0 where
    returned : SendMsgCtrl → u.World → Outcome
    assert_failed : SendMsgCtrl → u.World → Outcome
    out_of_fuel : Outcome

  -- `AddWriteEvent`
  unfoldable pub add_write_event : SendMsgCtrl → u.World → ℕ → State
  add_write_event c w sock =
      let (r, w') = u.epoll_add_usock w c.udt_eid sock event_with_write in
      (record c { events_with_write = insert sock c.events_with_write }, w')

  -- `TryRemoveWriteEvent`
  unfoldable pub try_remove_write_event : SendMsgCtrl → u.World → ℕ → State
  unfolding is_write_event_add
  try_remove_write_event c w sock =
      if is_write_event_add c sock
      then (let (r, w1) = u.epoll_remove_usock w c.udt_eid sock in
          let (r', w2) = u.epoll_add_usock w1 c.udt_eid sock event_only_read in
          (record c { events_with_write = erase sock c.events_with_write }, w2))
      else (c, w)

  -- `AddMsgToSendBuf`
  unfoldable pub add_msg_to_send_buf : SendMsgCtrl → u.World → ℕ → MsgPtr → State
  unfolding is_write_event_add add_write_event
  add_msg_to_send_buf c w sock msg =
      let c' : SendMsgCtrl = record c { send_msg_buf = add_msg c.send_msg_buf sock msg } in
      if is_write_event_add c' sock then (c', w) else add_write_event c' w sock

  -- `HandleSendMsgError`
  unfoldable pub handle_send_msg_error : SendMsgCtrl → u.World → ℕ → State
  unfolding clean_msg
  handle_send_msg_error c w sock =
      let (r, w') = u.epoll_remove_usock w c.udt_eid sock in
      let c' = clean_msg c sock in
      (record c' { events_with_write = erase sock c'.events_with_write }, w')

  abbrev done : State → Outcome
  done (c, w) = returned c w

  -- One round of `while (true)` after a message was found; `again` is the loop's next round.
  unfoldable pub after_send :
      SendMsgCtrl → ℕ → Bytes → Reply × u.World → (SendMsgCtrl → u.World → Outcome) → Outcome
  unfolding handle_send_msg_error
  after_send c sock msg (error code, w) again =
      if code == easyncsnd then returned c w else done (handle_send_msg_error c w sock)
  after_send c sock msg (ret n, w) again =
      if n == length msg
      then again (record c { send_msg_buf = pop_msg c.send_msg_buf sock }) w
      else assert_failed c w

  -- The loop of `TrySendMsgOfOneSock`.
  unfoldable pub send_loop : ℕ → ℕ → SendMsgCtrl → u.World → Outcome
  unfolding after_send try_remove_write_event
  send_loop zero sock c w = out_of_fuel
  send_loop (suc fuel) sock c w =
      let again = send_loop fuel sock in
      elim (peek_front_msg c.send_msg_buf sock) [
        | none ↦ done (try_remove_write_event c w sock)
        | some msg ↦ after_send c sock msg (u.sendmsg w sock msg) again
      ]

  -- `TrySendMsgOfOneSock`: each round but the last pops a message, which bounds the rounds.
  unfoldable pub try_send_msg_of_one_sock : SendMsgCtrl → u.World → ℕ → Outcome
  unfolding send_loop
  try_send_msg_of_one_sock c w sock =
      send_loop (suc (length (get_msg_queue c.send_msg_buf sock))) sock c w

  -- What follows a call that may not come back.
  abbrev pub and_then : Outcome → (SendMsgCtrl → u.World → Outcome) → Outcome
  and_then (returned c w) f = f c w
  and_then (assert_failed c w) f = assert_failed c w
  and_then out_of_fuel f = out_of_fuel

  -- `TrySendMsg`: the sockets of the set in ascending order.
  unfoldable pub try_send_msg : SendMsgCtrl → u.World → Set → Outcome
  unfolding try_send_msg_of_one_sock
  try_send_msg c w [] = returned c w
  try_send_msg c w (sock ∷ writefds) =
      and_then (try_send_msg_of_one_sock c w sock) (λ c' w'. try_send_msg c' w' writefds)
