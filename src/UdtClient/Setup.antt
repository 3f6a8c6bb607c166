-- ===== src/UdtClient/Setup.antt =====
-- client_epoll/udt_client.cpp: the constructor, `CreateSocket`, `Connect`, `Start` and `Run`.
use udt_patch_for_epoll.Prelude.{
  ℕ, zero, suc, Bool, true, false, ◌||◌, List, [], ◌∷◌, ◌==◌, if◌then◌else◌,
}
use udt_patch_for_epoll.Std.Set.{Set}
use udt_patch_for_epoll.SendMsgBuf.{Bytes, MsgPtr}
use udt_patch_for_epoll.ThreadsafeQueue.{new_queue}
use udt_patch_for_epoll.Udt.{
  Udt, Reply, ret, error, invalid_handle, handle_of, udt_sndsyn, udt_rcvsyn, udt_sndbuf, udt_rcvbuf,
  udt_rendezvous, udt_reuseaddr, econnlost, einvparam,
}
use udt_patch_for_epoll.UdtClient.{
  UdtClient, Outcome, returned, null_dereferenced, out_of_fuel, and_then, is_empty, send_msg,
  try_grab_msg, try_send_msg, try_recv_msg, update_events, event_only_read,
}

-- The constructor; `garbage` is what the buffer holds.
unfoldable pub new_client : Bytes → ℕ → Bytes → ℕ → Bool → UdtClient
new_client garbage local_port ip port has_callback = record {
  has_callback = has_callback;
  called_with = [];
  send_msg_queue = new_queue;
  send_msg_buff = [];
  local_port = local_port;
  ip_connect_to = ip;
  port_connect_to = port;
  sock = invalid_handle;
  udtbuf = garbage;
  udtbuf_recved_len = 0;
  udt_running = false;
  udt_eid = invalid_handle;
}

-- What other threads pass to `SendMsg`.
abbrev pub send_all : UdtClient → List MsgPtr → UdtClient
send_all c [] = c
send_all c (m ∷ ms) = send_all (send_msg c m) ms

-- `if (send_msg_buff_.empty()) TryGrabMsg();`
unfoldable pub grab_if_empty : UdtClient → UdtClient
grab_if_empty c = if is_empty c.send_msg_buff then try_grab_msg c else c

module _ (u : Udt) where
  -- The `setopt` block of `CreateSocket`.
  unfoldable pub set_options : u.World → ℕ → u.World
  set_options w sock =
      let (r1, w1) = u.setsockopt w sock udt_sndsyn 0 in
      let (r2, w2) = u.setsockopt w1 sock udt_rcvsyn 0 in
      let (r3, w3) = u.setsockopt w2 sock udt_sndbuf 93440 in
      let (r4, w4) = u.setsockopt w3 sock udt_rcvbuf 93440 in
      let (r5, w5) = u.setsockopt w4 sock udt_reuseaddr 1 in
      let (r6, w6) = u.setsockopt w5 sock udt_rendezvous 0 in w6

  -- `CreateSocket`. The Boolean says whether it returns 0.
  unfoldable pub create_socket : UdtClient → u.World → Bool × UdtClient × u.World
  unfolding set_options
  create_socket c w =
      let (r, w1) = u.socket w in
      let c1 : UdtClient = record c { sock = handle_of r } in
      elim r [
        | error code ↦ (false, c1, w1)
        | ret sock ↦
            (let (b, w2) = u.bind (set_options w1 sock) sock c.local_port in
              elim b [ error code ↦ (false, c1, w2) | ret n ↦ (true, c1, w2) ])
      ]

  -- `Connect`
  unfoldable pub connect : UdtClient → u.World → Bool × u.World
  connect c w =
      let (r, w1) = u.connect w c.sock c.ip_connect_to c.port_connect_to in
      elim r [ error code ↦ (false, w1) | ret n ↦ (true, w1) ]

  -- `Start` up to the thread that it starts: the Boolean says whether it starts one and returns 1.
  -- Like the source it connects whatever `CreateSocket` returned.
  unfoldable pub start : UdtClient → u.World → Bool × UdtClient × u.World
  unfolding create_socket connect
  start c w =
      let (created, c1, w1) = create_socket (record c { udt_running = false }) w in
      let (connected, w2) = connect c1 w1 in (connected, c1, w2)

  -- `Run` up to its loop, where `b_event_only_read` is true.
  unfoldable pub run_setup : UdtClient → u.World → UdtClient × u.World
  run_setup c w =
      let (e, w1) = u.epoll_create w in
      let eid = handle_of e in
      let (a, w2) = u.epoll_add_usock w1 eid c.sock event_only_read in
      (record c { udt_running = true; udt_eid = eid }, w2)

  -- The loop of `Run` after the events were updated: send, then receive if there was an event.
  unfoldable pub send_and_recv : ℕ → ℕ → Set → Set → UdtClient → u.World → Outcome u
  send_and_recv fuel state readfds writefds c w =
      and_then u (try_send_msg u c w writefds)
        (λ c' w'. elim state [ zero ↦ returned c' w' | suc n ↦ try_recv_msg u fuel c' w' readfds ])

  -- A round of the loop of `Run` on what `epoll_wait` gave, with `b_event_only_read` before it; the
  -- result has it as it is after the round.
  unfoldable pub on_state : ℕ → UdtClient → Bool → u.World → Reply → Set → Set → Bool × Outcome u
  unfolding send_and_recv
  on_state fuel c only_read w (error code) readfds writefds = (
    only_read,
    if code == einvparam || code == econnlost
        then returned (record c { udt_running = false }) w
        else returned c w,
  )
  on_state fuel c only_read w (ret state) readfds writefds =
      let c1 = grab_if_empty c in
      let (only_read', w1) = update_events u c1 only_read w in
      (only_read', send_and_recv fuel state readfds writefds c1 w1)

  -- What follows a round.
  abbrev pub then_round :
      Bool × Outcome u → (Bool → UdtClient → u.World → Bool × Outcome u) → Bool × Outcome u
  then_round (only_read, returned c w) f = f only_read c w
  then_round (only_read, null_dereferenced) f = (only_read, null_dereferenced)
  then_round (only_read, out_of_fuel) f = (only_read, out_of_fuel)

  -- One test of the loop's condition and, if it holds, one round. `ms` is what other threads passed to
  -- `SendMsg` since the round before, or after the loop ended.
  unfoldable pub round :
      (running : Bool) (fuel : ℕ) (c : UdtClient) (only_read : Bool) (w : u.World)
      (ms : List MsgPtr) (again : Bool → UdtClient → u.World → Bool × Outcome u)
      → Bool × Outcome u
  round false fuel c only_read w ms again = again only_read (send_all c ms) w
  round true fuel c only_read w ms again =
      let (ready, w1) = u.epoll_wait w c.udt_eid 1 in
      then_round
        (on_state fuel (send_all c ms) only_read w1 ready.reply ready.readfds ready.writefds) again

  -- The loop of `Run`, which makes at most as many rounds as the schedule of the other threads'
  -- calls of `SendMsg` has elements.
  unfoldable pub run_loop : ℕ → UdtClient → Bool → u.World → List (List MsgPtr) → Bool × Outcome u
  unfolding round
  run_loop fuel c only_read w [] = (only_read, returned c w)
  run_loop fuel c only_read w (ms ∷ schedule) =
      round c.udt_running fuel c only_read w ms
        (λ only_read' c2 w2. run_loop fuel c2 only_read' w2 schedule)

  -- `Run` after its loop.
  unfoldable pub shut_down : UdtClient → u.World → u.World
  shut_down c w = let (r, w1) = u.epoll_release w c.udt_eid in let (k, w2) = u.close w1 c.sock in w2
