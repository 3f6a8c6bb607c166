-- ===== src/UdtServer/Setup.antt =====
-- server_udt/udt_server.cpp: the constructor, `CreateListenSocket`, and `Run` around its loop.
use udt_patch_for_epoll.Prelude.{ℕ, ◌≡◌, Bool, true, false, not, ◌&&◌, arith}
use udt_patch_for_epoll.SendMsgBuf.{Bytes}
use udt_patch_for_epoll.Udt.{
  Udt, ret, error, invalid_handle, handle_of, is_error, udt_sndsyn, udt_rcvsyn, udt_sndbuf,
  udt_rcvbuf, udt_rendezvous, udt_reuseaddr,
}
use udt_patch_for_epoll.SendMsgCtrl.{new_ctrl, clean_all}
use udt_patch_for_epoll.UdtServer.{UdtServer, Outcome, returned, and_then, read_event, run_loop}

-- The constructor. `send_msg_ctrl_ptr_` is null until `Run` sets it; nothing reads it before.
unfoldable pub new_server : Bytes → UdtServer
new_server garbage = record {
  listen_sock = invalid_handle;
  udtbuf = garbage;
  udtbuf_recved_len = 0;
  udt_running = false;
  udt_eid = invalid_handle;
  send_msg_ctrl = new_ctrl invalid_handle;
}

module _ (u : Udt) where
  -- The `setopt` block: both directions non-blocking, buffers of 93440 bytes, the address to be
  -- reused, no rendezvous.
  unfoldable pub set_options : u.World → ℕ → u.World
  set_options w sock =
      let (r1, w1) = u.setsockopt w sock udt_sndsyn 0 in
      let (r2, w2) = u.setsockopt w1 sock udt_rcvsyn 0 in
      let (r3, w3) = u.setsockopt w2 sock udt_sndbuf 93440 in
      let (r4, w4) = u.setsockopt w3 sock udt_rcvbuf 93440 in
      let (r5, w5) = u.setsockopt w4 sock udt_reuseaddr 1 in
      let (r6, w6) = u.setsockopt w5 sock udt_rendezvous 0 in w6

  -- `bind`, then `listen` with a backlog of 20. The Boolean says whether the function returns 0.
  unfoldable pub bind_and_listen : u.World → ℕ → ℕ → Bool × u.World
  bind_and_listen w sock port =
      let (b, w1) = u.bind w sock port in
      elim b [
        | error code ↦ (false, w1)
        | ret n ↦
            (let (l, w2) = u.listen w1 sock 20 in
              elim l [ error code ↦ (false, w2) | ret k ↦ (true, w2) ])
      ]

  -- `CreateListenSocket`
  unfoldable pub create_listen_socket : UdtServer → u.World → ℕ → Bool × UdtServer × u.World
  unfolding set_options bind_and_listen
  create_listen_socket s w port =
      let (r, w1) = u.socket w in
      let s1 : UdtServer = record s { listen_sock = handle_of r } in
      elim r [
        | error code ↦ (false, s1, w1)
        | ret sock ↦ (let (b, w2) = bind_and_listen (set_options w1 sock) sock port in (b, s1, w2))
      ]

  -- `Run` up to its loop. Like the source it goes on whatever `CreateListenSocket` returned.
  unfoldable pub start : UdtServer → u.World → ℕ → UdtServer × u.World
  unfolding create_listen_socket
  start s w listen_port =
      let (created, s1, w1) =
        create_listen_socket (record s { udt_running = false }) w listen_port in
      let (e, w2) = u.epoll_create w1 in
      let eid = handle_of e in
      let (a, w3) = u.epoll_add_usock w2 eid s1.listen_sock read_event in
      (record s1 { udt_running = true; udt_eid = eid; send_msg_ctrl = new_ctrl eid }, w3)

  -- `Run` after its loop.
  unfoldable pub shut_down : UdtServer → u.World → Outcome u
  shut_down s w =
      let (r, w1) = u.epoll_release w s.udt_eid in
      let (c, w2) = u.close w1 s.listen_sock in
      returned (record s { send_msg_ctrl = clean_all s.send_msg_ctrl }) w2

  -- `Run`, with at most `rounds` rounds of its loop.
  unfoldable pub run : ℕ → ℕ → UdtServer → u.World → ℕ → Outcome u
  unfolding start shut_down run_loop
  run rounds fuel s w listen_port =
      let (s1, w1) = start s w listen_port in and_then u (run_loop u rounds fuel s1 w1) shut_down

  -- `CreateListenSocket` reports success exactly when `socket`, `bind` and `listen` all succeed, and
  -- the socket that it binds and listens on is the one that it created and keeps.
  pub create_listen_socket_ok :
      (s : UdtServer) (w : u.World) (port : ℕ)
      → let (r, w1) = u.socket w in
        let sock = handle_of r in
        let (b, w2) = u.bind (set_options w1 sock) sock port in
        let (l, w3) = u.listen w2 sock 20 in
        ((create_listen_socket s w port).0
          ≡ (not (is_error r) && not (is_error b) && not (is_error l)))
        × ((create_listen_socket s w port).1.listen_sock ≡ sock)
  unfolding create_listen_socket
  create_listen_socket_ok s w port = ground arith

  -- If no socket can be created, `Run` enters its loop all the same, with the invalid handle as
  -- the listening socket.
  pub start_without_socket :
      (s : UdtServer) (w w1 : u.World) (port code : ℕ)
      → u.socket w ≡ (error code, w1)
      → ((create_listen_socket s w port).0 ≡ false)
        × ((start s w port).0.udt_running ≡ true)
        × ((start s w port).0.listen_sock ≡ invalid_handle)
  unfolding start
  start_without_socket s w w1 port code e = ground arith
