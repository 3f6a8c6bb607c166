-- ===== src/UdtServer/ReadLoop.antt =====
-- server_udt/udt_server.cpp: the read loop on a socket, in `HandleReadFds`.
use udt_patch_for_epoll.Prelude.{
  ℕ, zero, suc, ◌≡◌, ◌⊎◌, refl, sym, ◌∙◌, List, [], ◌++◌, Bool-cases, inl, inr,
}
use udt_patch_for_epoll.SendMsgBuf.{Bytes, get_msg_queue}
use udt_patch_for_epoll.Udt.{FillsBuffer, Udt}
use udt_patch_for_epoll.SendMsgCtrl.Armed.{IsArmed}
use udt_patch_for_epoll.UdtServer.{
  UdtServer, Outcome, returned, out_of_fuel, udtbuf_size, recv_msg, queue_received, recv_loop,
}
use udt_patch_for_epoll.UdtServer.Echo.{
  Takes, finished, Spins, not_asked, once_more, with_added, with_added_none, with_added_twice,
  Round, reply-Round,
}

module _ (u : Udt) where
  module _ (sock : ℕ) where
    -- The loop came back, having taken the messages `ms`: they are what `recvmsg` gave, and they
    -- stand behind what was queued for the socket. Nothing else is queued or lost.
    pub record Echoed (s : UdtServer) (w : u.World) (o : Outcome u) : Type 0 where
      pub server : UdtServer
      pub world : u.World
      pub ms : List Bytes
      pub returns : o ≡ returned server world
      pub takes : Takes u sock world w ms
      pub queued :
          get_msg_queue server.send_msg_ctrl.send_msg_buf
          ≡ with_added (get_msg_queue s.send_msg_ctrl.send_msg_buf) sock ms
      pub armed : IsArmed server.send_msg_ctrl
      pub same_listen : server.listen_sock ≡ s.listen_sock

    one-Round :
        (s : UdtServer) (w : u.World)
        → FillsBuffer u
        → IsArmed s.send_msg_ctrl
        → let (more, s1, w1) = recv_msg u s w sock in
          let (s2, w2) = queue_received u s1 w1 sock in
          Round u sock s w (u.recvmsg w sock udtbuf_size).1 s2 w2
    unfolding recv_msg
    one-Round s w law v = reply-Round u sock s w _ _ _ law refl refl v

    more_reported :
        (s : UdtServer) (w : u.World)
        → (recv_msg u s w sock).0 ≡ (u.recvmsg w sock udtbuf_size).0.have_msg_still
    unfolding recv_msg
    more_reported s w = refl

    after-Round :
        (s : UdtServer) (w taken : u.World) (s2 : UdtServer) (w2 : u.World) (o : Outcome u)
        → Round u sock s w taken s2 w2
        → Echoed s2 w2 o
        → Echoed s w o
    after-Round s w taken s2 w2 o r t = record {
      server = t.server;
      world = t.world;
      ms = r.ms ++ t.ms;
      returns = t.returns;
      takes = r.before t.world t.ms t.takes;
      queued =
          with_added_twice (get_msg_queue s.send_msg_ctrl.send_msg_buf)
            (get_msg_queue s2.send_msg_ctrl.send_msg_buf)
            (get_msg_queue t.server.send_msg_ctrl.send_msg_buf) sock r.ms t.ms r.queued t.queued;
      armed = t.armed;
      same_listen = t.same_listen ∙ r.same_listen;
    }

    last-Round :
        (s : UdtServer) (w taken : u.World) (s2 : UdtServer) (w2 : u.World)
        → Round u sock s w taken s2 w2
        → Echoed s2 w2 (returned s2 w2)
    last-Round s w taken s2 w2 r = record {
      server = s2;
      world = w2;
      ms = [];
      returns = refl;
      takes = finished refl;
      queued = with_added_none (get_msg_queue s2.send_msg_ctrl.send_msg_buf) sock;
      armed = r.armed;
      same_listen = refl;
    }

    -- The loop came back, or all its fuel went into calls that reported messages left.
    abbrev pub EchoedOrSpins : ℕ → UdtServer → u.World → Outcome u → Type 0
    EchoedOrSpins fuel s w o = Echoed s w o ⊎ ((o ≡ out_of_fuel) × Spins u sock fuel w)

    -- The read loop on a socket, whatever number of rounds it may take: if `recvmsg` reports the sizes
    -- that it wrote, and the sender satisfies its invariant, the loop comes back, unless `recvmsg`
    -- said at every one of these rounds that messages are left. When it comes back, it took messages
    -- from the library and queued exactly those for the socket, in order, behind what was queued;
    -- and the sender keeps its invariant.
    pub recv_loop_echoes :
        (fuel : ℕ) (s : UdtServer) (w : u.World)
        → FillsBuffer u
        → IsArmed s.send_msg_ctrl
        → EchoedOrSpins fuel s w (recv_loop u fuel s w sock)
    unfolding recv_loop
    recv_loop_echoes zero s w law v = inr (refl, not_asked)
    recv_loop_echoes (suc fuel) s w law v =
        let r = one-Round s w law v in
        elim (Bool-cases (recv_msg u s w sock).0) [
          | inl t ↦
              rw (t, recv_loop)
                (elim (recv_loop_echoes fuel _ _ law r.armed) [
                  | inl e ↦ inl (after-Round _ _ _ _ _ _ r e)
                  | inr (o, k) ↦ inr (o, once_more _ (sym (more_reported s w) ∙ t) r.between k)
                ])
          | inr t ↦ rw (t, recv_loop) (inl (after-Round _ _ _ _ _ _ r (last-Round _ _ _ _ _ r)))
        ]
