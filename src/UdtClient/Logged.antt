-- ===== src/UdtClient/Logged.antt =====
-- A library with a log of the messages that it took beside its state, which is a ledger.
use udt_patch_for_epoll.Prelude.{refl, List}
use udt_patch_for_epoll.SendMsgBuf.{Bytes}
use udt_patch_for_epoll.Udt.{Udt, Reply}
use udt_patch_for_epoll.UdtClient.Ledger.{Ledger, sent_after}

module _ (u : Udt) where
  pub record LoggedWorld : Type 0 where
    pub log : List Bytes
    pub world : u.World

  -- A call that sends nothing.
  abbrev quiet {ℓ} : {R : Type ℓ} → List Bytes → R × u.World → R × LoggedWorld
  quiet log (r, w) = (r, record { log = log; world = w })

  abbrev noted : List Bytes → Bytes → Reply × u.World → Reply × LoggedWorld
  noted log msg (r, w) = (r, record { log = sent_after log msg r; world = w })

  abbrev pub logged : Udt
  logged = record {
    World = LoggedWorld;
    sendmsg = λ w sock msg. noted w.log msg (u.sendmsg w.world sock msg);
    recvmsg = λ w sock len. quiet w.log (u.recvmsg w.world sock len);
    socket = λ w. quiet w.log (u.socket w.world);
    setsockopt = λ w sock opt v. quiet w.log (u.setsockopt w.world sock opt v);
    bind = λ w sock port. quiet w.log (u.bind w.world sock port);
    listen = λ w sock backlog. quiet w.log (u.listen w.world sock backlog);
    connect = λ w sock ip port. quiet w.log (u.connect w.world sock ip port);
    accept = λ w sock. quiet w.log (u.accept w.world sock);
    epoll_create = λ w. quiet w.log (u.epoll_create w.world);
    epoll_add_usock = λ w eid sock events. quiet w.log (u.epoll_add_usock w.world eid sock events);
    epoll_remove_usock = λ w eid sock. quiet w.log (u.epoll_remove_usock w.world eid sock);
    epoll_wait = λ w eid ms. quiet w.log (u.epoll_wait w.world eid ms);
    epoll_release = λ w eid. quiet w.log (u.epoll_release w.world eid);
    close = λ w sock. quiet w.log (u.close w.world sock);
  }

  abbrev pub logged_ledger : Ledger logged
  logged_ledger = record {
    sent = λ w. w.log;
    sendmsg_writes = λ w sock msg. refl;
    recvmsg_keeps = λ w sock len. refl;
    epoll_create_keeps = λ w. refl;
    epoll_wait_keeps = λ w eid ms. refl;
    epoll_add_keeps = λ w eid sock events. refl;
    epoll_remove_keeps = λ w eid sock. refl;
  }
