-- ===== src/SendMsgCtrl/Tests.antt =====
-- Runs of the sender with the small library, and its theorems at such runs.
use udt_patch_for_epoll.Prelude.{
  ℕ, ◌≡◌, refl, ap, Option, none, some, List, [], ◌∷◌, ◌==◌, ◌&&◌, if◌then◌else◌,
}
use udt_patch_for_epoll.Std.Map
use udt_patch_for_epoll.Std.Map.{lookup}
use udt_patch_for_epoll.SendMsgBuf.{Bytes, get_msg_queue, peek_front_msg, pop_msg}
use udt_patch_for_epoll.Udt.{Udt, Reply, SendsWhole}
use udt_patch_for_epoll.Udt.Toy.{World, none_waiting, toy, toy-SendsWhole}
use udt_patch_for_epoll.SendMsgCtrl.{
  SendMsgCtrl, new_ctrl, returned, try_send_msg_of_one_sock, send_loop,
}
use udt_patch_for_epoll.SendMsgCtrl.Drain.{Drained, try_send_msg_of_one_sock-Drained}
use udt_patch_for_epoll.SendMsgCtrl.Watch.{
  EpollLedger, Call, add, clean, try, run, ReturnsWatching, run-watches,
}

-- Room for one more message; then the library blocks.
abbrev tight : World
tight = record { space = 1; inbox = none_waiting }

abbrev messages : List Bytes
messages = (1 ∷ 2 ∷ []) ∷ (3 ∷ []) ∷ []

-- Socket 5 with two messages.
abbrev two_queued : SendMsgCtrl
two_queued = record {
  udt_eid = 7;
  events_with_write = 5 ∷ [];
  send_msg_buf = (5, some (1 ∷ 2 ∷ []) ∷ some (3 ∷ []) ∷ []) ∷ [];
}

-- The first message is sent, the second stays.
sends_one :
    try_send_msg_of_one_sock toy two_queued tight 5
    ≡ returned
        (record two_queued { send_msg_buf = (5, some (3 ∷ []) ∷ []) ∷ [] })
        (record tight { space = 0 })
unfolding try_send_msg_of_one_sock send_loop get_msg_queue peek_front_msg pop_msg lookup Map.insert
    Map.erase
sends_one = refl

try_send_msg_of_one_sock-Drained_example :
    Drained toy 5 two_queued tight messages (try_send_msg_of_one_sock toy two_queued tight 5)
unfolding get_msg_queue lookup
try_send_msg_of_one_sock-Drained_example =
    try_send_msg_of_one_sock-Drained toy 5 two_queued tight messages refl

abbrev calls : List Call
calls = add 5 (1 ∷ 2 ∷ []) ∷ add 5 (3 ∷ []) ∷ try (5 ∷ []) ∷ clean 6 ∷ []

-- The small library with a record of what was asked of its epolls.
record AskedWorld : Type 0 where
  asked : ℕ → ℕ → Option ℕ
  world : World

abbrev beside : (ℕ → ℕ → Option ℕ) → Reply × World → Reply × AskedWorld
beside asked (r, w) = (r, record { asked = asked; world = w })

abbrev now_asked : (ℕ → ℕ → Option ℕ) → ℕ → ℕ → Option ℕ → ℕ → ℕ → Option ℕ
now_asked asked eid sock o = λ e s. if eid == e && sock == s then o else asked e s

abbrev same_asked {ℓ} : {R : Type ℓ} → AskedWorld → R × World → R × AskedWorld
same_asked w (r, w') = (r, record { asked = w.asked; world = w' })

abbrev asking : Udt
asking = record {
  World = AskedWorld;
  sendmsg = λ w sock msg. same_asked w (toy.sendmsg w.world sock msg);
  recvmsg = λ w sock len. same_asked w (toy.recvmsg w.world sock len);
  socket = λ w. same_asked w (toy.socket w.world);
  setsockopt = λ w sock opt v. same_asked w (toy.setsockopt w.world sock opt v);
  bind = λ w sock port. same_asked w (toy.bind w.world sock port);
  listen = λ w sock backlog. same_asked w (toy.listen w.world sock backlog);
  connect = λ w sock ip port. same_asked w (toy.connect w.world sock ip port);
  accept = λ w sock. same_asked w (toy.accept w.world sock);
  epoll_create = λ w. same_asked w (toy.epoll_create w.world);
  epoll_add_usock = λ w eid sock events.
      beside (now_asked w.asked eid sock (some events))
        (toy.epoll_add_usock w.world eid sock events);
  epoll_remove_usock = λ w eid sock.
      beside (now_asked w.asked eid sock none) (toy.epoll_remove_usock w.world eid sock);
  epoll_wait = λ w eid ms. same_asked w (toy.epoll_wait w.world eid ms);
  epoll_release = λ w eid. same_asked w (toy.epoll_release w.world eid);
  close = λ w sock. same_asked w (toy.close w.world sock);
}

abbrev asking_ledger : EpollLedger asking
asking_ledger = record {
  asked = λ w. w.asked;
  add_asks = λ w eid sock events e s. refl;
  remove_asks = λ w eid sock e s. refl;
  sendmsg_keeps = λ w sock msg e s. refl;
}

asking-SendsWhole : SendsWhole asking
asking-SendsWhole w w' sock msg n e =
    toy-SendsWhole w.world w'.world sock msg n (ap (λ (x : Reply × AskedWorld). (x.0, x.1.world)) e)

abbrev not_asked : AskedWorld
not_asked = record { asked = λ e s. none; world = tight }

run-watches_example :
    ReturnsWatching asking asking_ledger 7 (run asking (new_ctrl 7) not_asked calls)
run-watches_example = run-watches asking asking_ledger 7 calls not_asked asking-SendsWhole
