-- ===== src/Udt/Toy.antt =====
-- A small library for the tests: at most two messages wait to be received, and a number of sends
-- succeed before the send buffer is full. It shows that what the theorems assume of UDT can hold.
use udt_patch_for_epoll.Prelude.{ℕ, zero, suc, ◌≡◌, Bool, true, false, [], ◌∷◌, arith, length}
use udt_patch_for_epoll.SendMsgBuf.{Bytes}
use udt_patch_for_epoll.Udt.{
  Udt, Reply, ret, error, Received, SendsWhole, FillsBuffer, easyncsnd, easyncrcv,
}

pub data Inbox : Type 0 where
  none_waiting : Inbox
  one_waiting : Bytes → Inbox
  two_waiting : Bytes → Bytes → Inbox

pub record World : Type 0 where
  pub space : ℕ
  pub inbox : Inbox

abbrev pub send_in : ℕ → World → Bytes → Reply × World
send_in zero w msg = (error easyncsnd, w)
send_in (suc n) w msg = (ret (length msg), record w { space = n })

abbrev got : Bytes → Bool → Received
got m more = record { reply = ret (length m); bytes = m; have_msg_still = more }

abbrev pub receive_in : Inbox → World → Received × World
receive_in none_waiting w =
    (record { reply = error easyncrcv; bytes = []; have_msg_still = false }, w)
receive_in (one_waiting m) w = (got m false, record w { inbox = none_waiting })
receive_in (two_waiting m n) w = (got m true, record w { inbox = one_waiting n })

abbrev fine : World → Reply × World
fine w = (ret 7, w)

-- Socket 7 and epoll 7; socket 5 is the one with messages.
abbrev pub toy : Udt
toy = record {
  World = World;
  sendmsg = λ w sock msg. send_in w.space w msg;
  recvmsg = λ w sock len. receive_in w.inbox w;
  socket = fine;
  setsockopt = λ w sock opt v. fine w;
  bind = λ w sock port. fine w;
  listen = λ w sock backlog. fine w;
  connect = λ w sock ip port. fine w;
  accept = λ w sock. fine w;
  epoll_create = fine;
  epoll_add_usock = λ w eid sock events. fine w;
  epoll_remove_usock = λ w eid sock. fine w;
  epoll_wait = λ w eid ms. (record { reply = ret 2; readfds = 5 ∷ []; writefds = 5 ∷ [] }, w);
  epoll_release = λ w eid. fine w;
  close = λ w sock. fine w;
}

send_in_whole :
    (space : ℕ) (w w' : World) (msg : Bytes) (n : ℕ)
    → send_in space w msg ≡ (ret n, w')
    → n ≡ length msg
send_in_whole zero w w' msg n e = ground arith
send_in_whole (suc k) w w' msg n e = ground arith

pub toy-SendsWhole : SendsWhole toy
toy-SendsWhole w w' sock msg n e = send_in_whole w.space w w' msg n e

pub receive_in_fills :
    (i : Inbox) (w w' : World) (n : ℕ) (r : Received)
    → receive_in i w ≡ (r, w')
    → r.reply ≡ ret n
    → n ≡ length r.bytes
receive_in_fills none_waiting w w' n r e h = ground arith
receive_in_fills (one_waiting m) w w' n r e h = ground arith
receive_in_fills (two_waiting m k) w w' n r e h = ground arith

pub toy-FillsBuffer : FillsBuffer toy
toy-FillsBuffer w w' sock len n r e h = receive_in_fills w.inbox w w' n r e h
