-- ===== src/SockEpoll/Tests.antt =====
-- A socket with one epoll, and the theorems at such a state.
use udt_patch_for_epoll.Prelude.{◌≡◌, refl, true, false, some, List, [], ◌∷◌, arith, length}
use udt_patch_for_epoll.Std.Set.{contains}
use udt_patch_for_epoll.Std.Map.{lookup}
use udt_patch_for_epoll.SendMsgBuf.{Bytes}
use udt_patch_for_epoll.Udt.{easyncrcv}
use udt_patch_for_epoll.Epoll.{EpollDesc, Epoll}
use udt_patch_for_epoll.SockEpoll.{
  MsgBuffer, Socket, Lib, locate, epoll_add_usock, epoll_remove_usock, recvmsg,
}
use udt_patch_for_epoll.SockEpoll.Views.{view}
use udt_patch_for_epoll.SockEpoll.Rearm.{remove_then_add_rearms}
use udt_patch_for_epoll.SockEpoll.Receive.{Taken, recvmsg-Taken}

-- A receive buffer that is a list of messages.
abbrev first : List Bytes → Bytes × List Bytes
first [] = ([], [])
first (m ∷ ms) = (m, ms)

abbrev messages : MsgBuffer
messages = record {
  Buffer = List Bytes;
  read_msg = λ b len. first b;
  msg_num = λ b. (length b, b);
  data_size = length;
}

abbrev desc : EpollDesc
desc = record {
  id = 1;
  udt_socks_out = 5 ∷ [];
  udt_socks_in = 5 ∷ [];
  local_id = 3;
  locals = [];
  udt_writes = 5 ∷ [];
  udt_reads = 5 ∷ [];
}

abbrev poll : Epoll
poll = record { id_seed = 1; polls = (1, desc) ∷ [] }

abbrev sock : Socket messages
sock = record {
  poll_ids = 1 ∷ [];
  is_closed = false;
  is_stream = false;
  connected = true;
  broken = false;
  closing = false;
  rcv_buffer = (1 ∷ 2 ∷ []) ∷ [];
  snd_buf_size = 10;
  curr_buf_size = 0;
}

abbrev lib : Lib messages
lib = record { epoll = poll; sockets = (5, sock) ∷ [] }

-- Watched for reading alone from now on, the socket is still shown as readable.
remove_then_add_rearms_example :
    let lib1 = (epoll_remove_usock messages lib 1 5).1 in
    view (epoll_add_usock messages lib1 1 5 (some 9)).1.epoll 1 5
    ≡ record { there = true; in_read = true; in_write = false; for_read = true; for_write = false }
unfolding view lookup locate
remove_then_add_rearms_example =
    remove_then_add_rearms messages lib 1 5 sock (some 9) refl
      (record { here = refl; dgram = refl; conn = refl; whole = refl }) refl

recvmsg-Taken_example :
    Taken messages poll 5 sock 100 easyncrcv 1 (recvmsg messages poll 5 sock 100)
unfolding contains
recvmsg-Taken_example = recvmsg-Taken messages poll 5 sock 100 1 refl refl (omega arith) refl
